-- ===== src/Kernel/Tracking/Handlers.antt =====
-- kernel/api/kernel_api.go and kernel/shared/process_shared.go: what the handlers of the CPUs leave
-- known.
use tp_ssoo_1c.Kernel.Placement.Creation.{find_process-append, new_process-pid}
use tp_ssoo_1c.Prelude.Exec.{crash, return, modify, ◌>>◌}
use tp_ssoo_1c.Kernel.Queues.{remove_by_pid, enqueue}
use tp_ssoo_1c.Kernel.Pcb.{new, ready, blocked, exec, exit}
use tp_ssoo_1c.Prelude.Keeps.{Keeps-bind, Keeps-option}
use tp_ssoo_1c.Kernel.Tracking.{
  is_known, waits, Tracked, set_cpus-Tracked, Untouched-Tracked, set_mts-Tracked,
  with_process-Untouched, enqueue-Untouched, set_ios-Untouched, send-Untouched,
  update_burst_estimation-Untouched, remove_by_pid, end_process-Untouched, free_cpu-Tracked,
  Untouched-trans, remove_from_state-Untouched, remove_by_pid-Untouched,
  terminate_process-Untouched, same_store, held,
}
use tp_ssoo_1c.Kernel.State.{Blocked, Kernel, CpuConnection, IoConnection, update_burst_estimation}
use tp_ssoo_1c.Utils.Text.{Text}
use tp_ssoo_1c.Kernel.Api.{
  handle_reason, syscall_io, add_blocked, receive_cpu, Reason, syscall_dump_memory, block_process,
  reason_action, set_ios, take_io, syscall_exit, create_blocked, has_device,
}
use tp_ssoo_1c.Kernel.Shared.{
  state_of, create_process, Status, add_process, set_pc, new_process, free_cpu, lift,
  remove_from_state, K, terminate_process,
}
use tp_ssoo_1c.Prelude.{
  ℕ, suc, ◌≡◌, refl, ap, sym, ◌∙◌, Bool, true, false, List, [], ◌∷◌, ◌++◌, none, some, ltb, ◌==◌,
  if◌then◌else◌, arith, Bool-cases, inl, inr, if-intro, subst, ==_iff,
}
use tp_ssoo_1c.Prelude.Int.{ℤ, pos, negsuc}
use tp_ssoo_1c.Prelude.Keeps
use tp_ssoo_1c.Prelude.Keeps.{Keeps-bind, Keeps-option}
use tp_ssoo_1c.Prelude.Exec.{return, crash}
use tp_ssoo_1c.Kernel.Api.{interrupted, exited, nothing}

-- A CPU reports itself.
held-append :
    (pid : ℕ) (c : CpuConnection) (cs : List CpuConnection)
    → c.process ≡ none
    → held pid (cs ++ (c ∷ [])) ≡ true
    → held pid cs ≡ true
held-append pid c [] e h = ground arith
held-append pid c (d ∷ cs) e h = ground (arith, held-append pid c cs)

pub receive_cpu-Tracked :
    (id ip : Text) (port : ℤ) (k : Kernel) → Tracked k → Tracked (receive_cpu id ip port k)
unfolding receive_cpu
receive_cpu-Tracked id ip port k t =
    set_cpus-Tracked _ k t (λ pid h. t.cpus pid (held-append pid _ k.available_cpus refl h))

-- The process that is created is the next one.
added-known :
    (path : Text) (size : ℤ) (now pid : ℕ) (k : Kernel)
    → is_known pid (add_process path size now k)
      ≡ (if k.next_pid == pid then true else is_known pid k)
unfolding state_of
added-known path size now pid k =
    let p = new_process k.next_pid path size now k in
    ground
      (arith, find_process-append pid p k.processes, new_process-pid k.next_pid path size now k)

added-numbered :
    (pid n : ℕ) (b : Bool) → b ≡ ltb pid n → (if n == pid then true else b) ≡ ltb pid (suc n)
added-numbered pid n b h = ground arith

added-kept : (pid n : ℕ) (b : Bool) → b ≡ true → (if n == pid then true else b) ≡ true
added-kept pid n b h = ground arith

add_process-Tracked :
    (path : Text) (size : ℤ) (now : ℕ) (k : Kernel)
    → Tracked k
    → Tracked (add_process path size now k)
add_process-Tracked path size now k t = record {
  numbered =
      λ pid. added-known path size now pid k ∙ added-numbered pid k.next_pid _ (t.numbered pid);
  total = ap suc t.total;
  cpus = λ pid h. added-known path size now pid k ∙ added-kept pid k.next_pid _ (t.cpus pid h);
  waiting =
      λ pid h. added-known path size now pid k ∙ added-kept pid k.next_pid _ (t.waiting pid h);
}

pub create_process-Tracked :
    (path : Text) (size : ℤ) (now : ℕ) (k : Kernel)
    → Tracked k
    → Tracked (create_process path size now k)
unfolding create_process
create_process-Tracked path size now k t =
    Untouched-Tracked _ _ (enqueue-Untouched new now k.next_pid _)
      (add_process-Tracked path size now k t)

-- A process is off its CPU, with a new estimate.
pub unblocked-Tracked :
    (pid now : ℕ) (k : Kernel)
    → Tracked k
    → Tracked (update_burst_estimation pid now (free_cpu pid k))
unblocked-Tracked pid now k t =
    Untouched-Tracked _ _ (update_burst_estimation-Untouched pid now _) (free_cpu-Tracked pid k t)

pub set_pc-Tracked : (pid : ℕ) (pc : ℤ) → Keeps.Keeps Status Tracked (set_pc pid pc)
set_pc-Tracked pid (negsuc n) k t = t
set_pc-Tracked pid (pos pc) k t =
    Untouched-Tracked k _ (with_process-Untouched pid _ k (λ p. refl)) t

reason_action-Tracked :
    (reason : Reason) (pid now : ℕ) (k : Kernel)
    → Tracked k
    → Tracked (reason_action reason pid now k)
reason_action-Tracked interrupted pid now k t =
    Untouched-Tracked k _ (enqueue-Untouched ready now pid k) t
reason_action-Tracked exited pid now k t =
    Untouched-Tracked k _
      (Untouched-trans k _ _ (enqueue-Untouched exit now pid k) (terminate_process-Untouched pid _))
      t
reason_action-Tracked nothing pid now k t = t

pub handle_reason-Tracked :
    (pid : ℕ) (pc : ℤ) (reason : Reason) (now : ℕ) (k : Kernel)
    → Tracked k
    → Tracked (handle_reason pid pc reason now k).1
unfolding handle_reason
handle_reason-Tracked pid pc reason now =
    let rest : K (Unit {0}) =
      modify (free_cpu pid)
      >> (modify (update_burst_estimation pid now) >> modify (reason_action reason pid now)) in
    let stop : ℕ → K (Unit {0}) = λ p. set_pc pid pc >> rest in
    Keeps-bind Status Tracked (lift (remove_by_pid exec pid))
      (λ removed. elim removed [ none ↦ return tt | some p ↦ stop p ])
      (λ k t. Untouched-Tracked k _ (remove_by_pid-Untouched exec pid k) t)
      (λ removed.
        Keeps-option Status Tracked removed (return tt) stop (λ k t. t)
          (λ p.
            Keeps-bind Status Tracked (set_pc pid pc) (λ _. rest) (set_pc-Tracked pid pc)
              (λ _ k t. reason_action-Tracked reason pid now _ (unblocked-Tracked pid now k t))))

waits-append :
    (pid : ℕ) (b : Blocked) (q : List Blocked)
    → waits pid (q ++ (b ∷ [])) ≡ (if b.process == pid then true else waits pid q)
waits-append pid b [] = refl
waits-append pid b (c ∷ q) = ground (arith, waits-append pid b q)

-- An entry of a process that is known is added.
appended-Tracked :
    (b : Blocked) (k : Kernel)
    → Tracked k
    → is_known b.process k ≡ true
    → Tracked (record k { mts_queue = k.mts_queue ++ (b ∷ []) })
appended-Tracked b k t h = set_mts-Tracked _ k t (λ pid e. elim (Bool-cases (b.process == pid)) [
  | inl same ↦ subst (λ i. is_known i k ≡ true) ((==_iff _ _).0 same) h
  | inr other ↦ t.waiting pid (sym (waits-append pid b k.mts_queue ∙ rw other) ∙ e)
])

add_blocked-Tracked :
    (pid : ℕ) (name : Text) (time : ℤ) (working : Bool) (k : Kernel)
    → Tracked k
    → is_known pid k ≡ true
    → Tracked (add_blocked pid name time working k)
unfolding add_blocked
add_blocked-Tracked pid name time working k t h =
    let u = with_process-Untouched pid (λ p. record p { timer_running = false }) k (λ p. refl) in
    appended-Tracked (create_blocked pid name time working) _ (Untouched-Tracked k _ u t)
      (u.known pid ∙ h)

block_process-known :
    (pid pid' now : ℕ) (k : Kernel) → is_known pid' (block_process pid now k) ≡ is_known pid' k
unfolding block_process free_cpu
block_process-known pid pid' now k =
    (enqueue-Untouched blocked now pid _).known pid'
    ∙ (update_burst_estimation-Untouched pid now _).known pid'
    ∙ same_store pid' _ _ refl
    ∙ (remove_from_state-Untouched pid k).known pid'

block_process-Tracked : (pid now : ℕ) (k : Kernel) → Tracked k → Tracked (block_process pid now k)
unfolding block_process
block_process-Tracked pid now k t =
    Untouched-Tracked _ _ (enqueue-Untouched blocked now pid _)
      (unblocked-Tracked pid now _ (Untouched-Tracked k _ (remove_from_state-Untouched pid k) t))

blocked_for_io-Tracked :
    (pid : ℕ) (device : Text) (time : ℤ) (now : ℕ) (found : Bool) (ios : List IoConnection)
    (k : Kernel)
    → Tracked k
    → is_known pid k ≡ true
    → Tracked (add_blocked pid device time found (block_process pid now (set_ios ios k)))
blocked_for_io-Tracked pid device time now found ios k t h =
    let u = set_ios-Untouched ios k in
    add_blocked-Tracked pid device time found _
      (block_process-Tracked pid now _ (Untouched-Tracked k _ u t))
      (block_process-known pid pid now _ ∙ u.known pid ∙ h)

pub syscall_io-Tracked :
    (pid : ℕ) (device : Text) (time : ℤ) (now : ℕ) (k : Kernel)
    → Tracked k
    → is_known pid k ≡ true
    → Tracked (syscall_io pid device time now k)
unfolding syscall_io
syscall_io-Tracked pid device time now k t h =
    let (found, ios) = take_io device k.available_ios in
    let waiting = blocked_for_io-Tracked pid device time now found ios k t h in
    if-intro Tracked (has_device device k.available_ios) _ _
      (if-intro Tracked found _ _ (Untouched-Tracked _ _ (send-Untouched _ _) waiting) waiting)
      (Untouched-Tracked k _ (end_process-Untouched pid now k) t)

pub syscall_dump_memory-Tracked :
    (pid now : ℕ) (k : Kernel)
    → Tracked k
    → is_known pid k ≡ true
    → Tracked (syscall_dump_memory pid now k)
unfolding syscall_dump_memory
syscall_dump_memory-Tracked pid now k t h = Untouched-Tracked _ _ (send-Untouched _ _) (
    add_blocked-Tracked pid [] (pos 0) true _ (block_process-Tracked pid now k t)
      (block_process-known pid pid now k ∙ h))

pub syscall_exit-Tracked : (pid now : ℕ) → Keeps.Keeps Status Tracked (syscall_exit pid now)
syscall_exit-Tracked pid now =
    let lost : K (Unit {0}) = crash in
    let leave : ℕ → K (Unit {0}) =
      λ p. modify (λ k. free_cpu pid (terminate_process pid (enqueue exit now pid k))) in
    Keeps-bind Status Tracked (lift (remove_from_state pid))
      (λ removed. elim removed [ none ↦ lost | some p ↦ leave p ])
      (λ k t. Untouched-Tracked k _ (remove_from_state-Untouched pid k) t)
      (λ removed.
        Keeps-option Status Tracked removed lost leave (λ k t. t)
          (λ p k t. free_cpu-Tracked pid _ (
            Untouched-Tracked k _
              (Untouched-trans k _ _ (enqueue-Untouched exit now pid k)
                (terminate_process-Untouched pid _))
              t)))
