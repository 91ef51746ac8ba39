-- ===== src/Kernel/Placement/Removals.antt =====
-- kernel/: the handlers that act only on a process which they found in a queue.
use tp_ssoo_1c.Prelude.{
  ℕ, ◌≡◌, refl, ◌≢◌, ◌∙◌, Bool, true, false, none, some, ◌⊎◌, inl, inr, if◌then◌else◌, arith,
  Bool-cases, Option-cases, if-intro,
}
use tp_ssoo_1c.Prelude.Int.{pos}
use tp_ssoo_1c.Kernel.Pcb.{State, exit, ready, exec, blocked, susp_blocked}
use tp_ssoo_1c.Kernel.State.{Kernel, with_process, remove_blocked_by_pid, update_burst_estimation}
use tp_ssoo_1c.Kernel.Queues.{get_queue, enqueue, contains_pid, remove_by_pid}
use tp_ssoo_1c.Kernel.Shared.{state_of, remove_from_state, free_cpu, terminate_process}
use tp_ssoo_1c.Kernel.Api.{
  Reason, interrupted, exited, nothing, handle_reason, dump_finished, request_suspend,
  reason_action,
}
use tp_ssoo_1c.Kernel.Scheduler.{suspension_timeout}
use tp_ssoo_1c.Kernel.Placement.{
  Consistent, Pending, Keeps, state_of-remove_by_pid, remove_by_pid_absent,
}
use tp_ssoo_1c.Kernel.Placement.Moves.{
  remove_by_pid-Pending, with_process-Keeps, enqueue-Consistent, Keeps-Pending, Keeps-Consistent,
  Keeps-trans,
}
use tp_ssoo_1c.Kernel.Placement.Handlers.{
  state_of_queued, unblocked-Keeps, terminate_process-Keeps, send-Keeps, set_mts-Keeps,
}

-- What `RemoveByPID` found: nothing, or a process that it took out and that is on its way.
pub record Found (s : State) (pid : ℕ) (k : Kernel) : Type 0 where
  pub returned : (remove_by_pid s pid k).0 ≡ some pid
  pub pending : Pending pid (remove_by_pid s pid k).1
  pub state : state_of pid (remove_by_pid s pid k).1 ≡ some s
  pub state_before : state_of pid k ≡ some s

remove_by_pid_found :
    (s : State) (pid : ℕ) (k : Kernel)
    → contains_pid pid (get_queue s k) ≡ true
    → (remove_by_pid s pid k).0 ≡ some pid
unfolding remove_by_pid
remove_by_pid_found s pid k h = rw h

pub remove_by_pid-cases :
    (s : State) (pid : ℕ) (k : Kernel)
    → Consistent k
    → (remove_by_pid s pid k ≡ (none, k)) ⊎ Found s pid k
remove_by_pid-cases s pid k c = elim (Bool-cases (contains_pid pid (get_queue s k))) [
  | inr e ↦ inl (remove_by_pid_absent s pid k e)
  | inl e ↦
      let known = state_of_queued s pid k c e in
      inr (record {
        returned = remove_by_pid_found s pid k e;
        pending = remove_by_pid-Pending s pid k c known;
        state = state_of-remove_by_pid s pid pid k ∙ known;
        state_before = known;
      })
]

-- The same of the queue of the process's own state.
pub remove_from_state-cases :
    (pid : ℕ) (k : Kernel)
    → Consistent k
    → (remove_from_state pid k ≡ (none, k))
      ⊎ ((s : State) × (remove_from_state pid k ≡ remove_by_pid s pid k) × Found s pid k)
unfolding remove_from_state
remove_from_state-cases pid k c = elim (Option-cases (state_of pid k)) [
  | inl e ↦ inl (rw (e, remove_from_state))
  | inr (s, e) ↦ elim (remove_by_pid-cases s pid k c) [
    | inl a ↦ inl (rw (e, remove_from_state) a)
    | inr f ↦ inr (s, rw (e, remove_from_state), f)
  ]
]

-- A process that was found is put into the queue of `t`, with operations in between and after.
pub arrive :
    (s t : State) (pid now : ℕ) (k k' : Kernel)
    → Found s pid k
    → Keeps (remove_by_pid s pid k).1 k'
    → Consistent (enqueue t now pid k')
arrive s t pid now k k' f keeps =
    enqueue-Consistent t s now pid k' (Keeps-Pending pid _ _ keeps f.pending)
      (keeps.states pid ∙ f.state)

pub Keeps-refl : (k : Kernel) → Keeps k k
Keeps-refl k = record { queues = λ t. refl; states = λ pid. refl }

-- The state that `HandleReason` passes on to its switch.
stopped : ℕ → ℕ → ℕ → Kernel → Kernel
stopped pid pc now k =
    update_burst_estimation pid now
      (free_cpu pid (with_process pid (λ p. record p { pcb = record (p.pcb) { pc = pc } }) k))

stopped-Keeps : (pid pc now : ℕ) (k : Kernel) → Keeps k (stopped pid pc now k)
unfolding stopped
stopped-Keeps pid pc now k =
    Keeps-trans k _ _ (with_process-Keeps pid _ k (λ p. refl) (λ p. refl))
      (unblocked-Keeps pid now _)

handle_reason_absent :
    (pid pc now : ℕ) (reason : Reason) (k : Kernel)
    → remove_by_pid exec pid k ≡ (none, k)
    → (handle_reason pid (pos pc) reason now k).1 ≡ k
unfolding handle_reason
handle_reason_absent pid pc now reason k e = ground arith

handle_reason_found :
    (pid pc now : ℕ) (reason : Reason) (k : Kernel)
    → (remove_by_pid exec pid k).0 ≡ some pid
    → (handle_reason pid (pos pc) reason now k).1
      ≡ reason_action reason pid now (stopped pid pc now (remove_by_pid exec pid k).1)
unfolding handle_reason stopped
handle_reason_found pid pc now reason k e = ground arith

reason_action-Consistent :
    (pid pc now : ℕ) (reason : Reason) (k : Kernel)
    → reason ≢ nothing
    → Found exec pid k
    → Consistent (reason_action reason pid now (stopped pid pc now (remove_by_pid exec pid k).1))
reason_action-Consistent pid pc now interrupted k h f =
    arrive exec ready pid now k _ f (stopped-Keeps pid pc now _)
reason_action-Consistent pid pc now exited k h f =
    Keeps-Consistent _ _ (terminate_process-Keeps pid _)
      (arrive exec exit pid now k _ f (stopped-Keeps pid pc now _))
reason_action-Consistent pid pc now nothing k h f = absurd (h refl)

-- If every process of the kernel stands once in the queue of its state and nowhere else, the same
-- holds after a CPU's report that a process was interrupted or has ended, with a program counter
-- that is not negative, whether or not the process was in EXEC.
pub handle_reason-Consistent :
    (pid pc now : ℕ) (reason : Reason) (k : Kernel)
    → Consistent k
    → reason ≢ nothing
    → Consistent (handle_reason pid (pos pc) reason now k).1
handle_reason-Consistent pid pc now reason k c h = elim (remove_by_pid-cases exec pid k c) [
  | inl e ↦ rw (handle_reason_absent pid pc now reason k e) c
  | inr f ↦
      rw (handle_reason_found pid pc now reason k f.returned)
        (reason_action-Consistent pid pc now reason k h f)
]

dump_finished_absent :
    (pid : ℕ) (success : Bool) (now : ℕ) (k : Kernel)
    → remove_from_state pid k ≡ (none, k)
    → dump_finished pid success now k ≡ k
unfolding dump_finished
dump_finished_absent pid success now k e = ground arith

-- What `DUMP_MEMORY` does with a process that it took out of its queue.
after_dump : ℕ → Bool → ℕ → Kernel → Kernel
after_dump pid success now k =
    if success
    then enqueue ready now pid (record k { mts_queue = remove_blocked_by_pid pid k.mts_queue })
    else terminate_process pid (enqueue exit now pid k)

dump_finished_found :
    (s : State) (pid : ℕ) (success : Bool) (now : ℕ) (k : Kernel)
    → remove_from_state pid k ≡ remove_by_pid s pid k
    → (remove_by_pid s pid k).0 ≡ some pid
    → dump_finished pid success now k ≡ after_dump pid success now (remove_by_pid s pid k).1
unfolding dump_finished after_dump
dump_finished_found s pid success now k e f = ground arith

after_dump-Consistent :
    (s : State) (pid : ℕ) (success : Bool) (now : ℕ) (k : Kernel)
    → Found s pid k
    → Consistent (after_dump pid success now (remove_by_pid s pid k).1)
unfolding after_dump
after_dump-Consistent s pid success now k f =
    if-intro Consistent success _ _ (arrive s ready pid now k _ f (set_mts-Keeps _ _)) (
      Keeps-Consistent _ _ (terminate_process-Keeps pid _)
        (arrive s exit pid now k _ f (Keeps-refl _)))

-- If every process stands once in the queue of its state and nowhere else, the same holds after
-- the end of a memory dump, whether it succeeded or failed.
pub dump_finished-Consistent :
    (pid : ℕ) (success : Bool) (now : ℕ) (k : Kernel)
    → Consistent k
    → Consistent (dump_finished pid success now k)
dump_finished-Consistent pid success now k c = elim (remove_from_state-cases pid k c) [
  | inl e ↦ rw (dump_finished_absent pid success now k e) c
  | inr (s, e, f) ↦
      rw (dump_finished_found s pid success now k e f.returned)
        (after_dump-Consistent s pid success now k f)
]

request_suspend-Keeps :
    (pid : ℕ) (accepted : Bool) (k : Kernel) → Keeps k (request_suspend pid accepted k)
unfolding request_suspend
request_suspend-Keeps pid accepted k =
    if-intro (Keeps k) accepted _ _
      (Keeps-trans k _ _ (send-Keeps _ k) (with_process-Keeps pid _ _ (λ p. refl) (λ p. refl)))
      (send-Keeps _ k)

-- What `sendToWait` does with a process that it took out of BLOCKED.
suspended : ℕ → Bool → ℕ → Kernel → Kernel
suspended pid accepted now k =
    request_suspend pid accepted
      (with_process pid (λ p. record p { timer_running = false }) (enqueue susp_blocked now pid k))

suspended-Consistent :
    (pid : ℕ) (accepted : Bool) (now : ℕ) (k : Kernel)
    → Found blocked pid k
    → Consistent (suspended pid accepted now (remove_by_pid blocked pid k).1)
unfolding suspended
suspended-Consistent pid accepted now k f =
    Keeps-Consistent _ _
      (Keeps-trans _ _ _ (with_process-Keeps pid _ _ (λ p. refl) (λ p. refl))
        (request_suspend-Keeps pid accepted _))
      (arrive blocked susp_blocked pid now k _ f (Keeps-refl _))

timeout_absent :
    (pid : ℕ) (accepted : Bool) (now : ℕ) (k : Kernel)
    → remove_by_pid blocked pid k ≡ (none, k)
    → suspension_timeout pid accepted now k ≡ k
unfolding suspension_timeout
timeout_absent pid accepted now k e = ground arith

timeout_found :
    (pid : ℕ) (accepted : Bool) (now : ℕ) (k : Kernel)
    → (remove_by_pid blocked pid k).0 ≡ some pid
    → state_of pid k ≡ some blocked
    → suspension_timeout pid accepted now k
      ≡ suspended pid accepted now (remove_by_pid blocked pid k).1
unfolding suspension_timeout suspended
timeout_found pid accepted now k e f = ground arith

-- If every process stands once in the queue of its state and nowhere else, the same holds after
-- the suspension timer of a process runs out, whether or not the process is still blocked and
-- whatever memory answers.
pub suspension_timeout-Consistent :
    (pid : ℕ) (accepted : Bool) (now : ℕ) (k : Kernel)
    → Consistent k
    → Consistent (suspension_timeout pid accepted now k)
suspension_timeout-Consistent pid accepted now k c = elim (remove_by_pid-cases blocked pid k c) [
  | inl e ↦ rw (timeout_absent pid accepted now k e) c
  | inr f ↦
      rw (timeout_found pid accepted now k f.returned f.state_before)
        (suspended-Consistent pid accepted now k f)
]
