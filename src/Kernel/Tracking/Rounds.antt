-- ===== src/Kernel/Tracking/Rounds.antt =====
-- kernel/scheduler/scheduler.go: what the rounds of the schedulers leave known.
use tp_ssoo_1c.Kernel.Placement.Schedulers.{preempt_absent, preempt_found}
use tp_ssoo_1c.Kernel.Placement.Rounds.{dequeued-state}
use tp_ssoo_1c.Kernel.Placement.Removals.{remove_by_pid-cases}
use tp_ssoo_1c.Kernel.Placement.{Consistent}
use tp_ssoo_1c.Utils.Text.{Text}
use tp_ssoo_1c.Kernel.Tracking.{
  is_known, Untouched, Tracked, enqueue-Untouched, remove_from_state-Untouched, Untouched-trans,
  remove_by_pid-Untouched, Untouched-Tracked, send-Untouched, with_process-Untouched,
  dequeue-Untouched, search_queue-Untouched, set_cpu-Tracked, remove_blocked-Tracked,
  terminate_process-Untouched,
}
use tp_ssoo_1c.Kernel.Queues.{SortSlice, dequeue, search_queue, remove_by_pid}
use tp_ssoo_1c.Kernel.Pcb.{State, exec, blocked, new, ready, susp_blocked, susp_ready, exit}
use tp_ssoo_1c.Kernel.Shared.{try_inititialize_process, state_of, remove_from_state}
use tp_ssoo_1c.Kernel.State.{Kernel}
use tp_ssoo_1c.Kernel.Api.{dump_finished, request_suspend, request_unsuspend}
use tp_ssoo_1c.Kernel.Scheduler.{
  suspension_timeout, send_to_execute, undo_start, start_on_cpu, sts_dispatch, sts_preempt,
  mts_admit, lts_round, ingress_sort, scheduler_sort,
}
use tp_ssoo_1c.Prelude.{
  ℕ, ◌≡◌, refl, ap, ◌∙◌, Bool, true, false, none, some, inl, inr, Option-cases, if-intro,
}

state-known : (s : State) (pid : ℕ) (k : Kernel) → state_of pid k ≡ some s → is_known pid k ≡ true
state-known s pid k e = ap (λ o. elim o [ none ↦ false | some s ↦ true ]) e

some_known :
    (pid pid' : ℕ) (k : Kernel)
    → is_known pid k ≡ true
    → (some pid ≡ some pid')
    → is_known pid' k ≡ true
some_known pid pid' k h e = cc

started-Tracked :
    (pid : ℕ) (cpu : Text) (now : ℕ) (k : Kernel)
    → Tracked k
    → is_known pid k ≡ true
    → Tracked (start_on_cpu pid cpu now k)
unfolding start_on_cpu
started-Tracked pid cpu now k t h =
    let u = enqueue-Untouched exec now pid k in
    Untouched-Tracked _ _
      (Untouched-trans _ _ _ (with_process-Untouched pid _ _ (λ p. refl)) (send-Untouched _ _))
      (set_cpu-Tracked cpu (some pid) _ (Untouched-Tracked k _ u t)
        (λ pid' e. some_known pid pid' _ (u.known pid ∙ h) e))

undo_start-Tracked :
    (pid : ℕ) (cpu : Text) (now : ℕ) (k : Kernel) → Tracked k → Tracked (undo_start pid cpu now k)
unfolding undo_start
undo_start-Tracked pid cpu now k t =
    let u = remove_from_state-Untouched pid k in
    elim (Option-cases ((remove_from_state pid k).0)) [
      | inl e ↦ rw (e, undo_start) (Untouched-Tracked k _ u t)
      | inr (p, e) ↦
          rw (e, undo_start)
            (set_cpu-Tracked cpu none _
              (Untouched-Tracked k _ (Untouched-trans k _ _ u (enqueue-Untouched ready now pid _))
                t)
              (λ pid' e. cc))
    ]

send_to_execute-Tracked :
    (pid : ℕ) (cpu : Text) (accepted : Bool) (now : ℕ) (k : Kernel)
    → Tracked k
    → is_known pid k ≡ true
    → Tracked (send_to_execute pid cpu accepted now k)
unfolding send_to_execute
send_to_execute-Tracked pid cpu accepted now k t h =
    let started = started-Tracked pid cpu now k t h in
    if-intro Tracked _ _ _ t
      (if-intro Tracked accepted _ _ started (undo_start-Tracked pid cpu now _ started))

request_suspend-Untouched :
    (pid : ℕ) (accepted : Bool) (k : Kernel) → Untouched k (request_suspend pid accepted k)
unfolding request_suspend
request_suspend-Untouched pid true k =
    Untouched-trans k _ _ (send-Untouched _ k) (with_process-Untouched pid _ _ (λ p. refl))
request_suspend-Untouched pid false k = send-Untouched _ k

request_unsuspend-Untouched :
    (pid : ℕ) (accepted : Bool) (k : Kernel) → Untouched k (request_unsuspend pid accepted k).1
unfolding request_unsuspend
request_unsuspend-Untouched pid true k =
    Untouched-trans k _ _ (send-Untouched _ k) (with_process-Untouched pid _ _ (λ p. refl))
request_unsuspend-Untouched pid false k = send-Untouched _ k

pub suspension_timeout-Tracked :
    (pid : ℕ) (accepted : Bool) (now : ℕ) (k : Kernel)
    → Tracked k
    → Tracked (suspension_timeout pid accepted now k)
unfolding suspension_timeout
suspension_timeout-Tracked pid accepted now k t =
    let u = remove_by_pid-Untouched blocked pid k in
    let v = Untouched-trans k _ _ u (
      Untouched-trans _ _ _ (enqueue-Untouched susp_blocked now pid _) (
        Untouched-trans _ _ _ (with_process-Untouched pid _ _ (λ p. refl))
          (request_suspend-Untouched pid accepted _))) in
    elim (Option-cases ((remove_by_pid blocked pid k).0)) [
      | inl e ↦ rw (e, suspension_timeout) (if-intro Tracked _ _ _ (Untouched-Tracked k _ u t) t)
      | inr (p, e) ↦
          rw (e, suspension_timeout) (if-intro Tracked _ _ _ (Untouched-Tracked k _ v t) t)
    ]

pub dump_finished-Tracked :
    (pid : ℕ) (success : Bool) (now : ℕ) (k : Kernel)
    → Tracked k
    → Tracked (dump_finished pid success now k)
unfolding dump_finished
dump_finished-Tracked pid success now k t =
    let back = Untouched-Tracked k _ (remove_from_state-Untouched pid k) t in
    elim (Option-cases ((remove_from_state pid k).0)) [
      | inl e ↦ rw (e, dump_finished) back
      | inr (p, e) ↦
          rw (e, dump_finished)
            (if-intro Tracked success _ _
              (Untouched-Tracked _ _ (enqueue-Untouched ready now pid _)
                (remove_blocked-Tracked pid _ back))
              (Untouched-Tracked _ _
                (Untouched-trans _ _ _ (enqueue-Untouched exit now pid _)
                  (terminate_process-Untouched pid _))
                back))
    ]

try_inititialize-Untouched :
    (pid : ℕ) (created : Bool) (now : ℕ) (k : Kernel)
    → Untouched k (try_inititialize_process pid created now k).1
unfolding try_inititialize_process
try_inititialize-Untouched pid false now k = send-Untouched _ k
try_inititialize-Untouched pid true now k =
    Untouched-trans k _ _ (send-Untouched _ k) (
      Untouched-trans _ _ _ (remove_by_pid-Untouched new pid _) (enqueue-Untouched ready now pid _))

module _ (sorter : SortSlice) where
  pub sts_dispatch-Tracked :
      (cpu : Text) (accepted : Bool) (now : ℕ) (k : Kernel)
      → Consistent k
      → Tracked k
      → Tracked (sts_dispatch sorter cpu accepted now k)
  unfolding sts_dispatch
  sts_dispatch-Tracked cpu accepted now k c t =
      let by = scheduler_sort k.config.scheduler_algorithm in
      let u = dequeue-Untouched sorter ready by k in
      elim (Option-cases (dequeue sorter ready by k).0) [
        | inl e ↦ rw (e, sts_dispatch) (Untouched-Tracked k _ u t)
        | inr (pid, e) ↦
            rw (e, sts_dispatch)
              (send_to_execute-Tracked pid cpu accepted now _ (Untouched-Tracked k _ u t)
                (u.known pid ∙ state-known ready pid k (dequeued-state sorter ready by pid k c e)))
      ]

  pub sts_preempt-Tracked :
      (cpu : Text) (pid : ℕ) (accepted : Bool) (now : ℕ) (k : Kernel)
      → Consistent k
      → Tracked k
      → Tracked (sts_preempt sorter cpu pid accepted now k)
  sts_preempt-Tracked cpu pid accepted now k c t =
      let u = remove_by_pid-Untouched ready pid k in
      elim (remove_by_pid-cases ready pid k c) [
        | inl e ↦ rw (preempt_absent sorter cpu pid accepted now k e) t
        | inr f ↦ rw (preempt_found sorter cpu pid accepted now k f.returned) (
            send_to_execute-Tracked pid cpu accepted now _ (Untouched-Tracked k _ u t)
              (state-known ready pid _ f.state))
      ]

  pub mts_admit-Tracked :
      (accepted : Bool) (now : ℕ) (k : Kernel)
      → Tracked k
      → Tracked (mts_admit sorter accepted now k)
  unfolding mts_admit
  mts_admit-Tracked accepted now k t =
      let by = ingress_sort k.config.ready_ingress_algorithm in
      let u = dequeue-Untouched sorter susp_ready by k in
      elim (Option-cases (dequeue sorter susp_ready by k).0) [
        | inl e ↦ rw (e, mts_admit) (Untouched-Tracked k _ u t)
        | inr (pid, e) ↦
            let asked =
              Untouched-Tracked k _
                (Untouched-trans k _ _ u (request_unsuspend-Untouched pid accepted _)) t in
            rw (e, mts_admit)
              (if-intro Tracked _ _ _
                (Untouched-Tracked _ _ (enqueue-Untouched ready now pid _)
                  (remove_blocked-Tracked pid _ asked))
                (Untouched-Tracked _ _ (enqueue-Untouched susp_ready now pid _) asked))
      ]

  pub lts_round-Tracked :
      (created : Bool) (now : ℕ) (k : Kernel) → Tracked k → Tracked (lts_round sorter created now k)
  unfolding lts_round
  lts_round-Tracked created now k t =
      let by = ingress_sort k.config.ready_ingress_algorithm in
      let u = search_queue-Untouched sorter new by k in
      elim (Option-cases (search_queue sorter new by k).0) [
        | inl e ↦ rw (e, lts_round) (Untouched-Tracked k _ u t)
        | inr (pid, e) ↦
            rw (e, lts_round)
              (Untouched-Tracked k _
                (Untouched-trans k _ _ u (try_inititialize-Untouched pid created now _)) t)
      ]
