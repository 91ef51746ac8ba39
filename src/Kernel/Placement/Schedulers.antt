-- ===== src/Kernel/Placement/Schedulers.antt =====
-- kernel/scheduler/scheduler.go: the rounds of the schedulers leave every process in the queue of its
-- state.
use tp_ssoo_1c.Prelude.{
  ℕ, ◌≡◌, refl, sym, ◌∙◌, Bool, true, false, none, some, if◌then◌else◌, arith, Option-cases, inl,
  inr, subst, if-intro,
}
use tp_ssoo_1c.Utils.Text.{Text}
use tp_ssoo_1c.Kernel.Pcb.{State, ready, new, susp_ready}
use tp_ssoo_1c.Kernel.State.{Kernel, remove_blocked_by_pid}
use tp_ssoo_1c.Kernel.Queues.{
  SortBy, SortSlice, get_queue, tail_of, sort_queue, search_queue, dequeue, contains_pid, enqueue,
  remove_by_pid,
}
use tp_ssoo_1c.Kernel.Queues.Dequeue.{head_tail}
use tp_ssoo_1c.Kernel.Shared.{state_of, try_inititialize_process}
use tp_ssoo_1c.Kernel.Api.{request_unsuspend}
use tp_ssoo_1c.Kernel.Scheduler.{send_to_execute, sts_dispatch, sts_preempt, lts_round, mts_admit}
use tp_ssoo_1c.Kernel.Placement.{Consistent, Pending, Keeps}
use tp_ssoo_1c.Kernel.Placement.Moves.{
  with_process-Keeps, enqueue-Consistent, Keeps-Pending, Keeps-Consistent, Keeps-trans,
}
use tp_ssoo_1c.Kernel.Placement.Handlers.{send-Keeps, set_mts-Keeps}
use tp_ssoo_1c.Kernel.Placement.Removals.{remove_by_pid-cases}
use tp_ssoo_1c.Kernel.Scheduler.{scheduler_sort, ingress_sort}
use tp_ssoo_1c.Kernel.State.{create_in_memory}
use tp_ssoo_1c.Kernel.Placement.{state_of-remove_by_pid}
use tp_ssoo_1c.Kernel.Placement.Moves.{remove_by_pid-Pending}
use tp_ssoo_1c.Kernel.Placement.Handlers.{state_of_queued}
use tp_ssoo_1c.Kernel.Placement.Rounds.{
  Rearranged-Consistent, send_to_execute-Consistent, contains-head, search_queue-Rearranged,
  dequeue-Rearranged, state_of-dequeue, dequeued-state, dequeue-Pending,
}

module _ (sorter : SortSlice) where
  dispatch_none :
      (cpu : Text) (accepted : Bool) (now : ℕ) (k : Kernel)
      → (dequeue sorter ready (scheduler_sort k.config.scheduler_algorithm) k).0 ≡ none
      → sts_dispatch sorter cpu accepted now k
        ≡ (dequeue sorter ready (scheduler_sort k.config.scheduler_algorithm) k).1
  unfolding sts_dispatch
  dispatch_none cpu accepted now k e = ground arith

  dispatch_some :
      (pid : ℕ) (cpu : Text) (accepted : Bool) (now : ℕ) (k : Kernel)
      → (dequeue sorter ready (scheduler_sort k.config.scheduler_algorithm) k).0 ≡ some pid
      → sts_dispatch sorter cpu accepted now k
        ≡ send_to_execute pid cpu accepted now
            (dequeue sorter ready (scheduler_sort k.config.scheduler_algorithm) k).1
  unfolding sts_dispatch
  dispatch_some pid cpu accepted now k e = ground arith

  -- If every process stands once in the queue of its state and nowhere else, the same holds
  -- after a round of the short-term scheduler that gives a free CPU the next READY process, if
  -- there is one, whether the CPU accepts or refuses.
  pub sts_dispatch-Consistent :
      (cpu : Text) (accepted : Bool) (now : ℕ) (k : Kernel)
      → Consistent k
      → Consistent (sts_dispatch sorter cpu accepted now k)
  sts_dispatch-Consistent cpu accepted now k c =
      let by = scheduler_sort k.config.scheduler_algorithm in
      elim (Option-cases (dequeue sorter ready by k).0) [
        | inl e ↦
            rw (dispatch_none cpu accepted now k e)
              (Rearranged-Consistent k _ (dequeue-Rearranged sorter ready by k e) c)
        | inr (pid, e) ↦ rw (dispatch_some pid cpu accepted now k e) (
            send_to_execute-Consistent pid cpu accepted now _
              (dequeue-Pending sorter ready by pid k c e)
              (state_of-dequeue sorter ready by pid k ∙ dequeued-state sorter ready by pid k c e))
      ]

  pub preempt_absent :
      (cpu : Text) (pid : ℕ) (accepted : Bool) (now : ℕ) (k : Kernel)
      → remove_by_pid ready pid k ≡ (none, k)
      → sts_preempt sorter cpu pid accepted now k ≡ k
  unfolding sts_preempt
  preempt_absent cpu pid accepted now k e = ground arith

  pub preempt_found :
      (cpu : Text) (pid : ℕ) (accepted : Bool) (now : ℕ) (k : Kernel)
      → (remove_by_pid ready pid k).0 ≡ some pid
      → sts_preempt sorter cpu pid accepted now k
        ≡ send_to_execute pid cpu accepted now (remove_by_pid ready pid k).1
  unfolding sts_preempt
  preempt_found cpu pid accepted now k e = ground arith

  -- If every process stands once in the queue of its state and nowhere else, the same holds
  -- after a round of the short-term scheduler that gives an interrupted CPU to a process,
  -- whether or not that process is READY and whether the CPU accepts or refuses.
  pub sts_preempt-Consistent :
      (cpu : Text) (pid : ℕ) (accepted : Bool) (now : ℕ) (k : Kernel)
      → Consistent k
      → Consistent (sts_preempt sorter cpu pid accepted now k)
  sts_preempt-Consistent cpu pid accepted now k c = elim (remove_by_pid-cases ready pid k c) [
    | inl e ↦ rw (preempt_absent cpu pid accepted now k e) c
    | inr f ↦
        rw (preempt_found cpu pid accepted now k f.returned)
          (send_to_execute-Consistent pid cpu accepted now _ f.pending f.state)
  ]

  admit_none :
      (accepted : Bool) (now : ℕ) (k : Kernel)
      → (dequeue sorter susp_ready (ingress_sort k.config.ready_ingress_algorithm) k).0 ≡ none
      → mts_admit sorter accepted now k
        ≡ (dequeue sorter susp_ready (ingress_sort k.config.ready_ingress_algorithm) k).1
  unfolding mts_admit
  admit_none accepted now k e = ground arith

  -- What `MTS` does with a process that it took out of SUSP_READY.
  abbrev admitted : ℕ → Bool → ℕ → Kernel → Kernel
  admitted pid accepted now k =
      let asked = (request_unsuspend pid accepted k).1 in
      if (request_unsuspend pid accepted k).0
      then enqueue ready now pid
          (record asked { mts_queue = remove_blocked_by_pid pid asked.mts_queue })
      else enqueue susp_ready now pid asked

  admit_some :
      (pid : ℕ) (accepted : Bool) (now : ℕ) (k : Kernel)
      → (dequeue sorter susp_ready (ingress_sort k.config.ready_ingress_algorithm) k).0 ≡ some pid
      → mts_admit sorter accepted now k
        ≡ admitted pid accepted now
            (dequeue sorter susp_ready (ingress_sort k.config.ready_ingress_algorithm) k).1
  unfolding mts_admit
  admit_some pid accepted now k e = ground arith

  request_unsuspend-Keeps :
      (pid : ℕ) (accepted : Bool) (k : Kernel) → Keeps k (request_unsuspend pid accepted k).1
  unfolding request_unsuspend
  request_unsuspend-Keeps pid true k =
      Keeps-trans k _ _ (send-Keeps _ k) (with_process-Keeps pid _ _ (λ p. refl) (λ p. refl))
  request_unsuspend-Keeps pid false k = send-Keeps _ k

  admitted-Consistent :
      (s : State) (pid : ℕ) (accepted : Bool) (now : ℕ) (k : Kernel)
      → Pending pid k
      → state_of pid k ≡ some s
      → Consistent (admitted pid accepted now k)
  admitted-Consistent s pid accepted now k p e =
      let asked = request_unsuspend-Keeps pid accepted k in
      let back = Keeps-trans k _ _ asked (set_mts-Keeps _ _) in
      if-intro Consistent (request_unsuspend pid accepted k).0 _ _
        (enqueue-Consistent ready s now pid _ (Keeps-Pending pid k _ back p) (back.states pid ∙ e))
        (enqueue-Consistent susp_ready s now pid _ (Keeps-Pending pid k _ asked p)
          (asked.states pid ∙ e))

  -- If every process stands once in the queue of its state and nowhere else, the same holds
  -- after the medium-term scheduler asks memory to take back the next process of SUSP_READY, if
  -- there is one, whatever memory answers.
  pub mts_admit-Consistent :
      (accepted : Bool) (now : ℕ) (k : Kernel)
      → Consistent k
      → Consistent (mts_admit sorter accepted now k)
  mts_admit-Consistent accepted now k c =
      let by = ingress_sort k.config.ready_ingress_algorithm in
      elim (Option-cases (dequeue sorter susp_ready by k).0) [
        | inl e ↦
            rw (admit_none accepted now k e)
              (Rearranged-Consistent k _ (dequeue-Rearranged sorter susp_ready by k e) c)
        | inr (pid, e) ↦ rw (admit_some pid accepted now k e) (
            admitted-Consistent susp_ready pid accepted now _
              (dequeue-Pending sorter susp_ready by pid k c e)
              (state_of-dequeue sorter susp_ready by pid k
                ∙ dequeued-state sorter susp_ready by pid k c e))
      ]

  -- What `TryInititializeProcess` does once memory has created the process.
  initialised-Consistent :
      (pid : ℕ) (created : Bool) (now : ℕ) (k : Kernel)
      → Consistent k
      → contains_pid pid (get_queue new k) ≡ true
      → Consistent (try_inititialize_process pid created now k).1
  unfolding try_inititialize_process
  initialised-Consistent pid false now k c h = Keeps-Consistent k _ (send-Keeps _ k) c
  initialised-Consistent pid true now k c h =
      let sent = Keeps-Consistent k _ (send-Keeps (create_in_memory pid) k) c in
      let known = state_of_queued new pid _ sent h in
      enqueue-Consistent ready new now pid _ (remove_by_pid-Pending new pid _ sent known)
        (state_of-remove_by_pid new pid pid _ ∙ known)

  found_first :
      (pid : ℕ) (by : SortBy) (k : Kernel)
      → (search_queue sorter new by k).0 ≡ some pid
      → contains_pid pid (get_queue new (search_queue sorter new by k).1) ≡ true
  unfolding search_queue
  found_first pid by k e =
      let q = sort_queue sorter by k (get_queue new k) in
      subst (λ r. contains_pid pid r ≡ true) (sym (head_tail sorter q pid e))
        (contains-head pid (tail_of q))

  round_none :
      (created : Bool) (now : ℕ) (k : Kernel)
      → (search_queue sorter new (ingress_sort k.config.ready_ingress_algorithm) k).0 ≡ none
      → lts_round sorter created now k
        ≡ (search_queue sorter new (ingress_sort k.config.ready_ingress_algorithm) k).1
  unfolding lts_round
  round_none created now k e = ground arith

  round_some :
      (pid : ℕ) (created : Bool) (now : ℕ) (k : Kernel)
      → (search_queue sorter new (ingress_sort k.config.ready_ingress_algorithm) k).0 ≡ some pid
      → lts_round sorter created now k
        ≡ (try_inititialize_process pid created now
            (search_queue sorter new (ingress_sort k.config.ready_ingress_algorithm) k).1).1
  unfolding lts_round
  round_some pid created now k e = ground arith

  -- If every process stands once in the queue of its state and nowhere else, the same holds
  -- after a round of the long-term scheduler, whether or not there is a NEW process and
  -- whatever memory answers.
  pub lts_round-Consistent :
      (created : Bool) (now : ℕ) (k : Kernel)
      → Consistent k
      → Consistent (lts_round sorter created now k)
  lts_round-Consistent created now k c =
      let by = ingress_sort k.config.ready_ingress_algorithm in
      let searched = Rearranged-Consistent k _ (search_queue-Rearranged sorter new by k) c in
      elim (Option-cases (search_queue sorter new by k).0) [
        | inl e ↦ rw (round_none created now k e) searched
        | inr (pid, e) ↦
            rw (round_some pid created now k e)
              (initialised-Consistent pid created now _ searched (found_first pid by k e))
      ]
