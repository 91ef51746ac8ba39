-- ===== src/Kernel/Placement/Rounds.antt =====
-- kernel/scheduler/scheduler.go: what the rounds of the schedulers are made of: a process that is taken
-- out of a queue, and one that is sent to a CPU.
use tp_ssoo_1c.Prelude.{
  ℕ, ◌+◌, ◌≡◌, refl, ap, sym, ◌∙◌, Bool, true, false, List, ◌∷◌, none, some, ◌==◌, if◌then◌else◌,
  count, arith, Bool-cases, inl, inr, subst, if-intro,
}
use tp_ssoo_1c.Utils.Text.{Text}
use tp_ssoo_1c.Kernel.Pcb.{State, ready, exec}
use tp_ssoo_1c.Kernel.State.{Kernel}
use tp_ssoo_1c.Kernel.Queues.{
  SortBy, SortSlice, get_queue, set_queue, head_of, tail_of, sort_queue, search_queue, dequeue,
  contains_pid, enqueue, remove_by_pid,
}
use tp_ssoo_1c.Kernel.Queues.Dequeue.{dequeue-Dequeued, count-sort_queue}
use tp_ssoo_1c.Kernel.Shared.{state_of, remove_from_state}
use tp_ssoo_1c.Kernel.Scheduler.{start_on_cpu, undo_start, send_to_execute, set_cpu}
use tp_ssoo_1c.Kernel.Placement.{
  same_state, expected, Consistent, Pending, get_queue-set_queue, state_of-set_queue, queue_at,
}
use tp_ssoo_1c.Kernel.Placement.Moves.{
  with_process-Keeps, enqueue-Consistent, Keeps-Consistent, Keeps-trans,
}
use tp_ssoo_1c.Kernel.Placement.Handlers.{expected_pos, send-Keeps, set_cpus-Keeps}
use tp_ssoo_1c.Kernel.Placement.Removals.{remove_from_state-cases, arrive, Keeps-refl}

-- The queues hold the same processes, in some order.
pub record Rearranged (k k' : Kernel) : Type 0 where
  pub counts : (x : ℕ) (t : State) → count x (get_queue t k') ≡ count x (get_queue t k)
  pub states : (pid : ℕ) → state_of pid k' ≡ state_of pid k

pub Rearranged-Consistent : (k k' : Kernel) → Rearranged k k' → Consistent k → Consistent k'
Rearranged-Consistent k k' r c pid t =
    r.counts pid t ∙ c pid t ∙ ap (λ o. expected o t) (sym (r.states pid))

-- The part of `sendToExecute` below its first test.
started-Consistent :
    (s : State) (pid : ℕ) (cpu : Text) (now : ℕ) (k : Kernel)
    → Pending pid k
    → state_of pid k ≡ some s
    → Consistent (start_on_cpu pid cpu now k)
unfolding start_on_cpu
started-Consistent s pid cpu now k p e =
    Keeps-Consistent _ _
      (Keeps-trans _ _ _ (set_cpus-Keeps _ _)
        (Keeps-trans _ _ _ (with_process-Keeps pid _ _ (λ p. refl) (λ p. refl)) (send-Keeps _ _)))
      (enqueue-Consistent exec s now pid k p e)

undo_absent :
    (pid : ℕ) (cpu : Text) (now : ℕ) (k : Kernel)
    → remove_from_state pid k ≡ (none, k)
    → undo_start pid cpu now k ≡ k
unfolding undo_start
undo_absent pid cpu now k e = ground arith

undo_found :
    (s : State) (pid : ℕ) (cpu : Text) (now : ℕ) (k : Kernel)
    → remove_from_state pid k ≡ remove_by_pid s pid k
    → (remove_by_pid s pid k).0 ≡ some pid
    → undo_start pid cpu now k ≡ set_cpu cpu none (enqueue ready now pid (remove_by_pid s pid k).1)
unfolding undo_start
undo_found s pid cpu now k e h = rw (e, undo_start) (ground arith)

undo_start-Consistent :
    (pid : ℕ) (cpu : Text) (now : ℕ) (k : Kernel)
    → Consistent k
    → Consistent (undo_start pid cpu now k)
undo_start-Consistent pid cpu now k c = elim (remove_from_state-cases pid k c) [
  | inl e ↦ rw (undo_absent pid cpu now k e) c
  | inr (s, e, f) ↦
      rw (undo_found s pid cpu now k e f.returned)
        (Keeps-Consistent _ _ (set_cpus-Keeps _ _) (arrive s ready pid now k _ f (Keeps-refl _)))
]

send_ready :
    (pid : ℕ) (cpu : Text) (accepted : Bool) (now : ℕ) (k : Kernel)
    → state_of pid k ≡ some ready
    → send_to_execute pid cpu accepted now k ≡ (
        if accepted
        then start_on_cpu pid cpu now k
        else undo_start pid cpu now (start_on_cpu pid cpu now k))
unfolding send_to_execute
send_ready pid cpu accepted now k e = ground arith

pub send_to_execute-Consistent :
    (pid : ℕ) (cpu : Text) (accepted : Bool) (now : ℕ) (k : Kernel)
    → Pending pid k
    → state_of pid k ≡ some ready
    → Consistent (send_to_execute pid cpu accepted now k)
send_to_execute-Consistent pid cpu accepted now k p e =
    let started = started-Consistent ready pid cpu now k p e in
    rw (send_ready pid cpu accepted now k e)
      (if-intro Consistent accepted _ _ started (undo_start-Consistent pid cpu now _ started))

tail_none : (q : List ℕ) → head_of q ≡ none → tail_of q ≡ q
tail_none q e = ground arith

pub contains-head : (pid : ℕ) (q : List ℕ) → contains_pid pid (pid ∷ q) ≡ true
unfolding contains_pid
contains-head pid q = ground arith

module _ (sorter : SortSlice) where
  pub search_queue-Rearranged :
      (s : State) (by : SortBy) (k : Kernel) → Rearranged k (search_queue sorter s by k).1
  unfolding search_queue
  search_queue-Rearranged s by k = record {
    counts = λ x t. elim (Bool-cases (same_state s t)) [
      | inl e ↦
          rw (get_queue-set_queue, e)
            (count-sort_queue sorter by k (get_queue s k) x ∙ ap (count x) (queue_at s t k e))
      | inr e ↦ rw (get_queue-set_queue, e)
    ];
    states = λ pid. state_of-set_queue s pid _ k;
  }

  -- An empty queue.
  pub dequeue-Rearranged :
      (s : State) (by : SortBy) (k : Kernel)
      → (dequeue sorter s by k).0 ≡ none
      → Rearranged k (dequeue sorter s by k).1
  unfolding dequeue search_queue
  dequeue-Rearranged s by k e =
      let q = sort_queue sorter by k (get_queue s k) in
      subst (λ r. Rearranged k (set_queue s r k)) (sym (tail_none q e))
        (search_queue-Rearranged s by k)

  pub state_of-dequeue :
      (s : State) (by : SortBy) (pid : ℕ) (k : Kernel)
      → state_of pid (dequeue sorter s by k).1 ≡ state_of pid k
  unfolding dequeue
  state_of-dequeue s by pid k = state_of-set_queue s pid _ k

  other_queue :
      (s t : State) (by : SortBy) (k : Kernel)
      → same_state s t ≡ false
      → get_queue t (dequeue sorter s by k).1 ≡ get_queue t k
  unfolding dequeue
  other_queue s t by k e = rw (get_queue-set_queue, e)

  count-dequeue :
      (s t : State) (by : SortBy) (pid x : ℕ) (k : Kernel)
      → (dequeue sorter s by k).0 ≡ some pid
      → count x (get_queue t (dequeue sorter s by k).1)
          + (if same_state s t then (if pid == x then 1 else 0) else 0)
        ≡ count x (get_queue t k)
  count-dequeue s t by pid x k h = elim (Bool-cases (same_state s t)) [
    | inl e ↦
        let d = dequeue-Dequeued sorter s by k pid h in
        rw (e, ← queue_at s t k e, ← queue_at s t (dequeue sorter s by k).1 e)
          (omega (arith, d.counts x))
    | inr e ↦ rw (e, other_queue s t by k e) (omega arith)
  ]

  pub dequeued-state :
      (s : State) (by : SortBy) (pid : ℕ) (k : Kernel)
      → Consistent k
      → (dequeue sorter s by k).0 ≡ some pid
      → state_of pid k ≡ some s
  dequeued-state s by pid k c h =
      expected_pos (state_of pid k) s (ground (arith, count-dequeue s s by pid pid k h, c pid s))

  pub dequeue-Pending :
      (s : State) (by : SortBy) (pid : ℕ) (k : Kernel)
      → Consistent k
      → (dequeue sorter s by k).0 ≡ some pid
      → Pending pid (dequeue sorter s by k).1
  dequeue-Pending s by pid k c h =
      let known = dequeued-state s by pid k c h in
      record {
        nowhere = λ t. ground (arith, count-dequeue s t by pid pid k h, c pid t);
        others = λ pid' t ne.
            ground
              (arith, count-dequeue s t by pid pid' k h, c pid' t, state_of-dequeue s by pid' k);
      }
