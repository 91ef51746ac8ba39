-- ===== src/Kernel/Placement/Moves.antt =====
-- kernel/queues/queues.go: a move of a process from the queue of its state to another queue, and the
-- operations in between.
use native.Mathlib.Decide.{ℕ_discrete}
use tp_ssoo_1c.Prelude.{
  ℕ, ◌+◌, ◌≡◌, refl, ap, sym, ◌∙◌, [], ◌∷◌, Option, none, some, ◌==◌, if◌then◌else◌, count,
  count-append, arith, Bool-cases, Option-cases, inl, inr,
}
use tp_ssoo_1c.Kernel.Pcb.{State, set_state}
use tp_ssoo_1c.Kernel.State.{Kernel, Process, find_process, with_process, pid_of}
use tp_ssoo_1c.Kernel.Queues.{get_queue, set_process_state, enqueue, remove_by_pid}
use tp_ssoo_1c.Kernel.Shared.{state_of, remove_from_state}
use tp_ssoo_1c.Kernel.Placement.{
  same_state, expected, Consistent, Pending, Keeps, get_queue-set_queue, state_of-set_queue,
  find_process-update, count-remove_by_pid, state_of-remove_by_pid, queue_at,
}

pub remove_by_pid-Pending :
    (s : State) (pid : ℕ) (k : Kernel)
    → Consistent k
    → state_of pid k ≡ some s
    → Pending pid (remove_by_pid s pid k).1
remove_by_pid-Pending s pid k c e = record {
  nowhere = λ t. ground (arith, count-remove_by_pid s t pid pid k, c pid t);
  others = λ pid' t h.
      ground
        (arith, count-remove_by_pid s t pid pid' k, c pid' t, state_of-remove_by_pid s pid pid' k);
}

unknown-Pending : (pid : ℕ) (k : Kernel) → Consistent k → state_of pid k ≡ none → Pending pid k
unknown-Pending pid k c e = record {
  nowhere = λ t. c pid t ∙ ap (λ o. expected o t) e;
  others = λ pid' t h. c pid' t;
}

pub remove_from_state-Pending :
    (pid : ℕ) (k : Kernel) → Consistent k → Pending pid (remove_from_state pid k).1
unfolding remove_from_state
remove_from_state-Pending pid k c = elim (Option-cases (state_of pid k)) [
  | inl e ↦ rw (e, remove_from_state) (unknown-Pending pid k c e)
  | inr (s, e) ↦ rw (e, remove_from_state) (remove_by_pid-Pending s pid k c e)
]

pub state_of-remove_from_state :
    (pid pid' : ℕ) (k : Kernel) → state_of pid' (remove_from_state pid k).1 ≡ state_of pid' k
unfolding remove_from_state
state_of-remove_from_state pid pid' k = elim (Option-cases (state_of pid k)) [
  | inl e ↦ rw (e, remove_from_state)
  | inr (s, e) ↦ rw (e, remove_from_state) (state_of-remove_by_pid s pid pid' k)
]

-- A write through a process's pointer moves nothing.
get_queue-with_process :
    (t : State) (pid : ℕ) (f : Process → Process) (k : Kernel)
    → get_queue t (with_process pid f k) ≡ get_queue t k
get_queue-with_process t pid f k = ground arith

pub with_process-Keeps :
    (pid : ℕ) (f : Process → Process) (k : Kernel)
    → ((p : Process) → pid_of (f p) ≡ pid_of p)
    → ((p : Process) → (f p).pcb.state ≡ p.pcb.state)
    → Keeps k (with_process pid f k)
unfolding state_of
with_process-Keeps pid f k h g = record {
  queues = λ t. get_queue-with_process t pid f k;
  states = λ pid'. elim (Option-cases (find_process pid' k.processes)) [
    | inl e ↦ ground (arith, find_process-update pid pid' f k.processes h)
    | inr (p, e) ↦ ground (arith, g p, find_process-update pid pid' f k.processes h)
  ];
}

set_process_state-pid :
    (s : State) (now : ℕ) (p : Process) → pid_of (set_process_state s now p) ≡ pid_of p
unfolding set_state
set_process_state-pid s now p = refl

set_process_state-state :
    (s : State) (now : ℕ) (p : Process) → (set_process_state s now p).pcb.state ≡ s
unfolding set_state
set_process_state-state s now p = refl

-- The state of a process once `pid` has got the state `s`.
abbrev pub updated_state : State → ℕ → ℕ → Kernel → Option State
updated_state s pid pid' k =
    if pid == pid'
    then elim (state_of pid' k) [ none ↦ none | some _ ↦ some s ]
    else state_of pid' k

state_of-set_state :
    (s : State) (now pid pid' : ℕ) (k : Kernel)
    → state_of pid' (with_process pid (set_process_state s now) k) ≡ updated_state s pid pid' k
unfolding state_of
state_of-set_state s now pid pid' k = elim (Option-cases (find_process pid' k.processes)) [
  | inl e ↦ ground (
    arith,
    find_process-update pid pid' (set_process_state s now) k.processes
        (set_process_state-pid s now),
  )
  | inr (p, e) ↦ ground (
    arith,
    set_process_state-state s now p,
    find_process-update pid pid' (set_process_state s now) k.processes
        (set_process_state-pid s now),
  )
]

pub state_of-enqueue :
    (s : State) (now pid pid' : ℕ) (k : Kernel)
    → state_of pid' (enqueue s now pid k) ≡ updated_state s pid pid' k
unfolding enqueue
state_of-enqueue s now pid pid' k = rw state_of-set_queue (state_of-set_state s now pid pid' k)

count_one : (pid pid' : ℕ) → count pid' (pid ∷ []) ≡ (if pid == pid' then 1 else 0)
unfolding count
count_one pid pid' = ground arith

pub count-enqueue :
    (s t : State) (now pid pid' : ℕ) (k : Kernel)
    → count pid' (get_queue t (enqueue s now pid k))
      ≡ count pid' (get_queue t k) + (if same_state s t then (if pid == pid' then 1 else 0) else 0)
unfolding enqueue
count-enqueue s t now pid pid' k =
    let f = set_process_state s now in
    rw get_queue-set_queue (elim (Bool-cases (same_state s t)) [
      | inl e ↦ rw (e, get_queue-with_process s pid f k, queue_at s t k e, count-append, count_one)
      | inr e ↦ rw (e, get_queue-with_process t pid f k) (omega arith)
    ])

-- A process that is on its way arrives: it stands where its new state says.
pub enqueue-Consistent :
    (s s' : State) (now pid : ℕ) (k : Kernel)
    → Pending pid k
    → state_of pid k ≡ some s'
    → Consistent (enqueue s now pid k)
enqueue-Consistent s s' now pid k p e pid' t = elim (ℕ_discrete pid' pid) [
  | yes h ↦
      ground
        (arith, count-enqueue s t now pid pid' k, state_of-enqueue s now pid pid' k, p.nowhere t)
  | no h ↦ ground (
    arith,
    count-enqueue s t now pid pid' k,
    state_of-enqueue s now pid pid' k,
    p.others pid' t h,
  )
]

pub Keeps-Pending : (pid : ℕ) (k k' : Kernel) → Keeps k k' → Pending pid k → Pending pid k'
Keeps-Pending pid k k' h p = record {
  nowhere = λ t. ap (count pid) (h.queues t) ∙ p.nowhere t;
  others = λ pid' t ne.
      ap (count pid') (h.queues t)
      ∙ p.others pid' t ne
      ∙ ap (λ o. expected o t) (sym (h.states pid'));
}

pub Keeps-Consistent : (k k' : Kernel) → Keeps k k' → Consistent k → Consistent k'
Keeps-Consistent k k' h c pid t =
    ap (count pid) (h.queues t) ∙ c pid t ∙ ap (λ o. expected o t) (sym (h.states pid))

pub Keeps-trans : (k k' k'' : Kernel) → Keeps k k' → Keeps k' k'' → Keeps k k''
Keeps-trans k k' k'' g h = record {
  queues = λ t. h.queues t ∙ g.queues t;
  states = λ pid. h.states pid ∙ g.states pid;
}
