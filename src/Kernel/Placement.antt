-- ===== src/Kernel/Placement.antt =====
-- kernel/queues/queues.go: where a process stands. In a consistent kernel each process stands once in
-- the queue of the state of its PCB, and in no other queue.
pub mod Moves
pub mod Handlers
pub mod Removals
pub mod Rounds
pub mod Schedulers
pub mod Creation
pub mod Syscalls
pub mod Devices
pub mod Disconnection
use tp_ssoo_1c.Prelude.{
  ℕ, zero, suc, ◌+◌, ◌-◌, ◌≡◌, refl, ◌≢◌, ap, sym, ◌∙◌, Bool, true, false, List, [], ◌∷◌, ◌++◌,
  Option, none, some, ◌==◌, if◌then◌else◌, count, count-append, arith, Bool-cases, inl, inr, ◌<◌,
}
use tp_ssoo_1c.Kernel.Pcb.{
  State, Pcb, state_index, set_state, exit, new, ready, exec, blocked, susp_blocked, susp_ready,
}
use tp_ssoo_1c.Kernel.State.{Kernel, Process, find_process, update_process, with_process, pid_of}
use tp_ssoo_1c.Kernel.Queues.{
  get_queue, set_queue, set_process_state, enqueue, contains_pid, remove_first, remove_by_pid,
}
use tp_ssoo_1c.Kernel.Shared.{state_of, remove_from_state}

abbrev pub same_state : State → State → Bool
same_state s t = state_index s == state_index t

-- How often a process with this state is to stand in the queue of the state `t`.
abbrev pub expected : Option State → State → ℕ
expected none t = 0
expected (some s) t = if same_state s t then 1 else 0

abbrev pub Consistent : Kernel → Type 0
Consistent k = (pid : ℕ) (t : State) → count pid (get_queue t k) ≡ expected (state_of pid k) t

-- The process `pid` is on its way from one queue to another.
pub record Pending (pid : ℕ) (k : Kernel) : Type 0 where
  pub nowhere : (t : State) → count pid (get_queue t k) ≡ 0
  pub others :
      (pid' : ℕ) (t : State)
      → pid' ≢ pid
      → count pid' (get_queue t k) ≡ expected (state_of pid' k) t

-- An operation that moves no process and changes no state.
pub record Keeps (k k' : Kernel) : Type 0 where
  pub queues : (t : State) → get_queue t k' ≡ get_queue t k
  pub states : (pid : ℕ) → state_of pid k' ≡ state_of pid k

pub get_queue-set_queue :
    (s t : State) (q : List ℕ) (k : Kernel)
    → get_queue t (set_queue s q k) ≡ (if same_state s t then q else get_queue t k)
get_queue-set_queue s t q k = ground arith

pub state_of-set_queue :
    (s : State) (pid : ℕ) (q : List ℕ) (k : Kernel)
    → state_of pid (set_queue s q k) ≡ state_of pid k
unfolding state_of
state_of-set_queue s pid q k = ground arith

pub find_process-update :
    (pid pid' : ℕ) (f : Process → Process) (ps : List Process)
    → ((p : Process) → pid_of (f p) ≡ pid_of p)
    → find_process pid' (update_process pid f ps) ≡ (
        if pid == pid'
        then elim (find_process pid' ps) [ none ↦ none | some p ↦ some (f p) ]
        else find_process pid' ps)
unfolding find_process update_process
find_process-update pid pid' f [] h = ground arith
find_process-update pid pid' f (p ∷ ps) h = ground (arith, h p, find_process-update pid pid' f ps h)

pub count-remove_first :
    (pid pid' : ℕ) (q : List ℕ)
    → count pid' (remove_first pid q) ≡ (if pid == pid' then count pid' q - 1 else count pid' q)
unfolding count remove_first
count-remove_first pid pid' [] = ground arith
count-remove_first pid pid' (x ∷ xs) = ground (arith, count-remove_first pid pid' xs)

pub count-not_contains : (pid : ℕ) (q : List ℕ) → contains_pid pid q ≡ false → count pid q ≡ 0
unfolding count contains_pid
count-not_contains pid [] h = refl
count-not_contains pid (x ∷ xs) h = ground (arith, count-not_contains pid xs)

pub count-contains : (pid : ℕ) (q : List ℕ) → contains_pid pid q ≡ true → 0 < count pid q
unfolding count contains_pid
count-contains pid [] h = cc
count-contains pid (x ∷ xs) h = ground (arith, count-contains pid xs)

same_state_eq : (s t : State) → same_state s t ≡ true → s ≡ t
same_state_eq s t h = ground arith

pub same_state_refl : (s : State) → same_state s s ≡ true
same_state_refl s = ground arith

pub queue_at : (s t : State) (k : Kernel) → same_state s t ≡ true → get_queue s k ≡ get_queue t k
queue_at s t k h = ap (λ u. get_queue u k) (same_state_eq s t h)

-- The queues after `RemoveByPID`.
removed_queue : (s t : State) (pid : ℕ) (k : Kernel) → List ℕ
removed_queue s t pid k = if same_state s t then remove_first pid (get_queue t k) else get_queue t k

remove_by_pid_queue :
    (s t : State) (pid : ℕ) (k : Kernel)
    → contains_pid pid (get_queue s k) ≡ true
    → get_queue t (remove_by_pid s pid k).1 ≡ removed_queue s t pid k
unfolding remove_by_pid removed_queue
remove_by_pid_queue s t pid k h =
    rw (h, get_queue-set_queue)
      (elim (Bool-cases (same_state s t)) [ inl e ↦ rw (e, queue_at s t k e) | inr e ↦ rw e ])

count_removed :
    (s t : State) (pid pid' : ℕ) (k : Kernel)
    → count pid' (removed_queue s t pid k) ≡ (
        if same_state s t
        then (if pid == pid' then count pid' (get_queue t k) - 1 else count pid' (get_queue t k))
        else count pid' (get_queue t k))
unfolding removed_queue
count_removed s t pid pid' k = elim (Bool-cases (same_state s t)) [
  | inl e ↦ rw e (count-remove_first pid pid' (get_queue t k))
  | inr e ↦ rw e
]

-- A queue without the process: taking one off the count zero changes nothing.
count_absent :
    (s t : State) (pid pid' : ℕ) (k : Kernel)
    → contains_pid pid (get_queue s k) ≡ false
    → count pid' (get_queue t k) ≡ (
        if same_state s t
        then (if pid == pid' then count pid' (get_queue t k) - 1 else count pid' (get_queue t k))
        else count pid' (get_queue t k))
count_absent s t pid pid' k h = elim (Bool-cases (same_state s t)) [
  | inl e ↦
      rw e (ground (arith, count-not_contains pid (get_queue t k) (rw (queue_at s t k e) at h)))
  | inr e ↦ rw e
]

pub remove_by_pid_absent :
    (s : State) (pid : ℕ) (k : Kernel)
    → contains_pid pid (get_queue s k) ≡ false
    → remove_by_pid s pid k ≡ (none, k)
unfolding remove_by_pid
remove_by_pid_absent s pid k h = rw h

pub count-remove_by_pid :
    (s t : State) (pid pid' : ℕ) (k : Kernel)
    → count pid' (get_queue t (remove_by_pid s pid k).1) ≡ (
        if same_state s t
        then (if pid == pid' then count pid' (get_queue t k) - 1 else count pid' (get_queue t k))
        else count pid' (get_queue t k))
count-remove_by_pid s t pid pid' k = elim (Bool-cases (contains_pid pid (get_queue s k))) [
  | inl e ↦ rw (remove_by_pid_queue s t pid k e) (count_removed s t pid pid' k)
  | inr e ↦ rw (remove_by_pid_absent s pid k e) (count_absent s t pid pid' k e)
]

pub state_of-remove_by_pid :
    (s : State) (pid pid' : ℕ) (k : Kernel)
    → state_of pid' (remove_by_pid s pid k).1 ≡ state_of pid' k
unfolding remove_by_pid
state_of-remove_by_pid s pid pid' k = elim (Bool-cases (contains_pid pid (get_queue s k))) [
  | inl e ↦ rw e (state_of-set_queue s pid' _ k)
  | inr e ↦ rw e
]
