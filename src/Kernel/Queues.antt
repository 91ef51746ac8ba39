-- ===== src/Kernel/Queues.antt =====
-- kernel/queues/queues.go: the queue of each process state.
pub mod Insertion
pub mod Dequeue
use tp_ssoo_1c.Prelude.{
  ℕ, suc, ◌+◌, ◌≤◌, ◌≡◌, Bool, true, false, List, [], ◌∷◌, ◌++◌, Option, none, some, ◌==◌,
  if◌then◌else◌, count,
}
use tp_ssoo_1c.Prelude.Int.{ℤ, pos, ◌≤ℤ◌}
use tp_ssoo_1c.Kernel.Pcb.{
  State, Pcb, exit, new, ready, exec, blocked, susp_blocked, susp_ready, set_state,
}
use tp_ssoo_1c.Kernel.State.{Kernel, Process, find_process, with_process}

pub data SortBy : Type 0 where
  size estimated_burst no_sort : SortBy

-- The elements of a list are in order of their keys.
abbrev pub Below : ℤ → (ℕ → ℤ) → List ℕ → Type 0
Below n key [] = Unit {0}
Below n key (x ∷ xs) = (n ≤ℤ key x) × Below n key xs

abbrev pub IsSorted : (ℕ → ℤ) → List ℕ → Type 0
IsSorted key [] = Unit {0}
IsSorted key (x ∷ xs) = Below (key x) key xs × IsSorted key xs

-- `sort.Slice`: some order of the same elements in which the keys do not fall. It need not be
-- stable.
pub record SortSlice : Type 0 where
  pub sort : (ℕ → ℤ) → List ℕ → List ℕ
  pub sort_sorted : (key : ℕ → ℤ) (xs : List ℕ) → IsSorted key (sort key xs)
  pub sort_count : (key : ℕ → ℤ) (xs : List ℕ) (x : ℕ) → count x (sort key xs) ≡ count x xs

-- The queue that `getQueueAndMutex` points to.
abbrev pub get_queue : State → Kernel → List ℕ
get_queue new k = k.new_queue
get_queue ready k = k.ready_queue
get_queue blocked k = k.blocked_queue
get_queue exec k = k.exec_queue
get_queue susp_ready k = k.susp_ready_queue
get_queue susp_blocked k = k.susp_blocked_queue
get_queue exit k = k.exit_queue

-- A write through that pointer.
abbrev pub set_queue : State → List ℕ → Kernel → Kernel
set_queue new q k = record k { new_queue = q }
set_queue ready q k = record k { ready_queue = q }
set_queue blocked q k = record k { blocked_queue = q }
set_queue exec q k = record k { exec_queue = q }
set_queue susp_ready q k = record k { susp_ready_queue = q }
set_queue susp_blocked q k = record k { susp_blocked_queue = q }
set_queue exit q k = record k { exit_queue = q }

abbrev is_nil : List ℕ → Bool
is_nil [] = true
is_nil (x ∷ xs) = false

unfoldable pub is_empty : State → Kernel → Bool
is_empty s k = is_nil (get_queue s k)

abbrev pub set_process_state : State → ℕ → Process → Process
set_process_state s now p = record p { pcb = set_state s now p.pcb }

unfoldable pub enqueue : State → ℕ → ℕ → Kernel → Kernel
enqueue s now pid k =
    let k' = with_process pid (set_process_state s now) k in
    set_queue s (get_queue s k' ++ (pid ∷ [])) k'

-- The field that a queue is sorted by; a PID of the queue is always in the store.
abbrev pub sort_key : SortBy → Kernel → ℕ → ℤ
sort_key size k pid = elim (find_process pid k.processes) [ none ↦ pos 0 | some p ↦ p.size ]
sort_key estimated_burst k pid = elim (find_process pid k.processes) [
  | none ↦ pos 0
  | some p ↦ pos p.estimated_burst
]
sort_key no_sort k pid = pos 0

abbrev pub head_of : List ℕ → Option ℕ
head_of [] = none
head_of (x ∷ xs) = some x

abbrev pub tail_of : List ℕ → List ℕ
tail_of [] = []
tail_of (x ∷ xs) = xs

module _ (sorter : SortSlice) where
  -- The queue as `Search` and `Dequeue` leave it before they read its head.
  unfoldable pub sort_queue : SortBy → Kernel → List ℕ → List ℕ
  sort_queue by k [] = []
  sort_queue by k (x ∷ []) = x ∷ []
  sort_queue size k (x ∷ y ∷ q) = sorter.sort (sort_key size k) (x ∷ y ∷ q)
  sort_queue estimated_burst k (x ∷ y ∷ q) = sorter.sort (sort_key estimated_burst k) (x ∷ y ∷ q)
  sort_queue no_sort k (x ∷ y ∷ q) = x ∷ y ∷ q

  -- `Search` returns the head and leaves the queue sorted.
  unfoldable pub search_queue : State → SortBy → Kernel → Option ℕ × Kernel
  search_queue s by k = let q = sort_queue by k (get_queue s k) in (head_of q, set_queue s q k)

  unfoldable pub dequeue : State → SortBy → Kernel → Option ℕ × Kernel
  dequeue s by k = let q = sort_queue by k (get_queue s k) in (head_of q, set_queue s (tail_of q) k)

-- The loops of `FindByPID` and `RemoveByPID`.
unfoldable pub contains_pid : ℕ → List ℕ → Bool
contains_pid pid [] = false
contains_pid pid (x ∷ xs) = if x == pid then true else contains_pid pid xs

unfoldable pub remove_first : ℕ → List ℕ → List ℕ
remove_first pid [] = []
remove_first pid (x ∷ xs) = if x == pid then xs else x ∷ remove_first pid xs

unfoldable pub find_by_pid : State → ℕ → Kernel → Option ℕ
find_by_pid s pid k = if contains_pid pid (get_queue s k) then some pid else none

unfoldable pub remove_by_pid : State → ℕ → Kernel → Option ℕ × Kernel
remove_by_pid s pid k =
    if contains_pid pid (get_queue s k)
    then (some pid, set_queue s (remove_first pid (get_queue s k)) k)
    else (none, k)
