-- ===== src/Kernel/Tracking.antt =====
-- kernel/: which processes the kernel knows. The PIDs that it has given out, the processes of the
-- CPUs and those that `MTSQueue` names are processes of the store.
pub mod Handlers
pub mod Rounds
pub mod Choice
pub mod Longest
pub mod Requests
pub mod Devices
pub mod Syscalls
use tp_ssoo_1c.Prelude.{
  ℕ, ◌≡◌, refl, ap, sym, ◌∙◌, Bool, true, false, List, [], ◌∷◌, ◌++◌, Option, none, some, ltb, ◌==◌,
  if◌then◌else◌, arith, Bool-cases, Option-cases, inl, inr, if-intro, ◌⊎◌,
}
use tp_ssoo_1c.Utils.Text.{Text, text_eq}
use tp_ssoo_1c.Kernel.Pcb.{State, set_state}
use tp_ssoo_1c.Kernel.State.{
  Kernel, Process, Blocked, Request, CpuConnection, IoConnection, find_process, with_process,
  pid_of, send, update_burst_estimation, remove_blocked_by_pid,
}
use tp_ssoo_1c.Kernel.Queues.{
  SortBy, SortSlice, get_queue, set_queue, set_process_state, enqueue, remove_by_pid, contains_pid,
  remove_first, dequeue, search_queue,
}
use tp_ssoo_1c.Kernel.Shared.{
  state_of, remove_from_state, terminate_process, end_process, free_cpus, free_cpu, holds,
}
use tp_ssoo_1c.Kernel.Api.{process_of_cpu}
use tp_ssoo_1c.Kernel.Scheduler.{assign_cpu, set_cpu}
use tp_ssoo_1c.Kernel.Placement.{find_process-update, state_of-set_queue}

abbrev pub is_known : ℕ → Kernel → Bool
is_known pid k = elim (state_of pid k) [ none ↦ false | some s ↦ true ]

-- `MTSQueue` has an entry of the process.
abbrev pub waits : ℕ → List Blocked → Bool
waits pid [] = false
waits pid (b ∷ bs) = if b.process == pid then true else waits pid bs

-- Some CPU has the process.
abbrev pub held : ℕ → List CpuConnection → Bool
held pid [] = false
held pid (c ∷ cs) = if holds c pid then true else held pid cs

pub record Tracked (k : Kernel) : Type 0 where
  pub numbered : (pid : ℕ) → is_known pid k ≡ ltb pid k.next_pid
  pub total : k.total_processes_created ≡ k.next_pid
  pub cpus : (pid : ℕ) → held pid k.available_cpus ≡ true → is_known pid k ≡ true
  pub waiting : (pid : ℕ) → waits pid k.mts_queue ≡ true → is_known pid k ≡ true

-- An operation on the queues, the processes or the devices only.
pub record Untouched (k k' : Kernel) : Type 0 where
  pub known : (pid : ℕ) → is_known pid k' ≡ is_known pid k
  pub next : k'.next_pid ≡ k.next_pid
  pub total : k'.total_processes_created ≡ k.total_processes_created
  pub cpus : k'.available_cpus ≡ k.available_cpus
  pub mts : k'.mts_queue ≡ k.mts_queue

pub Untouched-refl : (k : Kernel) → Untouched k k
Untouched-refl k = record {
  known = λ pid. refl;
  next = refl;
  total = refl;
  cpus = refl;
  mts = refl;
}

pub Untouched-trans : (k k' k'' : Kernel) → Untouched k k' → Untouched k' k'' → Untouched k k''
Untouched-trans k k' k'' u v = record {
  known = λ pid. v.known pid ∙ u.known pid;
  next = v.next ∙ u.next;
  total = v.total ∙ u.total;
  cpus = v.cpus ∙ u.cpus;
  mts = v.mts ∙ u.mts;
}

pub Untouched-Tracked : (k k' : Kernel) → Untouched k k' → Tracked k → Tracked k'
Untouched-Tracked k k' u t = record {
  numbered = λ pid. u.known pid ∙ t.numbered pid ∙ ap (ltb pid) (sym u.next);
  total = u.total ∙ t.total ∙ sym u.next;
  cpus = λ pid h. u.known pid ∙ t.cpus pid (ap (held pid) (sym u.cpus) ∙ h);
  waiting = λ pid h. u.known pid ∙ t.waiting pid (ap (waits pid) (sym u.mts) ∙ h);
}

-- What leaves the store alone knows the same processes.
pub same_store :
    (pid : ℕ) (k k' : Kernel) → k'.processes ≡ k.processes → is_known pid k' ≡ is_known pid k
unfolding state_of
same_store pid k k' e = rw e

with_process-known :
    (pid pid' : ℕ) (f : Process → Process) (k : Kernel)
    → ((p : Process) → pid_of (f p) ≡ pid_of p)
    → is_known pid' (with_process pid f k) ≡ is_known pid' k
unfolding state_of
with_process-known pid pid' f k h = elim (Option-cases (find_process pid' k.processes)) [
  | inl e ↦ ground (arith, find_process-update pid pid' f k.processes h)
  | inr (p, e) ↦ ground (arith, find_process-update pid pid' f k.processes h)
]

pub with_process-Untouched :
    (pid : ℕ) (f : Process → Process) (k : Kernel)
    → ((p : Process) → pid_of (f p) ≡ pid_of p)
    → Untouched k (with_process pid f k)
with_process-Untouched pid f k h = record {
  known = λ pid'. with_process-known pid pid' f k h;
  next = refl;
  total = refl;
  cpus = refl;
  mts = refl;
}

pub set_queue-Untouched : (s : State) (q : List ℕ) (k : Kernel) → Untouched k (set_queue s q k)
set_queue-Untouched s q k = record {
  known = λ pid. ap (λ o. elim o [ none ↦ false | some s ↦ true ]) (state_of-set_queue s pid q k);
  next = ground arith;
  total = ground arith;
  cpus = ground arith;
  mts = ground arith;
}

pub send-Untouched : (r : Request) (k : Kernel) → Untouched k (send r k)
send-Untouched r k = record {
  known = λ pid. same_store pid k _ refl;
  next = refl;
  total = refl;
  cpus = refl;
  mts = refl;
}

pub set_ios-Untouched :
    (ios : List IoConnection) (k : Kernel) → Untouched k (record k { available_ios = ios })
set_ios-Untouched ios k = record {
  known = λ pid. same_store pid k _ refl;
  next = refl;
  total = refl;
  cpus = refl;
  mts = refl;
}

pub enqueue-Untouched : (s : State) (now pid : ℕ) (k : Kernel) → Untouched k (enqueue s now pid k)
unfolding enqueue set_state
enqueue-Untouched s now pid k =
    Untouched-trans k _ _ (with_process-Untouched pid (set_process_state s now) k (λ p. refl))
      (set_queue-Untouched s _ _)

pub remove_by_pid-Untouched :
    (s : State) (pid : ℕ) (k : Kernel) → Untouched k (remove_by_pid s pid k).1
unfolding remove_by_pid
remove_by_pid-Untouched s pid k = elim (Bool-cases (contains_pid pid (get_queue s k))) [
  | inl e ↦ rw e (set_queue-Untouched s _ k)
  | inr e ↦ rw e (Untouched-refl k)
]

pub remove_from_state-Untouched : (pid : ℕ) (k : Kernel) → Untouched k (remove_from_state pid k).1
unfolding remove_from_state
remove_from_state-Untouched pid k = elim (Option-cases (state_of pid k)) [
  | inl e ↦ rw (e, remove_from_state) (Untouched-refl k)
  | inr (s, e) ↦ rw (e, remove_from_state) (remove_by_pid-Untouched s pid k)
]

pub terminate_process-Untouched : (pid : ℕ) (k : Kernel) → Untouched k (terminate_process pid k)
unfolding terminate_process
terminate_process-Untouched pid k = record {
  known = λ pid'. same_store pid' k _ (ground arith);
  next = ground arith;
  total = ground arith;
  cpus = ground arith;
  mts = ground arith;
}

pub end_process-Untouched : (pid now : ℕ) (k : Kernel) → Untouched k (end_process pid now k)
unfolding end_process
end_process-Untouched pid now k =
    Untouched-trans k _ _ (remove_from_state-Untouched pid k)
      (Untouched-trans _ _ _ (enqueue-Untouched _ now pid _) (terminate_process-Untouched pid _))

pub update_burst_estimation-Untouched :
    (pid now : ℕ) (k : Kernel) → Untouched k (update_burst_estimation pid now k)
unfolding update_burst_estimation
update_burst_estimation-Untouched pid now k = with_process-Untouched pid _ k (λ p. refl)

pub dequeue-Untouched :
    (sorter : SortSlice) (s : State) (by : SortBy) (k : Kernel)
    → Untouched k (dequeue sorter s by k).1
unfolding dequeue
dequeue-Untouched sorter s by k = set_queue-Untouched s _ k

pub search_queue-Untouched :
    (sorter : SortSlice) (s : State) (by : SortBy) (k : Kernel)
    → Untouched k (search_queue sorter s by k).1
unfolding search_queue
search_queue-Untouched sorter s by k = set_queue-Untouched s _ k

-- A list of CPUs whose processes the kernel knows.
pub set_cpus-Tracked :
    (cs : List CpuConnection) (k : Kernel)
    → Tracked k
    → ((pid : ℕ) → held pid cs ≡ true → is_known pid k ≡ true)
    → Tracked (record k { available_cpus = cs })
unfolding state_of
set_cpus-Tracked cs k t h = record {
  numbered = t.numbered;
  total = t.total;
  cpus = h;
  waiting = t.waiting;
}

pub set_mts-Tracked :
    (q : List Blocked) (k : Kernel)
    → Tracked k
    → ((pid : ℕ) → waits pid q ≡ true → is_known pid k ≡ true)
    → Tracked (record k { mts_queue = q })
unfolding state_of
set_mts-Tracked q k t h = record {
  numbered = t.numbered;
  total = t.total;
  cpus = t.cpus;
  waiting = h;
}

held-free_cpus :
    (pid pid' : ℕ) (cs : List CpuConnection)
    → held pid' (free_cpus pid cs) ≡ true
    → held pid' cs ≡ true
unfolding free_cpus
held-free_cpus pid pid' [] h = h
held-free_cpus pid pid' (c ∷ cs) h = ground (arith, held-free_cpus pid pid' cs)

pub free_cpu-Tracked : (pid : ℕ) (k : Kernel) → Tracked k → Tracked (free_cpu pid k)
unfolding free_cpu
free_cpu-Tracked pid k t =
    set_cpus-Tracked (free_cpus pid k.available_cpus) k t
      (λ pid' h. t.cpus pid' (held-free_cpus pid pid' k.available_cpus h))

held-assign_cpu :
    (id : Text) (o : Option ℕ) (pid : ℕ) (cs : List CpuConnection)
    → held pid (assign_cpu id o cs) ≡ true
    → (o ≡ some pid) ⊎ (held pid cs ≡ true)
unfolding assign_cpu
held-assign_cpu id o pid [] h = inr h
held-assign_cpu id none pid (c ∷ cs) h = ground (arith, held-assign_cpu id none pid cs)
held-assign_cpu id (some p) pid (c ∷ cs) h = ground (arith, held-assign_cpu id (some p) pid cs)

pub set_cpu-Tracked :
    (id : Text) (o : Option ℕ) (k : Kernel)
    → Tracked k
    → ((pid : ℕ) → o ≡ some pid → is_known pid k ≡ true)
    → Tracked (set_cpu id o k)
set_cpu-Tracked id o k t h = set_cpus-Tracked (assign_cpu id o k.available_cpus) k t (λ pid e.
    elim (held-assign_cpu id o pid k.available_cpus e) [
      | inl given ↦ h pid given
      | inr old ↦ t.cpus pid old
    ])

-- The process of the first CPU with an identifier.
pub held-process_of_cpu :
    (cpu : Text) (pid : ℕ) (cs : List CpuConnection)
    → process_of_cpu cpu cs ≡ some pid
    → held pid cs ≡ true
unfolding process_of_cpu
held-process_of_cpu cpu pid [] h = cc
held-process_of_cpu cpu pid (c ∷ cs) h = ground (arith, held-process_of_cpu cpu pid cs)

waits-remove :
    (pid pid' : ℕ) (q : List Blocked)
    → waits pid (remove_blocked_by_pid pid' q) ≡ true
    → waits pid q ≡ true
unfolding remove_blocked_by_pid
waits-remove pid pid' [] h = h
waits-remove pid pid' (b ∷ bs) h = ground (arith, waits-remove pid pid' bs)

pub remove_blocked-Tracked :
    (pid : ℕ) (k : Kernel)
    → Tracked k
    → Tracked (record k { mts_queue = remove_blocked_by_pid pid k.mts_queue })
remove_blocked-Tracked pid k t =
    set_mts-Tracked _ k t (λ pid' h. t.waiting pid' (waits-remove pid' pid k.mts_queue h))

-- The next PID is not in use.
pub next-unknown : (k : Kernel) → Tracked k → state_of k.next_pid k ≡ none
next-unknown k t = elim (Option-cases (state_of k.next_pid k)) [
  | inl e ↦ e
  | inr (s, e) ↦ absurd (ground (arith, t.numbered k.next_pid))
]
