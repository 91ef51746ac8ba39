-- ===== src/Kernel/Placement/Creation.antt =====
-- kernel/shared/process_shared.go: CreateProcess puts a process into NEW.
use tp_ssoo_1c.Prelude.{
  ℕ, ◌≡◌, ◌≢◌, refl, ap, sym, ◌∙◌, List, [], ◌∷◌, ◌++◌, none, some, ◌==◌, if◌then◌else◌, count,
  arith,
}
use tp_ssoo_1c.Prelude.Int.{ℤ}
use tp_ssoo_1c.Utils.Text.{Text}
use tp_ssoo_1c.Kernel.Pcb.{State, new, create, set_state}
use tp_ssoo_1c.Kernel.State.{Kernel, Process, find_process, pid_of}
use tp_ssoo_1c.Kernel.Queues.{get_queue}
use tp_ssoo_1c.Kernel.Shared.{state_of, new_process, add_process, create_process}
use tp_ssoo_1c.Kernel.Placement.{expected, Consistent, Pending}
use tp_ssoo_1c.Kernel.Placement.Moves.{enqueue-Consistent}

pub find_process-append :
    (pid : ℕ) (p : Process) (ps : List Process)
    → find_process pid (ps ++ (p ∷ [])) ≡ elim (find_process pid ps) [
      | none ↦ if pid_of p == pid then some p else none
      | some q ↦ some q
    ]
unfolding find_process
find_process-append pid p [] = ground arith
find_process-append pid p (q ∷ ps) = ground (arith, find_process-append pid p ps)

pub new_process-pid :
    (pid : ℕ) (path : Text) (size : ℤ) (now : ℕ) (k : Kernel)
    → pid_of (new_process pid path size now k) ≡ pid
unfolding new_process create set_state
new_process-pid pid path size now k = refl

state_of-added :
    (path : Text) (size : ℤ) (now pid : ℕ) (k : Kernel)
    → pid ≢ k.next_pid
    → state_of pid (add_process path size now k) ≡ state_of pid k
unfolding state_of
state_of-added path size now pid k h =
    let p = new_process k.next_pid path size now k in
    ground
      (arith, find_process-append pid p k.processes, new_process-pid k.next_pid path size now k)

added-state :
    (path : Text) (size : ℤ) (now : ℕ) (k : Kernel)
    → state_of k.next_pid k ≡ none
    → (s : State) × (state_of k.next_pid (add_process path size now k) ≡ some s)
unfolding state_of
added-state path size now k e =
    let p = new_process k.next_pid path size now k in
    (
      p.pcb.state,
      ground (
        arith,
        find_process-append k.next_pid p k.processes,
        new_process-pid k.next_pid path size now k,
      ),
    )

added-Pending :
    (path : Text) (size : ℤ) (now : ℕ) (k : Kernel)
    → Consistent k
    → state_of k.next_pid k ≡ none
    → Pending k.next_pid (add_process path size now k)
added-Pending path size now k c e = record {
  nowhere = λ t. ap (count k.next_pid) (same_queue t) ∙ c k.next_pid t ∙ ap (λ o. expected o t) e;
  others = λ pid t ne.
      ap (count pid) (same_queue t)
      ∙ c pid t
      ∙ ap (λ o. expected o t) (sym (state_of-added path size now pid k ne));
}
  where
    same_queue : (t : State) → get_queue t (add_process path size now k) ≡ get_queue t k
    same_queue t = ground arith

-- If every process stands once in the queue of its state and nowhere else, and the next PID is
-- not in use, the same holds after a process is created.
pub create_process-Consistent :
    (path : Text) (size : ℤ) (now : ℕ) (k : Kernel)
    → Consistent k
    → state_of k.next_pid k ≡ none
    → Consistent (create_process path size now k)
unfolding create_process
create_process-Consistent path size now k c e =
    let (s, known) = added-state path size now k e in
    enqueue-Consistent new s now k.next_pid _ (added-Pending path size now k c e) known
