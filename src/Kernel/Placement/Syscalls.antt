-- ===== src/Kernel/Placement/Syscalls.antt =====
-- kernel/api/kernel_api.go: RecieveSyscall leaves every process in the queue of its state.
use tp_ssoo_1c.Prelude.{
  ℕ, ◌≡◌, refl, ap, ◌∙◌, List, none, some, arith, Option-cases, inl, inr, get_elem?,
}
use tp_ssoo_1c.Prelude.Int.{ℤ, pos, negsuc}
use tp_ssoo_1c.Prelude.Exec.{Outcome, ok, err, panic, ◌>>=◌, modify}
use tp_ssoo_1c.Utils.Text.{Text, atoi_or_zero}
use tp_ssoo_1c.Utils.Codeutils.{Opcode, Instruction}
use tp_ssoo_1c.Kernel.Pcb.{State, exit}
use tp_ssoo_1c.Kernel.State.{Kernel, with_process}
use tp_ssoo_1c.Kernel.Queues.{enqueue, remove_by_pid}
use tp_ssoo_1c.Kernel.Shared.{
  Status, K, state_of, remove_from_state, create_process, free_cpu, terminate_process,
}
use tp_ssoo_1c.Kernel.Api.{
  syscall_io, argument, syscall_exit, dispatch_syscall, process_of_cpu, recieve_syscall,
}
use tp_ssoo_1c.Kernel.Placement.{Consistent, Keeps}
use tp_ssoo_1c.Kernel.Placement.Moves.{with_process-Keeps, Keeps-Consistent, Keeps-trans}
use tp_ssoo_1c.Kernel.Placement.Handlers.{
  free_cpu-Keeps, terminate_process-Keeps, syscall_io-Consistent, syscall_dump_memory-Consistent,
}
use tp_ssoo_1c.Kernel.Placement.Removals.{remove_from_state-cases, arrive, Keeps-refl}
use tp_ssoo_1c.Kernel.Placement.Creation.{create_process-Consistent}

argument-none :
    (args : List Text) (i : ℕ) (k : Kernel)
    → get_elem? args i ≡ none
    → argument args i k ≡ (panic, k)
argument-none args i k e = rw (e, argument)

argument-some :
    (args : List Text) (i : ℕ) (a : Text) (k : Kernel)
    → get_elem? args i ≡ some a
    → argument args i k ≡ (ok a, k)
argument-some args i a k e = rw (e, argument)

after_bind :
    (Text → K (Unit {0})) → Outcome Status Text × Kernel → Outcome Status (Unit {0}) × Kernel
after_bind f r = elim r.0 [ ok a ↦ f a r.1 | err e ↦ (err e, r.1) | panic ↦ (panic, r.1) ]

bind_run :
    (m : K Text) (f : Text → K (Unit {0})) (k : Kernel) (r : Outcome Status Text × Kernel)
    → m k ≡ r
    → (m >>= f) k ≡ after_bind f r
unfolding after_bind
bind_run m f k r e = ap (after_bind f) e

-- A missing argument panics before the rest runs.
pub argument-then :
    (P : Kernel → Type 0) (args : List Text) (i : ℕ) (f : Text → K (Unit {0})) (k : Kernel)
    → P k
    → ((a : Text) → P (f a k).1)
    → P ((argument args i >>= f) k).1
unfolding after_bind
argument-then P args i f k c h = elim (Option-cases (get_elem? args i)) [
  | inl e ↦ rw (bind_run (argument args i) f k (panic, k) (argument-none args i k e)) c
  | inr (a, e) ↦ rw (bind_run (argument args i) f k (ok a, k) (argument-some args i a k e)) (h a)
]

exit_absent :
    (pid now : ℕ) (k : Kernel)
    → remove_from_state pid k ≡ (none, k)
    → (syscall_exit pid now k).1 ≡ k
exit_absent pid now k e = ground arith

exit_found :
    (s : State) (pid now : ℕ) (k : Kernel)
    → remove_from_state pid k ≡ remove_by_pid s pid k
    → (remove_by_pid s pid k).0 ≡ some pid
    → (syscall_exit pid now k).1
      ≡ free_cpu pid (terminate_process pid (enqueue exit now pid (remove_by_pid s pid k).1))
exit_found s pid now k e h = rw (e, ◌>>=◌) (ground arith)

syscall_exit-Consistent :
    (pid now : ℕ) (k : Kernel) → Consistent k → Consistent (syscall_exit pid now k).1
syscall_exit-Consistent pid now k c = elim (remove_from_state-cases pid k c) [
  | inl e ↦ rw (exit_absent pid now k e) c
  | inr (s, e, f) ↦ rw (exit_found s pid now k e f.returned) (
      Keeps-Consistent _ _
        (Keeps-trans _ _ _ (terminate_process-Keeps pid _) (free_cpu-Keeps pid _))
        (arrive s exit pid now k _ f (Keeps-refl _)))
]

dispatch_syscall-Consistent :
    (s : State) (op : Opcode) (args : List Text) (pid now : ℕ) (k : Kernel)
    → Consistent k
    → state_of pid k ≡ some s
    → state_of k.next_pid k ≡ none
    → Consistent (dispatch_syscall op args pid now k).1
dispatch_syscall-Consistent s Opcode.io args pid now k c e fresh =
    let run : Text → Text → K (Unit {0}) =
      λ device time. modify (syscall_io pid device (atoi_or_zero time) now) in
    argument-then Consistent args 0 (λ device. argument args 1 >>= run device) k c
      (λ device.
        argument-then Consistent args 1 (run device) k c
          (λ time. syscall_io-Consistent s pid device (atoi_or_zero time) now k c e))
dispatch_syscall-Consistent s Opcode.init_proc args pid now k c e fresh =
    let run : Text → Text → K (Unit {0}) =
      λ path size. modify (create_process path (atoi_or_zero size) now) in
    argument-then Consistent args 0 (λ path. argument args 1 >>= run path) k c
      (λ path.
        argument-then Consistent args 1 (run path) k c
          (λ size. create_process-Consistent path (atoi_or_zero size) now k c fresh))
dispatch_syscall-Consistent s Opcode.dump_memory args pid now k c e fresh =
    syscall_dump_memory-Consistent s pid now k c e
dispatch_syscall-Consistent s Opcode.exit args pid now k c e fresh =
    syscall_exit-Consistent pid now k c
dispatch_syscall-Consistent s Opcode.noop args pid now k c e fresh = c
dispatch_syscall-Consistent s Opcode.write args pid now k c e fresh = c
dispatch_syscall-Consistent s Opcode.read args pid now k c e fresh = c
dispatch_syscall-Consistent s Opcode.goto args pid now k c e fresh = c

counted : ℕ → ℕ → Kernel → Kernel
counted pid pc k = with_process pid (λ p. record p { pcb = record (p.pcb) { pc = pc } }) k

syscall_unknown :
    (cpu : Text) (pc : ℤ) (i : Instruction) (now : ℕ) (k : Kernel)
    → process_of_cpu cpu k.available_cpus ≡ none
    → (recieve_syscall cpu pc i now k).1 ≡ k
unfolding recieve_syscall
syscall_unknown cpu pc i now k e = rw (e, recieve_syscall, ◌>>=◌)

syscall_negative :
    (cpu : Text) (pid n : ℕ) (i : Instruction) (now : ℕ) (k : Kernel)
    → process_of_cpu cpu k.available_cpus ≡ some pid
    → (recieve_syscall cpu (negsuc n) i now k).1 ≡ k
unfolding recieve_syscall
syscall_negative cpu pid n i now k e = rw (e, recieve_syscall, ◌>>=◌)

syscall_known :
    (cpu : Text) (pid pc : ℕ) (i : Instruction) (now : ℕ) (k : Kernel)
    → process_of_cpu cpu k.available_cpus ≡ some pid
    → (recieve_syscall cpu (pos pc) i now k).1
      ≡ (dispatch_syscall i.opcode i.args pid now (counted pid pc k)).1
unfolding recieve_syscall counted
syscall_known cpu pid pc i now k e = rw (e, recieve_syscall, ◌>>=◌)

counted-Keeps : (pid pc : ℕ) (k : Kernel) → Keeps k (counted pid pc k)
unfolding counted
counted-Keeps pid pc k = with_process-Keeps pid _ k (λ p. refl) (λ p. refl)

-- The process of a CPU is in the store.
abbrev pub CpusKnown : Kernel → Type 0
CpusKnown k =
    (cpu : Text) (pid : ℕ)
    → process_of_cpu cpu k.available_cpus ≡ some pid
    → (s : State) × (state_of pid k ≡ some s)

known-Consistent :
    (cpu : Text) (pid : ℕ) (pc : ℤ) (i : Instruction) (now : ℕ) (k : Kernel)
    → Consistent k
    → CpusKnown k
    → state_of k.next_pid k ≡ none
    → process_of_cpu cpu k.available_cpus ≡ some pid
    → Consistent (recieve_syscall cpu pc i now k).1
unfolding counted
known-Consistent cpu pid (negsuc n) i now k c known fresh e =
    rw (syscall_negative cpu pid n i now k e) c
known-Consistent cpu pid (pos pc) i now k c known fresh e =
    let (s, of_pid) = known cpu pid e in
    let keeps = counted-Keeps pid pc k in
    rw (syscall_known cpu pid pc i now k e) (
      dispatch_syscall-Consistent s i.opcode i.args pid now (counted pid pc k)
        (Keeps-Consistent k _ keeps c) (keeps.states pid ∙ of_pid)
        (keeps.states k.next_pid ∙ fresh))

-- If every process stands once in the queue of its state and nowhere else, every process that a
-- CPU has is known to the kernel and the next PID is not in use, then every process stands once
-- in the queue of its state and nowhere else after a syscall, whichever it is, whatever its
-- arguments are and whichever CPU sends it, also where it is refused or panics.
pub recieve_syscall-Consistent :
    (cpu : Text) (pc : ℤ) (i : Instruction) (now : ℕ) (k : Kernel)
    → Consistent k
    → CpusKnown k
    → state_of k.next_pid k ≡ none
    → Consistent (recieve_syscall cpu pc i now k).1
recieve_syscall-Consistent cpu pc i now k c known fresh =
    elim (Option-cases (process_of_cpu cpu k.available_cpus)) [
      | inl e ↦ rw (syscall_unknown cpu pc i now k e) c
      | inr (pid, e) ↦ known-Consistent cpu pid pc i now k c known fresh e
    ]
