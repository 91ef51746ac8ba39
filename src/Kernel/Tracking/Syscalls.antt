-- ===== src/Kernel/Tracking/Syscalls.antt =====
-- kernel/api/kernel_api.go: RecieveSyscall leaves the processes of the CPUs known.
use tp_ssoo_1c.Kernel.Placement.Syscalls.{argument-then}
use tp_ssoo_1c.Kernel.Tracking.Handlers.{
  syscall_io-Tracked, create_process-Tracked, syscall_dump_memory-Tracked, syscall_exit-Tracked,
}
use tp_ssoo_1c.Kernel.Shared.{set_pc, K, create_process}
use tp_ssoo_1c.Kernel.Tracking.{
  Tracked, is_known, with_process-Untouched, Untouched-Tracked, held-process_of_cpu,
}
use tp_ssoo_1c.Utils.Text.{Text, atoi_or_zero}
use tp_ssoo_1c.Kernel.Api.{recieve_syscall, argument, dispatch_syscall, process_of_cpu, syscall_io}
use tp_ssoo_1c.Kernel.State.{Kernel}
use tp_ssoo_1c.Utils.Codeutils.{Instruction, Opcode}
use tp_ssoo_1c.Prelude.{ℕ, ◌≡◌, refl, ◌∙◌, true, List, inl, inr, Option-cases}
use tp_ssoo_1c.Prelude.Int.{ℤ, pos, negsuc}
use tp_ssoo_1c.Prelude.Exec.{◌>>=◌, ◌>>◌, modify}

-- A process that is known, and stays so while arguments are read.
abbrev KnownTracked : ℕ → Kernel → Type 0
KnownTracked pid k = Tracked k × (is_known pid k ≡ true)

-- Two arguments, and what is done with them.
with_arguments-Tracked :
    (pid : ℕ) (args : List Text) (f : Text → Text → Kernel → Kernel)
    → ((a b : Text) (k : Kernel) → KnownTracked pid k → Tracked (f a b k))
    → (k : Kernel) → KnownTracked pid k
    → Tracked ((argument args 0 >>= λ a. argument args 1 >>= λ b. modify (f a b)) k).1
with_arguments-Tracked pid args f h k t =
    let run : Text → Text → K (Unit {0}) = λ a b. modify (f a b) in
    argument-then Tracked args 0 (λ a. argument args 1 >>= run a) k t.0
      (λ a. argument-then Tracked args 1 (run a) k t.0 (λ b. h a b k t))

dispatch_syscall-Tracked :
    (op : Opcode) (args : List Text) (pid now : ℕ) (k : Kernel)
    → KnownTracked pid k
    → Tracked (dispatch_syscall op args pid now k).1
dispatch_syscall-Tracked Opcode.io args pid now k t =
    with_arguments-Tracked pid args (λ device time. syscall_io pid device (atoi_or_zero time) now)
      (λ device time k t. syscall_io-Tracked pid device (atoi_or_zero time) now k t.0 t.1) k t
dispatch_syscall-Tracked Opcode.init_proc args pid now k t =
    with_arguments-Tracked pid args (λ path size. create_process path (atoi_or_zero size) now)
      (λ path size k t. create_process-Tracked path (atoi_or_zero size) now k t.0) k t
dispatch_syscall-Tracked Opcode.dump_memory args pid now k t =
    syscall_dump_memory-Tracked pid now k t.0 t.1
dispatch_syscall-Tracked Opcode.exit args pid now k t = syscall_exit-Tracked pid now k t.0
dispatch_syscall-Tracked Opcode.noop args pid now k t = t.0
dispatch_syscall-Tracked Opcode.write args pid now k t = t.0
dispatch_syscall-Tracked Opcode.read args pid now k t = t.0
dispatch_syscall-Tracked Opcode.goto args pid now k t = t.0

known_syscall-Tracked :
    (pid : ℕ) (pc : ℤ) (i : Instruction) (now : ℕ) (k : Kernel)
    → KnownTracked pid k
    → Tracked ((set_pc pid pc >> dispatch_syscall i.opcode i.args pid now) k).1
known_syscall-Tracked pid (negsuc n) i now k t = t.0
known_syscall-Tracked pid (pos pc) i now k t =
    let u =
      with_process-Untouched pid (λ p. record p { pcb = record (p.pcb) { pc = pc } }) k
        (λ p. refl) in
    dispatch_syscall-Tracked i.opcode i.args pid now _
      (Untouched-Tracked k _ u t.0, u.known pid ∙ t.1)

pub recieve_syscall-Tracked :
    (cpu : Text) (pc : ℤ) (i : Instruction) (now : ℕ) (k : Kernel)
    → Tracked k
    → Tracked (recieve_syscall cpu pc i now k).1
unfolding recieve_syscall
recieve_syscall-Tracked cpu pc i now k t =
    elim (Option-cases (process_of_cpu cpu k.available_cpus)) [
      | inl e ↦ rw (e, recieve_syscall, ◌>>=◌) t
      | inr (pid, e) ↦
          rw (e, recieve_syscall, ◌>>=◌)
            (known_syscall-Tracked pid pc i now k (t, t.cpus pid (held-process_of_cpu cpu pid _ e)))
    ]
