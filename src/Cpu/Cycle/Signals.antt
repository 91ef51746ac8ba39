-- ===== src/Cpu/Cycle/Signals.antt =====
-- cpu/cpu.go: the signals that end the instruction cycle, and the instructions that leave the CPU.
use tp_ssoo_1c.Prelude.{
  ℕ, zero, suc, ◌+◌, ◌-◌, ◌≡◌, refl, ap, ◌∙◌, Bool, true, false, List, [], ◌∷◌, arith,
  if◌then◌else◌,
}
use tp_ssoo_1c.Prelude.Exec.{ok, ◌>>=◌, return}
use tp_ssoo_1c.Utils.Codeutils.{Opcode}
use tp_ssoo_1c.Cpu.Cache.{CacheEntry, is_owner}
use tp_ssoo_1c.Cpu.Slices.{send_exit}
use tp_ssoo_1c.Prelude.Exec.{throw, modify}
use tp_ssoo_1c.Prelude.Int.{pos, ◌+ℤ◌}
use tp_ssoo_1c.Cpu.Cycle.{send_syscall}
use tp_ssoo_1c.Cpu.Machine.{
  blocked, free_entry, keep_entry, Machine, Server, end_entries, end_process,
}
use tp_ssoo_1c.Cpu.Cycle.{
  World, Turn, again, stopped, select_signal, run_instruction, exec, assign, leave_cpu,
  delete_process,
}

abbrev one_if : Bool → ℕ
one_if true = 1
one_if false = 0

-- The signals that wait in the two channels.
abbrev pub pending : {S : Type 0} → Machine S → ℕ
pending m = one_if m.exit_chan + one_if m.interrupt_chan

abbrev pub next_turn : ℕ → Bool → Turn
next_turn zero status = if status then again else stopped
next_turn (suc n) status = stopped

module _ {S : Type 0} (w : World S) where
  -- After an instruction the cycle goes on only where no signal waits and the status is not -1,
  -- and it takes just one of the signals that wait, if there are any.
  pub select_signal-pending :
      (status : Bool) (m : Machine S)
      → ((select_signal w status m).0 ≡ ok (next_turn (pending m) status))
        × (pending (select_signal w status m).1 ≡ pending m - 1)
  unfolding select_signal
  select_signal-pending status m = ground arith

  -- No entry of the cache is the process's own.
  abbrev pub Foreign : ℕ → List CacheEntry → Type 0
  Foreign pid [] = Unit {0}
  Foreign pid (e ∷ es) = (is_owner e.pid pid ≡ false) × Foreign pid es

  end_entries-Foreign :
      (srv : Server S) (pid : ℕ) (es : List CacheEntry) (m : Machine S)
      → Foreign pid es
      → end_entries srv pid es m ≡ (ok es, m)
  unfolding end_entries
  end_entries-Foreign srv pid [] m h = refl
  end_entries-Foreign srv pid (e ∷ es) m h =
      ap
        (λ b.
          (if b
              then free_entry srv e pid (end_entries srv pid es)
              else keep_entry srv e (end_entries srv pid es))
            m)
        h.0
      ∙ ap (λ r. ◌>>=◌ (λ u. r) (λ es. return (e ∷ es)) m) (end_entries-Foreign srv pid es m h.1)

  end_process-Foreign :
      (srv : Server S) (m : Machine S)
      → Foreign m.pid m.entries
      → end_process srv m.pid m ≡ (ok tt, m)
  unfolding end_process
  end_process-Foreign srv m h =
      ap (λ r. ◌>>=◌ (λ u. r) (λ es. modify (λ m. record m { entries = es })) m)
        (end_entries-Foreign srv m.pid m.entries m h)

  exit_run :
      (m : Machine S)
      → m.exit_chan ≡ false
      → Foreign m.pid m.entries
      → delete_process w m ≡ (ok true, record m { exit_chan = true })
  unfolding delete_process
  exit_run m e h =
      ap (λ r. ◌>>=◌ (λ u. r) (λ u. send_exit w.server >>= λ u. return true) m)
        (end_process-Foreign w.server m h)
      ∙ ap
          (λ b.
            ((if b then throw blocked else modify (λ m. record m { exit_chan = true })) >>= λ u.
            return true)
              m)
          e

  exit_turn :
      (m : Machine S)
      → m.instruction.opcode ≡ Opcode.exit
      → m.exit_chan ≡ false
      → Foreign m.pid m.entries
      → run_instruction w m ≡ select_signal w true (record m { exit_chan = true })
  unfolding run_instruction exec assign
  exit_turn m op e h =
      ap (λ (o : Opcode). (assign o >>= λ u. exec w o >>= select_signal w) m) op
      ∙ ap (λ r. ◌>>=◌ (λ u. r) (select_signal w) m) (exit_run m e h)

  -- A process that runs EXIT leaves its CPU, if no exit signal waits and no entry of the cache
  -- is its own; an interruption that waits is one signal that is left then.
  pub exit-stopped :
      (m : Machine S)
      → m.instruction.opcode ≡ Opcode.exit
      → m.exit_chan ≡ false
      → Foreign m.pid m.entries
      → ((run_instruction w m).0 ≡ ok stopped)
        × (pending (run_instruction w m).1 ≡ one_if m.interrupt_chan)
  exit-stopped m op e h =
      let s = select_signal-pending true (record m { exit_chan = true }) in
      let one : pending (record m { exit_chan = true }) ≡ suc (one_if m.interrupt_chan) =
        omega arith in
      rw (exit_turn m op e h) (
        s.0 ∙ ap (λ (n : ℕ). ok (next_turn n true)) one,
        s.1 ∙ ap (λ (n : ℕ). n - 1) one ∙ omega arith,
      )

  abbrev left : Machine S → Machine S
  left m = record m {
    pc = m.pc +ℤ pos 1;
    server = (w.syscall m.pid (m.pc +ℤ pos 1) m.instruction m.server).1;
  }

  leave_run : (m : Machine S) → Foreign m.pid m.entries → leave_cpu w m ≡ (ok false, left m)
  unfolding leave_cpu
  leave_run m h =
      ap
        (λ r.
          ◌>>=◌ (λ u. r) (λ u. send_syscall w >>= λ answered. return false)
            (record m { pc = m.pc +ℤ pos 1 }))
        (end_process-Foreign w.server (record m { pc = m.pc +ℤ pos 1 }) h)

  dump_turn :
      (m : Machine S)
      → m.instruction.opcode ≡ Opcode.dump_memory
      → Foreign m.pid m.entries
      → run_instruction w m ≡ select_signal w false (left m)
  unfolding run_instruction exec assign
  dump_turn m op h =
      ap (λ (o : Opcode). (assign o >>= λ u. exec w o >>= select_signal w) m) op
      ∙ ap (λ r. ◌>>=◌ (λ u. r) (select_signal w) m) (leave_run m h)

  next_turn-false : (n : ℕ) → next_turn n false ≡ stopped
  next_turn-false zero = refl
  next_turn-false (suc n) = refl

  -- A process that runs DUMP_MEMORY leaves its CPU, whatever the kernel answers, if no entry of
  -- the cache is its own, and one of the signals that wait is taken, if there are any.
  pub dump_memory-stopped :
      (m : Machine S)
      → m.instruction.opcode ≡ Opcode.dump_memory
      → Foreign m.pid m.entries
      → ((run_instruction w m).0 ≡ ok stopped) × (pending (run_instruction w m).1 ≡ pending m - 1)
  dump_memory-stopped m op h =
      let s = select_signal-pending false (left m) in
      rw (dump_turn m op h) (s.0 ∙ ap ok (next_turn-false (pending m)), s.1)
