-- ===== src/Cpu/Cycle.antt =====
-- cpu/cpu.go: an iteration of the instruction cycle, and what the kernel sends to a CPU. What the
-- kernel and the memory server do with a request is a parameter.
pub mod Signals
use tp_ssoo_1c.Prelude.{
  ℕ, suc, ◌/◌, ◌%◌, Bool, true, false, ◌&&◌, ◌||◌, not, Option, none, some, ◌==◌, if◌then◌else◌,
  get_elem?, replicate,
}
use tp_ssoo_1c.Prelude.Int.{ℤ, pos, negsuc, ◌+ℤ◌, sub_ℕ}
use tp_ssoo_1c.Prelude.Exec.{◌>>=◌, ◌>>◌, return, throw, crash, get_state, modify, crash_if}
use tp_ssoo_1c.Utils.Text.{Text, atoi, atoi_or_zero}
use tp_ssoo_1c.Utils.Codeutils.{Opcode, Instruction}
use tp_ssoo_1c.Cpu.Address.{page_digits}
use tp_ssoo_1c.Cpu.Machine.{Server, LogicAddr, Machine, blocked, C, request, end_process}
use tp_ssoo_1c.Cpu.Slices.{send_exit}
use tp_ssoo_1c.Cpu.Reads.{read_memory}
use tp_ssoo_1c.Cpu.Writes.{write_memory}

-- Why the process leaves the CPU, as `sendResults` writes it.
pub data Motive : Type 0 where
  interrupt_motive exit_motive : Motive

-- Everything outside the CPU. `fetch` asks memory for an instruction; `syscall` is whether the
-- kernel answered OK; `prefer_interrupt` is the choice of a `select` that finds both signals.
pub record World (S : Type 0) : Type 0 where
  pub server : Server S
  pub fetch : ℕ → ℤ → S → Option Instruction × S
  pub syscall : ℕ → ℤ → Instruction → S → Bool × S
  pub results : ℕ → ℤ → Motive → S → S
  pub prefer_interrupt : S → Bool

-- Whether the cycle goes on.
pub data Turn : Type 0 where
  again stopped : Turn

-- The answers of `interrupt`.
pub data Reply : Type 0 where
  accepted bad_request : Reply

-- `FromIntToLogicalAddres`: division by a page size of zero, and a page number above zero with no
-- level, panic; a negative address has the first page and a negative offset.
unfoldable pub logical_address : {S : Type 0} → ℤ → C S LogicAddr
unfolding page_digits
logical_address (pos a) = do
  m ← get_state
  let c = m.memory_conf
  crash_if (c.page_size == 0)
  crash_if (c.levels == 0 && not (a / c.page_size == 0))
  return (record { page = page_digits c (a / c.page_size); delta = pos (a % c.page_size) })
logical_address (negsuc n) = do
  m ← get_state
  let c = m.memory_conf
  crash_if (c.page_size == 0)
  return (record { page = replicate c.levels 0; delta = sub_ℕ 0 (suc n % c.page_size) })

-- `instruction.Args[i]`
abbrev argument : {S : Type 0} → ℕ → C S Text
argument i = do
  m ← get_state
  elim (get_elem? m.instruction.args i) [ none ↦ crash | some a ↦ return a ]

abbrev set_addr : {S : Type 0} → Text → C S (Unit {0})
set_addr text = do a ← logical_address (atoi_or_zero text); modify (λ m. record m { addr = a })

abbrev set_arg1 : {S : Type 0} → ℤ → C S (Unit {0})
set_arg1 n = modify (λ m. record m { arg1 = n })

-- `asign`, by the opcode of the instruction.
unfoldable pub assign : {S : Type 0} → Opcode → C S (Unit {0})
unfolding logical_address
assign Opcode.noop = return tt
assign Opcode.write = do
  address ← argument 0
  set_addr address
  text ← argument 1
  modify (λ m. record m { value = text })
assign Opcode.read = do
  address ← argument 0
  set_addr address
  size ← argument 1
  set_arg1 (atoi_or_zero size)
assign Opcode.goto = do target ← argument 0; set_arg1 (atoi_or_zero target)
assign Opcode.io = do time ← argument 1; device ← argument 0; set_arg1 (atoi_or_zero time)
assign Opcode.init_proc = do size ← argument 1; path ← argument 0; set_arg1 (atoi_or_zero size)
assign Opcode.exit = return tt
assign Opcode.dump_memory = return tt

abbrev add_pc : {S : Type 0} → C S (Unit {0})
add_pc = modify (λ m. record m { pc = m.pc +ℤ pos 1 })

module _ {S : Type 0} (w : World S) where
  -- `sendSyscall`, and whether the kernel answered OK.
  abbrev pub send_syscall : C S Bool
  send_syscall = do m ← get_state; request w.server (w.syscall m.pid m.pc m.instruction)

  -- `sendIO` and `dumpMemory`: the status is -1 whatever the kernel answers.
  unfoldable pub leave_cpu : C S Bool
  unfolding end_process
  leave_cpu = do
    add_pc
    m ← get_state
    end_process w.server m.pid
    answered ← send_syscall
    return false

  -- `DeleteProcess`
  unfoldable pub delete_process : C S Bool
  unfolding end_process
  delete_process = do m ← get_state; end_process w.server m.pid; send_exit w.server; return true

  -- `exec`: false is the status -1. The program counter moves after a read and a write whatever
  -- their status.
  unfoldable pub exec : Opcode → C S Bool
  unfolding write_memory read_memory leave_cpu delete_process ◌+ℤ◌
  exec Opcode.noop = do add_pc; return true
  exec Opcode.write = do
    m ← get_state
    status ← write_memory w.server m.addr m.value
    add_pc
    return status
  exec Opcode.read = do
    m ← get_state
    content ← read_memory w.server m.addr m.arg1
    add_pc
    return (elim content [ none ↦ false | some bytes ↦ true ])
  exec Opcode.goto = do modify (λ m. record m { pc = m.arg1 }); return true
  exec Opcode.io = leave_cpu
  exec Opcode.init_proc = do status ← send_syscall; add_pc; return status
  exec Opcode.dump_memory = leave_cpu
  exec Opcode.exit = delete_process

  -- `sendResults`
  abbrev pub send_results : Motive → C S (Unit {0})
  send_results motive = modify (λ m. record m { server = w.results m.pid m.pc motive m.server })

  abbrev pub stop_interrupted : C S Turn
  stop_interrupted = do
    modify (λ m. record m { interrupt_chan = false })
    send_results interrupt_motive
    return stopped

  abbrev pub stop_exited : C S Turn
  stop_exited = do
    modify (λ m. record m { exit_chan = false })
    send_results exit_motive
    return stopped

  -- The `select` of `ciclo` and the test of the status below it.
  unfoldable pub select_signal : Bool → C S Turn
  select_signal status = do
    m ← get_state
    if m.interrupt_chan && (not m.exit_chan || w.prefer_interrupt m.server)
        then stop_interrupted
        else if m.exit_chan
        then stop_exited
        else return (if status then again else stopped)

  -- Decoding and execution of the instruction that was fetched, and the signals.
  unfoldable pub run_instruction : C S Turn
  unfolding assign exec select_signal
  run_instruction = do
    m ← get_state
    assign m.instruction.opcode
    status ← exec m.instruction.opcode
    select_signal status

  -- An iteration of `ciclo`: a fetch that fails is tried again.
  unfoldable pub cycle_step : C S Turn
  unfolding run_instruction
  cycle_step = do
    m ← get_state
    fetched ← request w.server (w.fetch m.pid m.pc)
    elim fetched [
      | none ↦ return again
      | some i ↦ do modify (λ m. record m { instruction = i }); run_instruction
    ]

-- `receivePIDPC`: the kernel dispatches a process.
unfoldable pub receive_pid_pc : {S : Type 0} → ℕ → ℤ → Machine S → Machine S
receive_pid_pc pid pc m = record m { pid = pid; pc = pc }

abbrev signal_interrupt : {S : Type 0} → C S Reply
signal_interrupt = do
  m ← get_state
  if m.interrupt_chan
      then throw blocked
      else (do modify (λ m. record m { interrupt_chan = true }); return accepted)

abbrev is_pid : ℤ → ℕ → Bool
is_pid (pos n) pid = n == pid
is_pid (negsuc n) pid = false

-- `interrupt` up to its wait for the end of the instruction.
unfoldable pub interrupt : {S : Type 0} → Text → C S Reply
interrupt text = do
  m ← get_state
  elim (atoi text) [
    | none ↦ return bad_request
    | some n ↦ if is_pid n m.pid then signal_interrupt else return bad_request
  ]
