-- ===== src/Kernel/Api.antt =====
-- kernel/api/kernel_api.go: the handlers of what a CPU reports, a syscall or the reason for which it
-- stopped, and the outcome of a memory dump. `now` is the time of the call.
use tp_ssoo_1c.Prelude.{
  ℕ, Bool, true, false, ◌&&◌, List, [], ◌∷◌, ◌++◌, Option, none, some, if◌then◌else◌, get_elem?,
}
use tp_ssoo_1c.Prelude.Int.{ℤ, pos}
use tp_ssoo_1c.Prelude.Exec.{◌>>=◌, ◌>>◌, return, throw, crash, get_state, modify}
use tp_ssoo_1c.Utils.Text.{Text, text_eq, atoi_or_zero}
use tp_ssoo_1c.Utils.Codeutils.{Instruction, Opcode}
use tp_ssoo_1c.Kernel.Pcb.{exit, ready, exec, blocked}
use tp_ssoo_1c.Kernel.State.{
  Kernel, CpuConnection, IoConnection, Blocked, start_io, dump, suspend, unsuspend, send,
  with_process, update_burst_estimation, remove_blocked_by_pid,
}
use tp_ssoo_1c.Kernel.Queues.{enqueue, remove_by_pid}
use tp_ssoo_1c.Kernel.Shared.{
  bad_request, K, lift, free_cpu, create_process, terminate_process, remove_from_state, end_process,
  set_pc,
}

-- `ReceiveCPU`: a known identifier is answered with a conflict, but the CPU is added all the same.
unfoldable pub receive_cpu : Text → Text → ℤ → Kernel → Kernel
receive_cpu id ip port k = record k {
  available_cpus =
      k.available_cpus ++ (record { id = id; ip = ip; port = port; process = none } ∷ []);
}

-- The reasons that `ReceivePidPcReason` lets through; `nothing` is the empty text.
pub data Reason : Type 0 where
  interrupted exited nothing : Reason

abbrev pub reason_action : Reason → ℕ → ℕ → Kernel → Kernel
reason_action interrupted pid now k = enqueue ready now pid k
reason_action exited pid now k = terminate_process pid (enqueue exit now pid k)
reason_action nothing pid now k = k

unfoldable pub handle_reason : ℕ → ℤ → Reason → ℕ → K (Unit {0})
handle_reason pid pc reason now = do
  removed ← lift (remove_by_pid exec pid)
  elim removed [
    | none ↦ return tt
    | some p ↦ do
      set_pc pid pc
      modify (free_cpu pid)
      modify (update_burst_estimation pid now)
      modify (reason_action reason pid now)
  ]

-- The loop over `AvailableCPUs`: the process of the first CPU with the identifier.
unfoldable pub process_of_cpu : Text → List CpuConnection → Option ℕ
process_of_cpu id [] = none
process_of_cpu id (c ∷ cs) = if text_eq (c.id) id then c.process else process_of_cpu id cs

-- Whether some instance of the device is connected.
unfoldable pub has_device : Text → List IoConnection → Bool
has_device device [] = false
has_device device (io ∷ ios) = if text_eq (io.name) device then true else has_device device ios

-- Whether an instance of the device is free, and the connections with the first such one taken.
unfoldable pub take_io : Text → List IoConnection → Bool × List IoConnection
take_io device [] = (false, [])
take_io device (io ∷ ios) =
    let rest = take_io device ios in
    if text_eq (io.name) device && io.disp
    then (true, record io { disp = false } ∷ ios)
    else (rest.0, io ∷ rest.1)

abbrev pub create_blocked : ℕ → Text → ℤ → Bool → Blocked
create_blocked pid name time working = record {
  process = pid;
  name = name;
  time = time;
  working = working;
  dump_memory = false;
}

-- `CreateBlocked`, which resets the timer, and the append to `MTSQueue`.
unfoldable pub add_blocked : ℕ → Text → ℤ → Bool → Kernel → Kernel
add_blocked pid name time working k =
    let k' = with_process pid (λ p. record p { timer_running = false }) k in
    record k' { mts_queue = k'.mts_queue ++ (create_blocked pid name time working ∷ []) }

-- Out of the queue of its state, off its CPU, with a new estimate, into BLOCKED.
unfoldable pub block_process : ℕ → ℕ → Kernel → Kernel
block_process pid now k =
    enqueue blocked now pid
      (update_burst_estimation pid now (free_cpu pid (remove_from_state pid k).1))

abbrev pub set_ios : List IoConnection → Kernel → Kernel
set_ios ios k = record k { available_ios = ios }

-- The IO syscall.
unfoldable pub syscall_io : ℕ → Text → ℤ → ℕ → Kernel → Kernel
syscall_io pid device time now k =
    let (found, ios) = take_io device k.available_ios in
    let k' = add_blocked pid device time found (block_process pid now (set_ios ios k)) in
    if has_device device k.available_ios
    then (if found then send (start_io device pid time) k' else k')
    else end_process pid now k

-- The DUMP_MEMORY syscall up to the request, which runs on its own.
unfoldable pub syscall_dump_memory : ℕ → ℕ → Kernel → Kernel
syscall_dump_memory pid now k =
    send (dump pid) (add_blocked pid [] (pos 0) true (block_process pid now k))

-- The EXIT syscall: here the CPU is freed last. A process that is in no queue panics.
abbrev pub syscall_exit : ℕ → ℕ → K (Unit {0})
syscall_exit pid now = do
  removed ← lift (remove_from_state pid)
  elim removed [
    | none ↦ crash
    | some p ↦ modify (λ k. free_cpu pid (terminate_process pid (enqueue exit now pid k)))
  ]

-- `instruction.Args[i]`
abbrev pub argument : List Text → ℕ → K Text
argument args i = elim (get_elem? args i) [ none ↦ crash | some a ↦ return a ]

-- The switch over the opcode.
abbrev pub dispatch_syscall : Opcode → List Text → ℕ → ℕ → K (Unit {0})
dispatch_syscall Opcode.io args pid now = do
  device ← argument args 0
  time ← argument args 1
  modify (syscall_io pid device (atoi_or_zero time) now)
dispatch_syscall Opcode.init_proc args pid now = do
  path ← argument args 0
  size ← argument args 1
  modify (create_process path (atoi_or_zero size) now)
dispatch_syscall Opcode.dump_memory args pid now = modify (syscall_dump_memory pid now)
dispatch_syscall Opcode.exit args pid now = syscall_exit pid now
dispatch_syscall Opcode.noop args pid now = throw bad_request
dispatch_syscall Opcode.write args pid now = throw bad_request
dispatch_syscall Opcode.read args pid now = throw bad_request
dispatch_syscall Opcode.goto args pid now = throw bad_request

-- `RecieveSyscall` below the checks that its parameters are present and are numbers.
unfoldable pub recieve_syscall : Text → ℤ → Instruction → ℕ → K (Unit {0})
recieve_syscall cpu_id pc instruction now = do
  k ← get_state
  elim (process_of_cpu cpu_id k.available_cpus) [
    | none ↦ throw bad_request
    | some pid ↦ do set_pc pid pc; dispatch_syscall instruction.opcode instruction.args pid now
  ]

-- The end of the goroutine of `DUMP_MEMORY`, with the answer of memory.
unfoldable pub dump_finished : ℕ → Bool → ℕ → Kernel → Kernel
dump_finished pid success now k =
    let (removed, k') = remove_from_state pid k in
    let back = record k' { mts_queue = remove_blocked_by_pid pid k'.mts_queue } in
    elim removed [
      | none ↦ k'
      | some p ↦
          if success
          then enqueue ready now pid back
          else terminate_process pid (enqueue exit now pid k')
    ]

-- `RequestSuspend`, with whether memory answered OK.
unfoldable pub request_suspend : ℕ → Bool → Kernel → Kernel
request_suspend pid accepted k =
    let sent = send (suspend pid) k in
    if accepted then with_process pid (λ p. record p { in_memory = false }) sent else sent

-- `Unsuspend`, with whether memory answered OK.
unfoldable pub request_unsuspend : ℕ → Bool → Kernel → Bool × Kernel
request_unsuspend pid accepted k =
    let sent = send (unsuspend pid) k in
    if accepted
    then (true, with_process pid (λ p. record p { in_memory = true }) sent)
    else (false, sent)
