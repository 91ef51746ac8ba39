-- ===== src/Kernel/Server.antt =====
-- kernel/kernel.go and kernel/api/kernel_api.go: the endpoints of the kernel, with the checks of
-- their parameters. A request's query is given parsed, and the JSON text of its body as the
-- instruction that it encodes, if it encodes one.
use tp_ssoo_1c.Kernel.Io.{handle_io_disconnected, handle_io_finished, recieve_io}
use tp_ssoo_1c.Utils.Codeutils.{Instruction, opcode_string}
use tp_ssoo_1c.Memory.Requests.{text_or_empty, query_get, uint}
use tp_ssoo_1c.Kernel.Shared.{K, method_not_allowed, bad_request, lift, set_pc}
use tp_ssoo_1c.Kernel.State.{Blocked, CpuConnection, Kernel}
use tp_ssoo_1c.Prelude.{
  ℕ, Bool, true, false, not, List, [], ◌∷◌, ◌++◌, Option, none, some, if◌then◌else◌, get_or,
}
use tp_ssoo_1c.Prelude.Int.{ℤ}
use tp_ssoo_1c.Prelude.Exec.{◌>>=◌, ◌>>◌, return, throw, get_state, modify, fail_if}
use tp_ssoo_1c.Utils.Text.{Text, codes, text_eq, atoi, itoa, itoa_int}
use tp_ssoo_1c.Utils.Codeutils.{Opcode}
use tp_ssoo_1c.Kernel.Api.{
  interrupted, exited, nothing, Reason, receive_cpu, handle_reason, process_of_cpu, recieve_syscall,
  has_device, take_io,
}

pub record Request : Type 0 where
  pub method : Text
  pub query : List (Text × Text)
  pub instruction : Option Instruction

pub data Code : Type 0 where
  status_ok conflict teapot : Code

pub record Response : Type 0 where
  pub status : Code
  pub body : Text

pub data Endpoint : Type 0 where
  cpu_notify io_notify io_finished io_disconnected cpu_results syscall ping : Endpoint

-- `r.URL.Query().Get(key)`
abbrev pub parameter : Text → Request → Text
parameter key r = text_or_empty (query_get key r.query)

abbrev pub is_nil : Text → Bool
is_nil [] = true
is_nil (c ∷ s) = false

abbrev pub check_post : Request → K (Unit {0})
check_post r = fail_if (not (text_eq r.method (codes "POST"))) method_not_allowed

-- A parameter that must not be empty.
abbrev pub required : Text → Request → K (Unit {0})
required key r = fail_if (is_nil (parameter key r)) bad_request

-- `strconv.Atoi` of a parameter, whose error is answered with a bad request.
abbrev pub number : Text → Request → K ℤ
number key r = elim (atoi (parameter key r)) [ none ↦ throw bad_request | some n ↦ return n ]

abbrev pub answer : Code → Text → K (Option Response)
answer status body = return (some (record { status = status; body = body }))

-- `fmt.Sprintf("%d|%d", pid, time)`
unfoldable pub io_body : ℕ → ℤ → Text
unfolding itoa_int
io_body pid time = itoa pid ++ (b'|' ∷ itoa_int time)

-- The answer with the IO that a device is to do.
abbrev pub io_response : ℕ → ℤ → Response
io_response pid time = record { status = status_ok; body = io_body pid time }

-- The answer to a device that waits when the kernel closes.
abbrev pub closing_response : Response
closing_response = record { status = teapot; body = [] }

-- Whether a CPU with the identifier is registered.
unfoldable pub is_registered : Text → List CpuConnection → Bool
is_registered id [] = false
is_registered id (c ∷ cs) = if text_eq (c.id) id then true else is_registered id cs

-- The status that is written first is the one that is sent.
abbrev pub cpu_code : Bool → Code
cpu_code true = conflict
cpu_code false = status_ok

-- The text that is written for every CPU that has the identifier already.
unfoldable pub already_registered : Text → List CpuConnection → Text
already_registered id [] = []
already_registered id (c ∷ cs) =
    (if text_eq (c.id) id then codes "CPU already registered" else []) ++ already_registered id cs

abbrev pub cpu_body : Text → List CpuConnection → Text
cpu_body id cs = already_registered id cs ++ codes "CPU registered successfully"

-- `ReceiveCPU`
unfoldable pub receive_cpu_request : Request → K (Option Response)
receive_cpu_request r = do
  check_post r
  port ← number (codes "port") r
  k ← get_state
  modify (receive_cpu (parameter (codes "id") r) (parameter (codes "ip") r) port)
  let id = parameter (codes "id") r
  answer (cpu_code (is_registered id k.available_cpus)) (cpu_body id k.available_cpus)

abbrev pub waiting_answer : Option Blocked → Option Response
waiting_answer none = none
waiting_answer (some b) = some (io_response b.process b.time)

-- `recieveIO`: `none` is a device that waits for a request on its channel.
unfoldable pub recieve_io_request : Request → K (Option Response)
recieve_io_request r = do
  check_post r
  required (codes "ip") r
  required (codes "name") r
  found ← lift (
      recieve_io (parameter (codes "name") r) (parameter (codes "ip") r)
        (parameter (codes "port") r))
  return (waiting_answer found)

-- The PID of a report about an IO.
abbrev pub reported_pid : Request → K ℤ
reported_pid r = do
  check_post r
  required (codes "ip") r
  required (codes "name") r
  required (codes "pid") r
  number (codes "pid") r

-- `handleIOFinished`
unfoldable pub io_finished_request : Request → ℕ → K (Option Response)
io_finished_request r now = do
  pid ← reported_pid r
  handle_io_finished (parameter (codes "name") r) (parameter (codes "ip") r)
      (parameter (codes "port") r) (uint pid) now
  answer status_ok (codes "IO finished for PID " ++ itoa_int pid)

-- `handleIODisconnected`
unfoldable pub io_disconnected_request : Request → ℕ → K (Option Response)
io_disconnected_request r now = do
  pid ← reported_pid r
  handle_io_disconnected (parameter (codes "name") r) (parameter (codes "ip") r)
      (parameter (codes "port") r) (uint pid) now
  answer status_ok (codes "Handling Disconnection!")

-- The reasons that `ReceivePidPcReason` lets through.
unfoldable pub read_reason : Text → Option Reason
read_reason reason =
    if text_eq reason (codes "Interrupt")
    then some interrupted
    else if text_eq reason (codes "Exit")
    then some exited
    else if is_nil reason
    then some nothing
    else none

abbrev pub checked_reason : Request → K Reason
checked_reason r = elim (read_reason (parameter (codes "reason") r)) [
  | none ↦ throw bad_request
  | some reason ↦ return reason
]

-- `ReceivePidPcReason`
unfoldable pub receive_pid_pc_reason : Request → ℕ → K (Option Response)
receive_pid_pc_reason r now = do
  check_post r
  pid ← number (codes "pid") r
  pc ← number (codes "pc") r
  reason ← checked_reason r
  handle_reason (uint pid) pc reason now
  answer status_ok (codes "Reason received successfully")

-- The text that an IO syscall is answered with.
abbrev pub device_body : Text → Kernel → Text
device_body device k =
    if has_device device k.available_ios
    then (if (take_io device k.available_ios).0 then codes "Syscall IO procesada" else [])
    else codes "Dispositivo IO no existe - process terminado"

-- The text that a syscall is answered with, by the kernel before it.
abbrev pub syscall_body : Instruction → Kernel → Text
syscall_body i k = elim i.opcode [
  | Opcode.io ↦ device_body (get_or i.args 0 []) k
  | op ↦ codes "Syscall " ++ (opcode_string op ++ codes " procesada")
]

-- An instruction that is no JSON is found out after the process has got its program counter.
abbrev pub run_syscall : Text → ℤ → Option Instruction → ℕ → K Text
run_syscall cpu pc none now = do
  k ← get_state
  elim (process_of_cpu cpu k.available_cpus) [
    | none ↦ throw bad_request
    | some pid ↦ do set_pc pid pc; throw bad_request
  ]
run_syscall cpu pc (some instruction) now = do
  k ← get_state
  recieve_syscall cpu pc instruction now
  return (syscall_body instruction k)

-- `RecieveSyscall`, which does not look at the method.
unfoldable pub recieve_syscall_request : Request → ℕ → K (Option Response)
recieve_syscall_request r now = do
  required (codes "id") r
  required (codes "pc") r
  pc ← number (codes "pc") r
  body ← run_syscall (parameter (codes "id") r) pc r.instruction now
  answer status_ok body

-- The routes of `main`, at the time `now`.
unfoldable pub serve : Endpoint → Request → ℕ → K (Option Response)
unfolding receive_cpu_request recieve_io_request io_finished_request io_disconnected_request
    receive_pid_pc_reason recieve_syscall_request
serve cpu_notify r now = receive_cpu_request r
serve io_notify r now = recieve_io_request r
serve io_finished r now = io_finished_request r now
serve io_disconnected r now = io_disconnected_request r now
serve cpu_results r now = receive_pid_pc_reason r now
serve syscall r now = recieve_syscall_request r now
serve ping r now = answer status_ok []
