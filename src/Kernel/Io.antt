-- ===== src/Kernel/Io.antt =====
-- kernel/kernel.go: the connections of IO devices, and the end of an IO.
use tp_ssoo_1c.Prelude.{
  ℕ, zero, suc, Bool, true, false, ◌&&◌, not, List, [], ◌∷◌, ◌++◌, Option, none, some, ◌==◌,
  if◌then◌else◌, get_elem?, length,
}
use tp_ssoo_1c.Prelude.Exec.{◌>>=◌, ◌>>◌, return, throw, crash, get_state, modify, fail_if}
use tp_ssoo_1c.Utils.Text.{Text, text_eq}
use tp_ssoo_1c.Kernel.Pcb.{State, ready, blocked, susp_blocked, susp_ready}
use tp_ssoo_1c.Kernel.State.{Kernel, IoConnection, Blocked, remove_blocked_by_pid}
use tp_ssoo_1c.Kernel.Queues.{enqueue, remove_by_pid}
use tp_ssoo_1c.Kernel.Shared.{not_found, K, lift, state_of, end_process}
use tp_ssoo_1c.Kernel.Api.{has_device, set_ios}

abbrev pub same_io : Text → Text → Text → IoConnection → Bool
same_io name ip port io = text_eq (io.name) name && (text_eq (io.ip) ip && text_eq (io.port) port)

-- `getIO`
unfoldable pub get_io : Text → Text → Text → List IoConnection → Option IoConnection
get_io name ip port [] = none
get_io name ip port (io ∷ ios) =
    if same_io name ip port io then some io else get_io name ip port ios

-- A write of `Disp` through the pointer of `getIO`.
unfoldable pub set_disp : Bool → Text → Text → Text → List IoConnection → List IoConnection
set_disp d name ip port [] = []
set_disp d name ip port (io ∷ ios) =
    if same_io name ip port io
    then record io { disp = d } ∷ ios
    else io ∷ set_disp d name ip port ios

-- `CreateIOConnection`
abbrev pub create_io_connection : Text → Text → Text → IoConnection
create_io_connection name ip port = record { name = name; ip = ip; port = port; disp = true }

abbrev pub register_io : Text → Text → Text → Kernel → Kernel
register_io name ip port k = elim (get_io name ip port k.available_ios) [
  | none ↦ set_ios (k.available_ios ++ (create_io_connection name ip port ∷ [])) k
  | some io ↦ k
]

-- The loop of `recieveIO` over `MTSQueue`: the first entry that waits for the device is taken.
unfoldable pub take_waiting : Text → List Blocked → Option Blocked × List Blocked
take_waiting name [] = (none, [])
take_waiting name (b ∷ bs) =
    let rest = take_waiting name bs in
    if text_eq (b.name) name && not b.working
    then (some b, record b { working = true } ∷ bs)
    else (rest.0, b ∷ rest.1)

-- `recieveIO` up to the wait for a request: the connection, and the IO that it is answered with.
unfoldable pub recieve_io : Text → Text → Text → Kernel → Option Blocked × Kernel
recieve_io name ip port k =
    let k' = register_io name ip port k in
    let (found, waiting) = take_waiting name k'.mts_queue in
    let ios = set_disp false name ip port k'.available_ios in
    elim found [
      | none ↦ (none, k')
      | some b ↦ (some b, record k' { available_ios = ios; mts_queue = waiting })
    ]

-- The loop of `handleIOFinished` over `MTSQueue`, for a queue in which a process waits for a device
-- at most once: the entry is taken out. The source has no `break` and goes on to the end.
unfoldable pub take_blocked : Text → ℕ → List Blocked → Bool × List Blocked
take_blocked name pid [] = (false, [])
take_blocked name pid (b ∷ bs) =
    let rest = take_blocked name pid bs in
    if text_eq (b.name) name && (b.process == pid) then (true, bs) else (rest.0, b ∷ rest.1)

-- What happens to the process, by its state.
abbrev pub wake_up : Option State → ℕ → ℕ → Kernel → Kernel
wake_up none pid now k = k
wake_up (some s) pid now k = elim s [
  | susp_blocked ↦ enqueue susp_ready now pid (remove_by_pid susp_blocked pid k).1
  | blocked ↦ enqueue ready now pid (remove_by_pid blocked pid k).1
  | _ ↦ k
]

unfoldable pub io_finished : Text → ℕ → ℕ → K (Unit {0})
io_finished name pid now = do
  found ← lift (λ k.
      let (found, rest) = take_blocked name pid k.mts_queue in
      (found, if found then record k { mts_queue = rest } else k))
  fail_if (not found) not_found
  modify (λ k. wake_up (state_of pid k) pid now k)

-- `handleIOFinished` below the checks of its parameters.
unfoldable pub handle_io_finished : Text → Text → Text → ℕ → ℕ → K (Unit {0})
handle_io_finished name ip port pid now = do
  k ← get_state
  elim (get_io name ip port k.available_ios) [
    | none ↦ throw not_found
    | some io ↦ do
      modify (λ k. set_ios (set_disp true name ip port k.available_ios) k)
      io_finished name pid now
  ]

-- `append(AvailableIOs[:i], AvailableIOs[i+1:]...)` at the index of the connection.
unfoldable pub remove_io : Text → Text → Text → List IoConnection → List IoConnection
remove_io name ip port [] = []
remove_io name ip port (io ∷ ios) =
    if same_io name ip port io then ios else io ∷ remove_io name ip port ios

-- The first process that waits for the device, if there is one: `break` leaves the others.
unfoldable pub first_waiting : Text → List Blocked → Option ℕ
first_waiting name [] = none
first_waiting name (b ∷ bs) =
    if text_eq (b.name) name then some b.process else first_waiting name bs

unfoldable pub remove_waiting : Text → List Blocked → List Blocked
remove_waiting name [] = []
remove_waiting name (b ∷ bs) = if text_eq (b.name) name then bs else b ∷ remove_waiting name bs

unfoldable pub kill_waiting : Text → ℕ → Kernel → Kernel
kill_waiting name now k = elim (first_waiting name k.mts_queue) [
  | none ↦ k
  | some pid ↦ end_process pid now (record k { mts_queue = remove_waiting name k.mts_queue })
]

abbrev pub remove_index : ℕ → List ℕ → List ℕ
remove_index i [] = []
remove_index zero (x ∷ xs) = xs
remove_index (suc i) (x ∷ xs) = x ∷ remove_index i xs

-- `for index := range SuspReadyQueue`: the count of the rounds is fixed at the start, while each
-- round takes the process at its index out, whatever it waits for. An index out of range panics.
unfoldable pub kill_susp_ready : ℕ → ℕ → ℕ → K (Unit {0})
kill_susp_ready zero index now = return tt
kill_susp_ready (suc rounds) index now = do
  k ← get_state
  elim (get_elem? k.susp_ready_queue index) [
    | none ↦ crash
    | some pid ↦ do
      modify (λ k.
          end_process pid now
            (record k { susp_ready_queue = remove_index index k.susp_ready_queue }))
      kill_susp_ready rounds (suc index) now
  ]

-- The loop of `handleIODisconnected` that ends the process which the device was serving.
unfoldable pub kill_served : Text → ℕ → ℕ → Kernel → Kernel
kill_served name pid now k =
    if (take_blocked name pid k.mts_queue).0
    then end_process pid now (record k { mts_queue = remove_blocked_by_pid pid k.mts_queue })
    else k

-- The goroutine of `handleIODisconnected`, once no instance of the device is left.
unfoldable pub kill_all : Text → ℕ → K (Unit {0})
kill_all name now = do
  modify (kill_waiting name now)
  k ← get_state
  kill_susp_ready (length k.susp_ready_queue) 0 now

abbrev pub drop_connection : Text → Text → Text → ℕ → K (Unit {0})
drop_connection name ip port now = do
  modify (λ k. set_ios (remove_io name ip port k.available_ios) k)
  k ← get_state
  if has_device name k.available_ios then return tt else kill_all name now

-- `handleIODisconnected` below the checks of its parameters.
unfoldable pub handle_io_disconnected : Text → Text → Text → ℕ → ℕ → K (Unit {0})
handle_io_disconnected name ip port pid now = do
  k ← get_state
  elim (get_io name ip port k.available_ios) [
    | none ↦ throw not_found
    | some io ↦ do modify (kill_served name pid now); drop_connection name ip port now
  ]
