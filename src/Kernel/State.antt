-- ===== src/Kernel/State.antt =====
-- kernel/globals/globals.go: the kernel's variables as one state. A `*Process` is the PID of a
-- process in the store `processes`: each PID is given to one process only, so that pointers are
-- equal exactly if the PIDs are. The channels that only wake the schedulers up are left out: a
-- scheduler may take its next step at any time. What the kernel sends to the other programs is
-- noted in `sent`, and their answers are arguments; `closed` says that `ClearAndExit` was called.
use tp_ssoo_1c.Prelude.{
  ℕ, ◌-◌, Bool, List, [], ◌∷◌, ◌++◌, Option, none, some, ◌==◌, ltb, if◌then◌else◌,
}
use tp_ssoo_1c.Prelude.Int.{ℤ}
use tp_ssoo_1c.Utils.Text.{Text}
use tp_ssoo_1c.Kernel.Pcb.{Pcb}

pub record Process : Type 0 where
  pub pcb : Pcb
  pub path : Text
  pub size : ℤ
  pub start_time : ℕ
  pub last_real_burst : ℕ
  pub estimated_burst : ℕ
  pub timer_running : Bool
  pub in_memory : Bool

pub record IoConnection : Type 0 where
  pub name : Text
  pub ip : Text
  pub port : Text
  pub disp : Bool

pub record CpuConnection : Type 0 where
  pub id : Text
  pub ip : Text
  pub port : ℤ
  pub process : Option ℕ

pub record Blocked : Type 0 where
  pub process : ℕ
  pub name : Text
  pub time : ℤ
  pub working : Bool
  pub dump_memory : Bool

pub data Algorithm : Type 0 where
  fifo sjf srt : Algorithm

pub data IngressAlgorithm : Type 0 where
  fifo pmcp : IngressAlgorithm

-- A message to another program.
pub data Request : Type 0 where
  create_in_memory delete_in_memory suspend unsuspend dump : ℕ → Request
  dispatch : Text → ℕ → ℕ → Request
  interrupt : Text → ℕ → Request
  start_io : Text → ℕ → ℤ → Request

-- `next_estimate real previous` is `int64(math.Ceil(alpha*real + (1-alpha)*previous))` in floats.
pub record Config : Type 0 where
  pub scheduler_algorithm : Algorithm
  pub ready_ingress_algorithm : IngressAlgorithm
  pub initial_estimate : ℕ
  pub next_estimate : ℕ → ℕ → ℕ

pub record Kernel : Type 0 where
  pub config : Config
  pub processes : List Process
  pub new_queue : List ℕ
  pub ready_queue : List ℕ
  pub susp_ready_queue : List ℕ
  pub susp_blocked_queue : List ℕ
  pub exit_queue : List ℕ
  pub blocked_queue : List ℕ
  pub exec_queue : List ℕ
  pub available_ios : List IoConnection
  pub available_cpus : List CpuConnection
  pub mts_queue : List Blocked
  pub next_pid : ℕ
  pub total_processes_created : ℕ
  pub closed : Bool
  pub sent : List Request

abbrev pub pid_of : Process → ℕ
pid_of p = p.pcb.pid

-- What a pointer refers to.
unfoldable pub find_process : ℕ → List Process → Option Process
find_process pid [] = none
find_process pid (p ∷ ps) = if pid_of p == pid then some p else find_process pid ps

-- A write through a pointer.
unfoldable pub update_process : ℕ → (Process → Process) → List Process → List Process
update_process pid f [] = []
update_process pid f (p ∷ ps) = if pid_of p == pid then f p ∷ ps else p ∷ update_process pid f ps

abbrev pub send : Request → Kernel → Kernel
send r k = record k { sent = k.sent ++ (r ∷ []) }

abbrev pub with_process : ℕ → (Process → Process) → Kernel → Kernel
with_process pid f k = record k { processes = update_process pid f k.processes }

-- `UpdateBurstEstimation` at the time `now`.
unfoldable pub update_burst_estimation : ℕ → ℕ → Kernel → Kernel
update_burst_estimation pid now k = with_process pid estimate k
  where
    estimate : Process → Process
    estimate p = record p {
      last_real_burst = now - p.start_time;
      estimated_burst = k.config.next_estimate (now - p.start_time) p.estimated_burst;
    }

-- `TiempoRestanteDeRafaga`: what is left of the estimate, and zero once it is used up.
unfoldable pub tiempo_restante_de_rafaga : ℕ → Process → ℕ
tiempo_restante_de_rafaga now p = p.estimated_burst - (now - p.start_time)

-- The loop of `MayorTiempoRestanteDeRafaga` over the processes that are left.
unfoldable pub longest_from : ℕ → Process → List Process → Process
unfolding tiempo_restante_de_rafaga
longest_from now best [] = best
longest_from now best (p ∷ ps) =
    longest_from now
      (if ltb (tiempo_restante_de_rafaga now best) (tiempo_restante_de_rafaga now p)
        then p
        else best)
      ps

unfoldable pub mayor_tiempo_restante_de_rafaga : ℕ → List Process → Option Process
unfolding longest_from
mayor_tiempo_restante_de_rafaga now [] = none
mayor_tiempo_restante_de_rafaga now (p ∷ ps) = some (longest_from now p ps)

-- The loop of `MenorTiempoRestanteDeRafaga`, whose test is the same.
unfoldable pub shortest_from : ℕ → Process → List Process → Process
unfolding tiempo_restante_de_rafaga
shortest_from now best [] = best
shortest_from now best (p ∷ ps) =
    shortest_from now
      (if ltb (tiempo_restante_de_rafaga now best) (tiempo_restante_de_rafaga now p)
        then p
        else best)
      ps

unfoldable pub menor_tiempo_restante_de_rafaga : ℕ → List Process → Option Process
unfolding shortest_from
menor_tiempo_restante_de_rafaga now [] = none
menor_tiempo_restante_de_rafaga now (p ∷ ps) = some (shortest_from now p ps)

-- `RemoveBlockedByPID`: the first entry of the PID.
unfoldable pub remove_blocked_by_pid : ℕ → List Blocked → List Blocked
remove_blocked_by_pid pid [] = []
remove_blocked_by_pid pid (b ∷ bs) =
    if b.process == pid then bs else b ∷ remove_blocked_by_pid pid bs
