-- ===== src/Kernel/Shared.antt =====
-- kernel/shared/: CPUs, and the creation and the end of processes.
use tp_ssoo_1c.Prelude.{
  ℕ, suc, Bool, true, false, List, [], ◌∷◌, ◌++◌, Option, none, some, ◌==◌, if◌then◌else◌, length,
}
use tp_ssoo_1c.Prelude.Int.{ℤ, pos, negsuc}
use tp_ssoo_1c.Prelude.Exec.{Exec, ok, crash, modify}
use tp_ssoo_1c.Utils.Text.{Text}
use tp_ssoo_1c.Kernel.Pcb.{State, exit, new, ready, create}
use tp_ssoo_1c.Kernel.State.{
  Kernel, Process, CpuConnection, create_in_memory, delete_in_memory, find_process, send,
  with_process,
}
use tp_ssoo_1c.Kernel.Queues.{enqueue, remove_by_pid}

-- The status of an early answer of a handler.
pub data Status : Type 0 where
  bad_request not_found method_not_allowed : Status

-- A handler, or a part of one.
abbrev pub K : Type 0 → Type 0
K A = Exec Kernel Status A

abbrev pub lift : {A : Type 0} → (Kernel → A × Kernel) → K A
lift f k = (ok (f k).0, (f k).1)

abbrev pub holds : CpuConnection → ℕ → Bool
holds cpu pid = elim cpu.process [ none ↦ false | some p ↦ p == pid ]

abbrev pub is_idle : CpuConnection → Bool
is_idle cpu = elim cpu.process [ none ↦ true | some p ↦ false ]

unfoldable pub cpus_not_connected : Kernel → Bool
cpus_not_connected k = elim k.available_cpus [ [] ↦ true | c ∷ cs ↦ false ]

-- The loop of `GetAvailableCPU`.
unfoldable pub first_idle : List CpuConnection → Option CpuConnection
first_idle [] = none
first_idle (c ∷ cs) = if is_idle c then some c else first_idle cs

unfoldable pub get_available_cpu : Kernel → Option CpuConnection
unfolding first_idle
get_available_cpu k = first_idle k.available_cpus

-- With no CPU at all the answer is true.
unfoldable pub is_cpu_available : Kernel → Bool
unfolding first_idle
is_cpu_available k = elim (first_idle k.available_cpus) [
  | some c ↦ true
  | none ↦ cpus_not_connected k
]

unfoldable pub free_cpus : ℕ → List CpuConnection → List CpuConnection
free_cpus pid [] = []
free_cpus pid (c ∷ cs) = (if holds c pid then record c { process = none } else c) ∷ free_cpus pid cs

unfoldable pub free_cpu : ℕ → Kernel → Kernel
free_cpu pid k = record k { available_cpus = free_cpus pid k.available_cpus }

-- `newProcess`
unfoldable pub new_process : ℕ → Text → ℤ → ℕ → Kernel → Process
unfolding create
new_process pid path size now k = record {
  pcb = create pid path now;
  path = path;
  size = size;
  start_time = 0;
  last_real_burst = 0;
  estimated_burst = k.config.initial_estimate;
  timer_running = false;
  in_memory = false;
}

-- `getNextPID`, `newProcess` and the count; the process enters the store.
abbrev pub add_process : Text → ℤ → ℕ → Kernel → Kernel
add_process path size now k = record k {
  next_pid = suc k.next_pid;
  total_processes_created = suc k.total_processes_created;
  processes = k.processes ++ (new_process k.next_pid path size now k ∷ []);
}

-- `CreateProcess` and `HandleNewProcess`.
unfoldable pub create_process : Text → ℤ → ℕ → Kernel → Kernel
create_process path size now k = enqueue new now k.next_pid (add_process path size now k)

-- `TryInititializeProcess`; `created` is whether the code file was opened and memory answered OK.
unfoldable pub try_inititialize_process : ℕ → Bool → ℕ → Kernel → Bool × Kernel
try_inititialize_process pid created now k =
    let sent = send (create_in_memory pid) k in
    if created then (true, enqueue ready now pid (remove_by_pid new pid sent).1) else (false, sent)

-- `TerminateProcess`: the kernel asks memory to delete the process, and closes once as many
-- processes have ended as were created. What memory answers only changes the log.
unfoldable pub terminate_process : ℕ → Kernel → Kernel
terminate_process pid k =
    let sent = send (delete_in_memory pid) k in
    if length k.exit_queue == k.total_processes_created then record sent { closed = true } else sent

-- `process.PCB.GetState()` of a process of the store.
unfoldable pub state_of : ℕ → Kernel → Option State
state_of pid k = elim (find_process pid k.processes) [ none ↦ none | some p ↦ some p.pcb.state ]

-- `queues.RemoveByPID(process.PCB.GetState(), process.PCB.GetPID())`
unfoldable pub remove_from_state : ℕ → Kernel → Option ℕ × Kernel
remove_from_state pid k = elim (state_of pid k) [
  | none ↦ (none, k)
  | some s ↦ remove_by_pid s pid k
]

-- The sequence that ends a process: out of the queue of its state, into EXIT, out of memory.
unfoldable pub end_process : ℕ → ℕ → Kernel → Kernel
end_process pid now k = terminate_process pid (enqueue exit now pid (remove_from_state pid k).1)

-- `SetPC`
abbrev pub set_pc : ℕ → ℤ → K (Unit {0})
set_pc pid (negsuc n) = crash
set_pc pid (pos pc) = modify (with_process pid (λ p. record p { pcb = record (p.pcb) { pc = pc } }))
