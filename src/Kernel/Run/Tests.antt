-- ===== src/Kernel/Run/Tests.antt =====
-- kernel/ from its start: a process is created, a CPU connects, and the schedulers run.
use tp_ssoo_1c.Kernel.Run.Invariant.{Reaches-get_cpu_with_longues_burst}
use tp_ssoo_1c.Kernel.Tracking.Longest.{Longest}
use tp_ssoo_1c.Kernel.Shared.{is_cpu_available, get_available_cpu, first_idle}
use tp_ssoo_1c.Kernel.Scheduler.{sts_dispatch, assign_cpu, send_to_execute, start_on_cpu}
use tp_ssoo_1c.Kernel.Queues.{dequeue}
use tp_ssoo_1c.Kernel.Api.{receive_cpu}
use tp_ssoo_1c.Kernel.Run.Invariant.{Reaches-sts_round, Reaches-IsPlaced}
use tp_ssoo_1c.Kernel.Placement.{same_state}
use tp_ssoo_1c.Kernel.Run.Closing.{AllExited, end_process-closed}
use tp_ssoo_1c.Kernel.Queues.Insertion.{insertion}
use tp_ssoo_1c.Kernel.Queues.{
  get_queue, enqueue, search_queue, sort_queue, remove_by_pid, contains_pid, remove_first,
}
use tp_ssoo_1c.Kernel.Scheduler.Round.{sts_round}
use tp_ssoo_1c.Kernel.Scheduler.{lts_round}
use tp_ssoo_1c.Kernel.State.{Config, Kernel, srt, find_process, fifo, update_process}
use tp_ssoo_1c.Kernel.Start.{start, globals}
use tp_ssoo_1c.Kernel.Shared.{
  state_of, create_process, end_process, cpus_not_connected, new_process, try_inititialize_process,
}
use tp_ssoo_1c.Kernel.Run.{Reaches, here, later, answered, started, long_term, short_term}
use tp_ssoo_1c.Prelude.{
  ◌<◌, ◌≡◌, ◌↔◌, refl, true, false, [], ◌∷◌, none, some, count, if◌then◌else◌, arith,
}
use tp_ssoo_1c.Prelude.Int.{pos}
use tp_ssoo_1c.Prelude.Exec.{ok}
use tp_ssoo_1c.Utils.Text.{codes, atoi, read_digits}
use tp_ssoo_1c.Kernel.Server.{cpu_notify, Request, serve, is_registered, receive_cpu_request}
use tp_ssoo_1c.Kernel.Pcb.{new, State, set_state, create}

abbrev srt_config : Config
srt_config = record {
  scheduler_algorithm = srt;
  ready_ingress_algorithm = fifo;
  initial_estimate = 10;
  next_estimate = λ real previous. real;
}

abbrev hello : Kernel
hello = create_process (codes "helloworld") (pos 1024) 7 (globals srt_config)

hello-started : start (λ path. true) [] [] 7 (globals srt_config) ≡ some hello
unfolding start
hello-started = refl

abbrev first_cpu : Request
first_cpu = record {
  method = codes "POST";
  query = (codes "id", codes "a") ∷ ((codes "port", codes "80") ∷ []);
  instruction = none;
}

-- A CPU is connected, the process is in memory, and the CPU has it.
abbrev connected : Kernel
connected = (serve cpu_notify first_cpu 8 hello).1

abbrev loaded : Kernel
loaded = lts_round insertion true 9 connected

abbrev working : Kernel
working = (sts_round insertion true true 10 loaded).1

connected-cpu : cpus_not_connected loaded ≡ false
unfolding lts_round serve cpus_not_connected search_queue sort_queue try_inititialize_process
    remove_by_pid contains_pid remove_first enqueue receive_cpu create_process is_registered atoi
    read_digits update_process set_state find_process new_process receive_cpu_request
connected-cpu = refl

hello-Reaches : Reaches insertion (globals srt_config) hello
hello-Reaches =
    later _ _ _ (here _) (started (λ path. true) [] [] 7 (globals srt_config) hello hello-started)

loaded-Reaches : Reaches insertion (globals srt_config) loaded
loaded-Reaches =
    later _ _ _ (later _ _ _ hello-Reaches (answered cpu_notify first_cpu 8 hello tt))
      (long_term true 9 connected)

working-Reaches : Reaches insertion (globals srt_config) working
working-Reaches = later _ _ _ loaded-Reaches (short_term true true 10 loaded connected-cpu)

hello-next : 0 < hello.next_pid
unfolding create_process enqueue
hello-next = omega arith

loaded-next : 0 < loaded.next_pid
unfolding lts_round serve search_queue sort_queue try_inititialize_process remove_by_pid
    contains_pid remove_first enqueue receive_cpu create_process is_registered atoi read_digits
    update_process set_state find_process new_process receive_cpu_request
loaded-next = omega arith

Reaches-IsPlaced_example :
    (s : State) × (state_of 0 loaded ≡ some s)
    × ((t : State) → count 0 (get_queue t loaded) ≡ (if same_state s t then 1 else 0))
Reaches-IsPlaced_example = Reaches-IsPlaced insertion srt_config loaded loaded-Reaches 0 loaded-next

Reaches-sts_round_example : (sts_round insertion true true 10 loaded).0 ≡ ok tt
Reaches-sts_round_example =
    Reaches-sts_round insertion srt_config true true 10 loaded loaded-Reaches connected-cpu

hello-new : state_of 0 hello ≡ some new
unfolding state_of find_process create_process enqueue new_process update_process set_state create
hello-new = refl

hello-open : hello.closed ≡ false
unfolding create_process enqueue
hello-open = refl

end_process-closed_example :
    ((end_process 0 8 hello).closed ≡ true) ↔ AllExited (end_process 0 8 hello)
end_process-closed_example =
    end_process-closed insertion srt_config new 0 8 hello hello-Reaches hello-new hello-open

-- The only CPU has the process.
working-busy : (cpus_not_connected working ≡ false) × (is_cpu_available working ≡ false)
unfolding sts_round sts_dispatch assign_cpu dequeue lts_round serve cpus_not_connected search_queue
    sort_queue try_inititialize_process remove_by_pid contains_pid remove_first enqueue receive_cpu
    create_process is_registered atoi read_digits update_process set_state find_process new_process
    receive_cpu_request is_cpu_available first_idle send_to_execute state_of start_on_cpu
    get_available_cpu
working-busy = (refl, refl)

Reaches-get_cpu_with_longues_burst_example : Longest 12 working
Reaches-get_cpu_with_longues_burst_example =
    Reaches-get_cpu_with_longues_burst insertion srt_config 12 working working-Reaches
      working-busy.0 working-busy.1
