-- ===== src/Io/Tests.antt =====
-- io/: a device that is given an IO, by a kernel that always answers the same and by the modelled one.
use tp_ssoo_1c.Io.Completion.{notify_kernel-ready}
use tp_ssoo_1c.Kernel.Server.{io_body}
use tp_ssoo_1c.Kernel.Placement.{Consistent}
use tp_ssoo_1c.Io.Kernel.{post_kernel}
use tp_ssoo_1c.Io.Service.{served, notify_kernel-io_body}
use tp_ssoo_1c.Kernel.Io.{take_waiting}
use tp_ssoo_1c.Kernel.State.{Blocked, Kernel, Process, sjf, find_process, fifo}
use tp_ssoo_1c.Kernel.Shared.{state_of}
use tp_ssoo_1c.Prelude.{
  ℕ, zero, suc, ◌≡◌, refl, true, false, [], ◌∷◌, ◌++◌, Option, some, count, arith,
}
use tp_ssoo_1c.Prelude.Int.{pos}
use tp_ssoo_1c.Prelude.Exec.{ok}
use tp_ssoo_1c.Utils.Text.{codes}
use tp_ssoo_1c.Io.{Reply, Device, Endpoint, notify_kernel, Request}
use tp_ssoo_1c.Kernel.Pcb.{ready, blocked, zero_metrics}

abbrev same_answer : Endpoint → Request → ℕ → Option Reply × ℕ
same_answer e r s = (some (record { status = 200; body = io_body 3 (pos 50) }), suc s)

abbrev printer : Device ℕ
printer = record { kernel = 0; assigned_pid = 0; slept = [] }

notify_kernel-io_body_example :
    notify_kernel same_answer [] [] (codes "printer") printer
    ≡ (ok true, served same_answer [] [] (codes "printer") 3 (pos 50) 1 [])
notify_kernel-io_body_example =
    notify_kernel-io_body same_answer [] [] (codes "printer") 3 (pos 50) 1 printer refl

abbrev waiting_process : Process
waiting_process = record {
  pcb = record { pid = 0; state = blocked; pc = 4; k_metrics = zero_metrics; code_file_path = [] };
  path = [];
  size = pos 4;
  start_time = 0;
  last_real_burst = 0;
  estimated_burst = 10;
  timer_running = false;
  in_memory = false;
}

abbrev entry : Blocked
entry = record {
  process = 0;
  name = codes "printer";
  time = pos 50;
  working = false;
  dump_memory = false;
}

abbrev with_waiting : Kernel
with_waiting = record {
  config = record {
    scheduler_algorithm = sjf;
    ready_ingress_algorithm = fifo;
    initial_estimate = 10;
    next_estimate = λ real previous. real;
  };
  processes = waiting_process ∷ [];
  new_queue = [];
  ready_queue = [];
  susp_ready_queue = [];
  susp_blocked_queue = [];
  exit_queue = [];
  blocked_queue = 0 ∷ [];
  exec_queue = [];
  available_ios = [];
  available_cpus = [];
  mts_queue = entry ∷ [];
  next_pid = 1;
  total_processes_created = 1;
  closed = false;
  sent = [];
}

with_waiting-Consistent : Consistent with_waiting
unfolding count state_of find_process
with_waiting-Consistent zero t = ground arith
with_waiting-Consistent (suc pid) t = ground arith

entry-waits : (take_waiting (codes "printer") with_waiting.mts_queue).0 ≡ some entry
unfolding take_waiting
entry-waits = refl

process-blocked : state_of 0 with_waiting ≡ some blocked
unfolding state_of find_process
process-blocked = ground arith

abbrev connecting : Device Kernel
connecting = record { kernel = with_waiting; assigned_pid = 0; slept = [] }

abbrev no_request : Reply
no_request = record { status = 418; body = [] }

notify_kernel-ready_example :
    ((notify_kernel (post_kernel 9 no_request) (codes "::1") [] (codes "printer") connecting).0
      ≡ ok true)
    × ((notify_kernel
          (post_kernel 9 no_request)
          (codes "::1")
          []
          (codes "printer")
          connecting).1.slept
        ≡ [] ++ (pos 50 ∷ []))
    × (state_of 0
          (notify_kernel
            (post_kernel 9 no_request)
            (codes "::1")
            []
            (codes "printer")
            connecting).1.kernel
        ≡ some ready)
    × Consistent
        (notify_kernel
          (post_kernel 9 no_request)
          (codes "::1")
          []
          (codes "printer")
          connecting).1.kernel
notify_kernel-ready_example =
    notify_kernel-ready no_request (codes "::1") [] (codes "printer") 9 entry connecting refl refl
      with_waiting-Consistent entry-waits process-blocked
