-- ===== src/Kernel/Tests.antt =====
-- kernel/ with one process that a CPU executes, and with a READY queue.
use tp_ssoo_1c.Kernel.Placement.Syscalls.{recieve_syscall-Consistent, CpusKnown}
use tp_ssoo_1c.Kernel.Placement.Schedulers.{
  sts_dispatch-Consistent, sts_preempt-Consistent, mts_admit-Consistent,
}
use tp_ssoo_1c.Kernel.Scheduler.{sts_dispatch, sts_preempt, mts_admit}
use tp_ssoo_1c.Kernel.Api.{recieve_syscall, process_of_cpu, handle_reason, nothing, interrupted}
use tp_ssoo_1c.Kernel.Shared.{state_of}
use tp_ssoo_1c.Utils.Codeutils.{Opcode}
use tp_ssoo_1c.Kernel.Pcb.{susp_ready, exec, ready, zero_metrics}
use tp_ssoo_1c.Prelude.{none, ◌≢◌, zero, suc, ◌≡◌, true, false, [], ◌∷◌, some, arith, count}
use tp_ssoo_1c.Prelude.Int.{pos}
use tp_ssoo_1c.Kernel.State.{Process, Kernel, find_process, sjf, fifo}
use tp_ssoo_1c.Kernel.Placement.{Consistent}
use tp_ssoo_1c.Kernel.Placement.Removals.{handle_reason-Consistent}
use tp_ssoo_1c.Kernel.Queues.{dequeue, estimated_burst, sort_queue}
use tp_ssoo_1c.Kernel.Queues.Dequeue.{Dequeued, dequeue-Dequeued}
use tp_ssoo_1c.Kernel.Queues.Insertion.{insertion, insertion_sort, insert}

abbrev running : Process
running = record {
  pcb = record { pid = 0; state = exec; pc = 0; k_metrics = zero_metrics; code_file_path = [] };
  path = [];
  size = pos 4;
  start_time = 0;
  last_real_burst = 0;
  estimated_burst = 10;
  timer_running = false;
  in_memory = false;
}

abbrev kernel : Kernel
kernel = record {
  config = record {
    scheduler_algorithm = sjf;
    ready_ingress_algorithm = fifo;
    initial_estimate = 10;
    next_estimate = λ real previous. real;
  };
  processes = running ∷ [];
  new_queue = [];
  ready_queue = [];
  susp_ready_queue = [];
  susp_blocked_queue = [];
  exit_queue = [];
  blocked_queue = [];
  exec_queue = 0 ∷ [];
  available_ios = [];
  available_cpus = record { id = []; ip = []; port = pos 80; process = some 0 } ∷ [];
  mts_queue = [];
  next_pid = 1;
  total_processes_created = 1;
  closed = false;
  sent = [];
}

state_of-kernel : state_of 0 kernel ≡ some exec
unfolding state_of find_process
state_of-kernel = ground arith

kernel-Consistent : Consistent kernel
unfolding count state_of find_process
kernel-Consistent zero t = ground arith
kernel-Consistent (suc pid) t = ground arith

interrupted-nothing : interrupted ≢ nothing
interrupted-nothing h = ground arith

-- There is a device that is free.
abbrev with_device : Kernel
with_device = record kernel {
  available_ios = record { name = []; ip = []; port = []; disp = true } ∷ [];
}

state_of-with_device : state_of 0 with_device ≡ some exec
unfolding state_of find_process
state_of-with_device = ground arith

with_device-Consistent : Consistent with_device
unfolding count state_of find_process
with_device-Consistent zero t = ground arith
with_device-Consistent (suc pid) t = ground arith

handle_reason-Consistent_example : Consistent (handle_reason 0 (pos 12) interrupted 7 kernel).1
handle_reason-Consistent_example =
    handle_reason-Consistent 0 12 7 interrupted kernel kernel-Consistent interrupted-nothing

-- Two processes are READY: process 1 with an estimate of 10, process 2 with one of 4.
abbrev two_ready : Kernel
two_ready = record kernel {
  processes =
      record running { pcb = record (running.pcb) { pid = 1; state = ready } }
      ∷ (record running {
        pcb = record (running.pcb) { pid = 2; state = ready };
        estimated_burst = 4;
      }
          ∷ []);
  ready_queue = 1 ∷ 2 ∷ [];
  exec_queue = [];
  available_cpus = record { id = []; ip = []; port = pos 80; process = none } ∷ [];
}

two_ready-Consistent : Consistent two_ready
unfolding count state_of find_process
two_ready-Consistent zero t = ground arith
two_ready-Consistent (suc zero) t = ground arith
two_ready-Consistent (suc (suc zero)) t = ground arith
two_ready-Consistent (suc (suc (suc pid))) t = ground arith

two_ready-dequeue : (dequeue insertion ready estimated_burst two_ready).0 ≡ some 2
unfolding dequeue sort_queue insertion_sort insert find_process
two_ready-dequeue = ground arith

dequeue-Dequeued_example : Dequeued insertion ready estimated_burst two_ready 2
dequeue-Dequeued_example =
    dequeue-Dequeued insertion ready estimated_burst two_ready 2 two_ready-dequeue

sts_dispatch-Consistent_example : Consistent (sts_dispatch insertion [] true 7 two_ready)
sts_dispatch-Consistent_example =
    sts_dispatch-Consistent insertion [] true 7 two_ready two_ready-Consistent

sts_preempt-Consistent_example : Consistent (sts_preempt insertion [] 2 false 7 two_ready)
sts_preempt-Consistent_example =
    sts_preempt-Consistent insertion [] 2 false 7 two_ready two_ready-Consistent

next_pid-free : state_of 1 kernel ≡ none
unfolding state_of find_process
next_pid-free = ground arith

kernel-CpusKnown : CpusKnown kernel
unfolding process_of_cpu state_of find_process
kernel-CpusKnown cpu pid h = (exec, ground arith)

recieve_syscall-Consistent_example :
    Consistent
      (recieve_syscall [] (pos 4) (record { opcode = Opcode.io; args = [] ∷ [] ∷ [] }) 7 kernel).1
recieve_syscall-Consistent_example =
    recieve_syscall-Consistent [] (pos 4) (record { opcode = Opcode.io; args = [] ∷ [] ∷ [] }) 7
      kernel kernel-Consistent kernel-CpusKnown next_pid-free

-- The process is in swap and waits for memory.
abbrev waiting : Kernel
waiting = record kernel {
  processes = record running { pcb = record (running.pcb) { state = susp_ready } } ∷ [];
  susp_ready_queue = 0 ∷ [];
  exec_queue = [];
}

waiting-Consistent : Consistent waiting
unfolding count state_of find_process
waiting-Consistent zero t = ground arith
waiting-Consistent (suc pid) t = ground arith

mts_admit-Consistent_example : Consistent (mts_admit insertion true 8 waiting)
mts_admit-Consistent_example = mts_admit-Consistent insertion true 8 waiting waiting-Consistent
