-- ===== src/Kernel/Placement/Handlers.antt =====
-- kernel/: every handler and scheduler round leaves each process in the queue of its state.
use tp_ssoo_1c.Prelude.Int.{pos, ℤ}
use tp_ssoo_1c.Utils.Text.{Text}
use tp_ssoo_1c.Prelude.{
  ◌<◌, ℕ, ◌≡◌, refl, ◌∙◌, Bool, true, false, List, [], Option, none, some, arith, if-intro,
}
use tp_ssoo_1c.Kernel.Pcb.{State, exit, blocked}
use tp_ssoo_1c.Kernel.State.{
  Kernel, Request, send, update_burst_estimation, IoConnection, Blocked, CpuConnection,
}
use tp_ssoo_1c.Kernel.Queues.{get_queue, contains_pid}
use tp_ssoo_1c.Kernel.Shared.{state_of, remove_from_state, free_cpu, terminate_process, end_process}
use tp_ssoo_1c.Kernel.Api.{
  add_blocked, block_process, set_ios, syscall_io, syscall_dump_memory, take_io, has_device,
}
use tp_ssoo_1c.Kernel.Placement.{Consistent, Keeps, expected, count-contains}
use tp_ssoo_1c.Kernel.Placement.Moves.{
  remove_from_state-Pending, state_of-remove_from_state, with_process-Keeps, enqueue-Consistent,
  Keeps-Pending, Keeps-Consistent, Keeps-trans,
}

-- What has the same queues and the same store.
pub same-Keeps :
    (k k' : Kernel)
    → ((t : State) → get_queue t k' ≡ get_queue t k)
    → k'.processes ≡ k.processes
    → Keeps k k'
unfolding state_of
same-Keeps k k' h e = record { queues = h; states = λ pid. rw e }

pub send-Keeps : (r : Request) (k : Kernel) → Keeps k (send r k)
send-Keeps r k = same-Keeps k (send r k) (λ t. ground arith) refl

pub free_cpu-Keeps : (pid : ℕ) (k : Kernel) → Keeps k (free_cpu pid k)
unfolding free_cpu
free_cpu-Keeps pid k = same-Keeps k (free_cpu pid k) (λ t. ground arith) refl

pub set_ios-Keeps : (ios : List IoConnection) (k : Kernel) → Keeps k (set_ios ios k)
set_ios-Keeps ios k = same-Keeps k (set_ios ios k) (λ t. ground arith) refl

pub set_mts-Keeps : (q : List Blocked) (k : Kernel) → Keeps k (record k { mts_queue = q })
set_mts-Keeps q k = same-Keeps k (record k { mts_queue = q }) (λ t. ground arith) refl

pub set_cpus-Keeps :
    (cpus : List CpuConnection) (k : Kernel) → Keeps k (record k { available_cpus = cpus })
set_cpus-Keeps cpus k = same-Keeps k (record k { available_cpus = cpus }) (λ t. ground arith) refl

pub update_burst_estimation-Keeps :
    (pid now : ℕ) (k : Kernel) → Keeps k (update_burst_estimation pid now k)
unfolding update_burst_estimation
update_burst_estimation-Keeps pid now k = with_process-Keeps pid _ k (λ p. refl) (λ p. refl)

pub terminate_process-Keeps : (pid : ℕ) (k : Kernel) → Keeps k (terminate_process pid k)
unfolding terminate_process
terminate_process-Keeps pid k =
    same-Keeps k (terminate_process pid k) (λ t. ground arith) (ground arith)

pub add_blocked-Keeps :
    (pid : ℕ) (name : Text) (time : ℤ) (working : Bool) (k : Kernel)
    → Keeps k (add_blocked pid name time working k)
unfolding add_blocked
add_blocked-Keeps pid name time working k =
    Keeps-trans k _ _
      (with_process-Keeps pid (λ p. record p { timer_running = false }) k (λ p. refl) (λ p. refl))
      (set_mts-Keeps _ _)

pub expected_pos : (o : Option State) (s : State) → 0 < expected o s → o ≡ some s
expected_pos none s h = elim h [ ]
expected_pos (some s') s h = ground arith

-- A process that stands in a queue has the state of that queue.
pub state_of_queued :
    (s : State) (pid : ℕ) (k : Kernel)
    → Consistent k
    → contains_pid pid (get_queue s k) ≡ true
    → state_of pid k ≡ some s
state_of_queued s pid k c h =
    expected_pos (state_of pid k) s (omega (arith, count-contains pid (get_queue s k) h, c pid s))

-- If every process stands once in the queue of its state and nowhere else, the same holds after a
-- process of the kernel is ended from any state.
pub end_process-Consistent :
    (s : State) (pid now : ℕ) (k : Kernel)
    → Consistent k
    → state_of pid k ≡ some s
    → Consistent (end_process pid now k)
unfolding end_process
end_process-Consistent s pid now k c e = Keeps-Consistent _ _ (terminate_process-Keeps pid _) (
    enqueue-Consistent exit s now pid _ (remove_from_state-Pending pid k c)
      (state_of-remove_from_state pid pid k ∙ e))

pub unblocked-Keeps :
    (pid now : ℕ) (k : Kernel) → Keeps k (update_burst_estimation pid now (free_cpu pid k))
unblocked-Keeps pid now k =
    Keeps-trans k _ _ (free_cpu-Keeps pid k) (update_burst_estimation-Keeps pid now _)

pub block_process-Consistent :
    (s : State) (pid now : ℕ) (k : Kernel)
    → Consistent k
    → state_of pid k ≡ some s
    → Consistent (block_process pid now k)
unfolding block_process
block_process-Consistent s pid now k c e =
    let keeps = unblocked-Keeps pid now (remove_from_state pid k).1 in
    enqueue-Consistent blocked s now pid _
      (Keeps-Pending pid _ _ keeps (remove_from_state-Pending pid k c))
      (keeps.states pid ∙ state_of-remove_from_state pid pid k ∙ e)

blocked_for_io-Consistent :
    (s : State) (pid : ℕ) (device : Text) (time : ℤ) (now : ℕ) (found : Bool)
    (ios : List IoConnection) (k : Kernel)
    → Consistent k
    → state_of pid k ≡ some s
    → Consistent (add_blocked pid device time found (block_process pid now (set_ios ios k)))
blocked_for_io-Consistent s pid device time now found ios k c e =
    let keeps = set_ios-Keeps ios k in
    Keeps-Consistent _ _ (add_blocked-Keeps pid device time found _) (
      block_process-Consistent s pid now (set_ios ios k) (Keeps-Consistent _ _ keeps c)
        (keeps.states pid ∙ e))

-- If every process stands once in the queue of its state and nowhere else, the same holds after
-- the IO syscall of a process of the kernel, on each of its paths: there is no such device, one
-- is free, none is free.
pub syscall_io-Consistent :
    (s : State) (pid : ℕ) (device : Text) (time : ℤ) (now : ℕ) (k : Kernel)
    → Consistent k
    → state_of pid k ≡ some s
    → Consistent (syscall_io pid device time now k)
unfolding syscall_io
syscall_io-Consistent s pid device time now k c e =
    let (found, ios) = take_io device k.available_ios in
    let waiting = blocked_for_io-Consistent s pid device time now found ios k c e in
    if-intro Consistent (has_device device k.available_ios) _ _
      (if-intro Consistent found _ _ (Keeps-Consistent _ _ (send-Keeps _ _) waiting) waiting)
      (end_process-Consistent s pid now k c e)

-- If every process stands once in the queue of its state and nowhere else, the same holds after
-- the DUMP_MEMORY syscall of a process of the kernel.
pub syscall_dump_memory-Consistent :
    (s : State) (pid now : ℕ) (k : Kernel)
    → Consistent k
    → state_of pid k ≡ some s
    → Consistent (syscall_dump_memory pid now k)
unfolding syscall_dump_memory
syscall_dump_memory-Consistent s pid now k c e =
    Keeps-Consistent _ _
      (Keeps-trans _ _ _ (add_blocked-Keeps pid [] (pos 0) true _) (send-Keeps _ _))
      (block_process-Consistent s pid now k c e)
