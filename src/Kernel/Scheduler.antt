-- ===== src/Kernel/Scheduler.antt =====
-- kernel/scheduler/scheduler.go: one round of each scheduler's loop. Where the source waits on a
-- channel, the round ends. The answers of the other programs are arguments.
pub mod Round
use tp_ssoo_1c.Prelude.{
  ℕ, Bool, true, false, ◌&&◌, not, List, [], ◌∷◌, Option, none, some, ltb, if◌then◌else◌,
}
use tp_ssoo_1c.Utils.Text.{Text, text_eq}
use tp_ssoo_1c.Kernel.Pcb.{State, exit, new, ready, exec, blocked, susp_blocked, susp_ready}
use tp_ssoo_1c.Kernel.State.{
  Kernel, CpuConnection, Blocked, Algorithm, IngressAlgorithm, dispatch, send, find_process,
  with_process, tiempo_restante_de_rafaga, remove_blocked_by_pid,
}
use tp_ssoo_1c.Kernel.Queues.{
  SortBy, SortSlice, size, estimated_burst, no_sort, enqueue, search_queue, dequeue, remove_by_pid,
}
use tp_ssoo_1c.Kernel.Shared.{try_inititialize_process, state_of, remove_from_state}
use tp_ssoo_1c.Kernel.Api.{request_suspend, request_unsuspend}

-- The switches that set `sortBy`.
abbrev pub ingress_sort : IngressAlgorithm → SortBy
ingress_sort IngressAlgorithm.fifo = no_sort
ingress_sort IngressAlgorithm.pmcp = size

abbrev pub scheduler_sort : Algorithm → SortBy
scheduler_sort Algorithm.fifo = no_sort
scheduler_sort Algorithm.sjf = estimated_burst
scheduler_sort Algorithm.srt = estimated_burst

unfoldable pub should_try_interrupt : Kernel → Bool
should_try_interrupt k = elim k.config.scheduler_algorithm [ Algorithm.srt ↦ true | _ ↦ false ]

-- What is left of the burst of a CPU's process; a CPU with no process is a nil dereference, `none`.
abbrev pub cpu_remaining : ℕ → Kernel → CpuConnection → Option ℕ
cpu_remaining now k c = elim c.process [
  | none ↦ none
  | some pid ↦ elim (find_process pid k.processes) [
    | none ↦ none
    | some p ↦ some (tiempo_restante_de_rafaga now p)
  ]
]

-- `cpu.Process = process` for the CPU with this identifier. The source writes through the pointer of
-- the CPU: where an identifier was registered twice, the CPU here is the first one with it.
unfoldable pub assign_cpu : Text → Option ℕ → List CpuConnection → List CpuConnection
assign_cpu id p [] = []
assign_cpu id p (c ∷ cs) =
    if text_eq (c.id) id then record c { process = p } ∷ cs else c ∷ assign_cpu id p cs

abbrev pub set_cpu : Text → Option ℕ → Kernel → Kernel
set_cpu id p k = record k { available_cpus = assign_cpu id p k.available_cpus }

abbrev is_exit : Option State → Bool
is_exit none = false
is_exit (some s) = elim s [ exit ↦ true | _ ↦ false ]

abbrev pc_of : ℕ → Kernel → ℕ
pc_of pid k = elim (find_process pid k.processes) [ none ↦ 0 | some p ↦ p.pcb.pc ]

-- `sendToExecute` up to the request to the CPU.
unfoldable pub start_on_cpu : ℕ → Text → ℕ → Kernel → Kernel
start_on_cpu pid cpu now k =
    let k' = set_cpu cpu (some pid) (enqueue exec now pid k) in
    send (dispatch cpu pid (pc_of pid k'))
      (with_process pid (λ p. record p { start_time = now }) k')

-- The part of `sendToExecute` for a CPU that refuses: the process goes back to READY.
unfoldable pub undo_start : ℕ → Text → ℕ → Kernel → Kernel
undo_start pid cpu now k =
    let (removed, k') = remove_from_state pid k in
    elim removed [ none ↦ k' | some p ↦ set_cpu cpu none (enqueue ready now pid k') ]

unfoldable pub send_to_execute : ℕ → Text → Bool → ℕ → Kernel → Kernel
send_to_execute pid cpu accepted now k =
    let started = start_on_cpu pid cpu now k in
    let refused = undo_start pid cpu now started in
    if is_exit (state_of pid k) then k else if accepted then started else refused

-- `interrupt`: whether the process at the head of READY is to preempt a CPU with this remaining burst.
unfoldable pub should_preempt : Kernel → ℕ → ℕ → Bool
should_preempt k pid remaining = elim (find_process pid k.processes) [
  | none ↦ false
  | some p ↦ ltb p.estimated_burst remaining
]

module _ (sorter : SortSlice) where
  -- A round of `STS` with a free CPU.
  unfoldable pub sts_dispatch : Text → Bool → ℕ → Kernel → Kernel
  sts_dispatch cpu accepted now k =
      let (next, k') = dequeue sorter ready (scheduler_sort k.config.scheduler_algorithm) k in
      elim next [ none ↦ k' | some pid ↦ send_to_execute pid cpu accepted now k' ]

  -- A round of `STS` that preempts a CPU, for the head of READY, after the CPU has answered the
  -- interruption.
  unfoldable pub sts_preempt : Text → ℕ → Bool → ℕ → Kernel → Kernel
  sts_preempt cpu pid accepted now k =
      let (removed, k') = remove_by_pid ready pid k in
      elim removed [ none ↦ k' | some p ↦ send_to_execute pid cpu accepted now k' ]

  -- A round of `LTS` in which SUSP_READY is empty.
  unfoldable pub lts_round : Bool → ℕ → Kernel → Kernel
  lts_round created now k =
      let (next, k') = search_queue sorter new (ingress_sort k.config.ready_ingress_algorithm) k in
      elim next [ none ↦ k' | some pid ↦ (try_inititialize_process pid created now k').1 ]

  -- One pass of the inner loop of `MTS`: a process that memory takes back goes to READY, else it
  -- goes to the end of SUSP_READY.
  unfoldable pub mts_admit : Bool → ℕ → Kernel → Kernel
  mts_admit accepted now k =
      let (next, k') =
        dequeue sorter susp_ready (ingress_sort k.config.ready_ingress_algorithm) k in
      elim next [
        | none ↦ k'
        | some pid ↦
            let (taken, asked) = request_unsuspend pid accepted k' in
            let back = record asked { mts_queue = remove_blocked_by_pid pid asked.mts_queue } in
            if taken then enqueue ready now pid back else enqueue susp_ready now pid asked
      ]

abbrev is_blocked : Option State → Bool
is_blocked none = false
is_blocked (some s) = elim s [ blocked ↦ true | _ ↦ false ]

abbrev timer_idle : ℕ → Kernel → Bool
timer_idle pid k = elim (find_process pid k.processes) [
  | none ↦ false
  | some p ↦ not p.timer_running
]

-- `shouldInitTimer`
unfoldable pub should_init_timer : Blocked → Kernel → Bool
should_init_timer b k =
    timer_idle b.process k && is_blocked (state_of b.process k) && not b.dump_memory

-- The end of `sendToWait`, once the timer has run out.
unfoldable pub suspension_timeout : ℕ → Bool → ℕ → Kernel → Kernel
suspension_timeout pid accepted now k =
    let (removed, k') = remove_by_pid blocked pid k in
    let moved =
      with_process pid (λ p. record p { timer_running = false })
        (enqueue susp_blocked now pid k') in
    let suspended = request_suspend pid accepted moved in
    if is_blocked (state_of pid k) then elim removed [ none ↦ k' | some p ↦ suspended ] else k
