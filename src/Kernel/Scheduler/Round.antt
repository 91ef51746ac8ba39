-- ===== src/Kernel/Scheduler/Round.antt =====
-- kernel/scheduler/scheduler.go: a whole round of STS with its choice of a CPU, and the timers that
-- MTS starts. A nil pointer that is followed is a panic.
use tp_ssoo_1c.Kernel.Scheduler.{
  should_init_timer, cpu_remaining, with_process, sts_dispatch, sts_preempt, should_preempt,
  scheduler_sort, should_try_interrupt,
}
use tp_ssoo_1c.Kernel.Queues.{SortSlice, search_queue, dequeue}
use tp_ssoo_1c.Kernel.Shared.{K, lift, is_cpu_available, get_available_cpu}
use tp_ssoo_1c.Kernel.State.{Blocked, Kernel, CpuConnection, with_process}
use tp_ssoo_1c.Prelude.{
  ℕ, Bool, true, false, ◌&&◌, List, [], ◌∷◌, Option, none, some, ltb, if◌then◌else◌,
}
use tp_ssoo_1c.Prelude.Exec.{◌>>=◌, return, crash, get_state, modify}
use tp_ssoo_1c.Kernel.Pcb.{ready}

-- The loop of `GetCPUWithLonguesBurst`; `none` is a CPU with no process whose burst is read.
unfoldable pub longest_burst :
    ℕ → Kernel → CpuConnection → List CpuConnection → Option CpuConnection
longest_burst now k best [] = some best
longest_burst now k best (c ∷ cs) = elim (c.process) [
  | none ↦ longest_burst now k best cs
  | some pid ↦ elim (cpu_remaining now k best) [
    | none ↦ none
    | some longest ↦ elim (cpu_remaining now k c) [
      | none ↦ none
      | some burst ↦ longest_burst now k (if ltb longest burst then c else best) cs
    ]
  ]
]

-- `GetCPUWithLonguesBurst`: it starts with the first CPU, which it also compares with itself.
unfoldable pub get_cpu_with_longues_burst : ℕ → Kernel → Option CpuConnection
unfolding longest_burst
get_cpu_with_longues_burst now k = elim k.available_cpus [
  | [] ↦ none
  | c ∷ cs ↦ longest_burst now k c (c ∷ cs)
]

-- A process that goes to a CPU that is nil.
abbrev pub to_no_cpu : Option ℕ → K (Unit {0})
to_no_cpu none = return tt
to_no_cpu (some pid) = crash

-- What is left of the burst of the CPU's process, if it has one.
abbrev pub is_interruptible : ℕ → Kernel → ℕ → CpuConnection → Bool
is_interruptible now k pid c = elim (cpu_remaining now k c) [
  | none ↦ false
  | some remaining ↦ should_preempt k pid remaining
]

-- The first loop of `MTS`: the timers that are started, and the processes whose timer runs.
unfoldable pub init_timers : List Blocked → Kernel → List Blocked × Kernel
init_timers [] k = ([], k)
init_timers (b ∷ bs) k =
    let starts = should_init_timer b k in
    let k' =
      if starts then with_process b.process (λ p. record p { timer_running = true }) k else k in
    let rest = init_timers bs k' in ((if starts then b ∷ rest.0 else rest.0), rest.1)

module _ (sorter : SortSlice) where
  -- The part of a round with a free CPU, or with none connected at all.
  abbrev pub with_cpu : Option CpuConnection → Bool → ℕ → K (Unit {0})
  with_cpu (some c) accepted now = modify (sts_dispatch sorter c.id accepted now)
  with_cpu none accepted now = do
    k ← get_state
    next ← lift (dequeue sorter ready (scheduler_sort k.config.scheduler_algorithm))
    to_no_cpu next

  -- The interruption of the CPU with the longest burst, for the process at the head of READY.
  abbrev pub with_longest : Option CpuConnection → ℕ → Bool → Bool → ℕ → K (Unit {0})
  with_longest none pid interrupted accepted now = crash
  with_longest (some c) pid interrupted accepted now = do
    k ← get_state
    if is_interruptible now k pid c && interrupted
        then modify (sts_preempt sorter c.id pid accepted now)
        else return tt

  abbrev pub try_interrupt : Bool → Bool → ℕ → K (Unit {0})
  try_interrupt interrupted accepted now = do
    k ← get_state
    next ← lift (search_queue sorter ready (scheduler_sort k.config.scheduler_algorithm))
    elim next [
      | none ↦ return tt
      | some pid ↦ do
        k' ← get_state
        with_longest (get_cpu_with_longues_burst now k') pid interrupted accepted now
    ]

  abbrev pub sts_choice : Kernel → Bool → Bool → ℕ → K (Unit {0})
  sts_choice k interrupted accepted now =
      if is_cpu_available k
      then with_cpu (get_available_cpu k) accepted now
      else if should_try_interrupt k
      then try_interrupt interrupted accepted now
      else return tt

  -- A round of `STS`: whether the CPU answers the interruption, and whether it accepts the process.
  unfoldable pub sts_round : Bool → Bool → ℕ → K (Unit {0})
  sts_round interrupted accepted now = do k ← get_state; sts_choice k interrupted accepted now
