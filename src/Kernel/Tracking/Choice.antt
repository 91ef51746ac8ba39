-- ===== src/Kernel/Tracking/Choice.antt =====
-- kernel/scheduler/scheduler.go: the rounds of STS never follow a nil pointer, and the timers.
use tp_ssoo_1c.Kernel.Tracking.Rounds.{sts_dispatch-Tracked, sts_preempt-Tracked}
use tp_ssoo_1c.Kernel.Placement.Rounds.{Rearranged-Consistent, search_queue-Rearranged}
use tp_ssoo_1c.Kernel.Placement.Schedulers.{sts_dispatch-Consistent, sts_preempt-Consistent}
use tp_ssoo_1c.Kernel.Placement.Moves.{Keeps-Consistent, with_process-Keeps}
use tp_ssoo_1c.Kernel.Tracking.Devices.{Sound}
use tp_ssoo_1c.Kernel.Queues.{SortSlice, SortBy, search_queue}
use tp_ssoo_1c.Kernel.Scheduler.{
  cpu_remaining, scheduler_sort, should_try_interrupt, should_init_timer,
}
use tp_ssoo_1c.Kernel.Tracking.{
  held, is_known, Tracked, SortSlice, search_queue-Untouched, Untouched-Tracked,
  with_process-Untouched,
}
use tp_ssoo_1c.Kernel.State.{
  CpuConnection, Kernel, Process, tiempo_restante_de_rafaga, find_process, with_process, Blocked,
}
use tp_ssoo_1c.Kernel.Shared.{
  first_idle, state_of, cpus_not_connected, get_available_cpu, is_cpu_available, K,
}
use tp_ssoo_1c.Kernel.Scheduler.Round.{
  longest_burst, get_cpu_with_longues_burst, init_timers, with_longest, try_interrupt, with_cpu,
  sts_round, is_interruptible,
}
use tp_ssoo_1c.Prelude.{
  ℕ, ◌≡◌, refl, ap, sym, ◌∙◌, Bool, true, false, ◌&&◌, List, [], ◌∷◌, Option, none, some, inl, inr,
  Option-cases, Bool-cases, arith, ltb, if◌then◌else◌, if-intro, List-cases,
}
use tp_ssoo_1c.Prelude.Exec.{◌>>=◌, ok}
use tp_ssoo_1c.Kernel.Pcb.{ready}

known-process :
    (pid : ℕ) (k : Kernel)
    → is_known pid k ≡ true
    → (p : Process) × (find_process pid k.processes ≡ some p)
unfolding state_of
known-process pid k h = elim (Option-cases (find_process pid k.processes)) [
  | inl e ↦ absurd (ground arith)
  | inr f ↦ f
]

-- A CPU that has a process which the kernel knows has a remaining burst.
pub remaining :
    (now pid : ℕ) (k : Kernel) (c : CpuConnection)
    → c.process ≡ some pid
    → is_known pid k ≡ true
    → (b : ℕ) × (cpu_remaining now k c ≡ some b)
remaining now pid k c e h =
    let (p, f) = known-process pid k h in
    (tiempo_restante_de_rafaga now p, rw (e, f, cpu_remaining))

pub busy-process :
    (c : CpuConnection) (cs : List CpuConnection)
    → first_idle (c ∷ cs) ≡ none
    → (pid : ℕ) × (c.process ≡ some pid) × (first_idle cs ≡ none)
unfolding first_idle
busy-process c cs h = elim (Option-cases c.process) [
  | inl e ↦ absurd (ground arith)
  | inr (pid, e) ↦ (pid, e, ground arith)
]

pub held-first :
    (pid : ℕ) (c : CpuConnection) (cs : List CpuConnection)
    → c.process ≡ some pid
    → held pid (c ∷ cs) ≡ true
held-first pid c cs e = ground arith

pub held-rest :
    (pid : ℕ) (c : CpuConnection) (cs : List CpuConnection)
    → held pid cs ≡ true
    → held pid (c ∷ cs) ≡ true
held-rest pid c cs h = ground arith

abbrev pub AllKnown : List CpuConnection → Kernel → Type 0
AllKnown cs k = (pid : ℕ) → held pid cs ≡ true → is_known pid k ≡ true

-- One comparison of the loop.
pub longest-step :
    (now b r pid : ℕ) (k : Kernel) (best c : CpuConnection) (cs : List CpuConnection)
    → c.process ≡ some pid
    → cpu_remaining now k best ≡ some b
    → cpu_remaining now k c ≡ some r
    → longest_burst now k best (c ∷ cs) ≡ longest_burst now k (if ltb b r then c else best) cs
unfolding longest_burst
longest-step now b r pid k best c cs e f g = ground arith

longest-some :
    (now b : ℕ) (k : Kernel) (best : CpuConnection) (cs : List CpuConnection)
    → cpu_remaining now k best ≡ some b
    → first_idle cs ≡ none
    → AllKnown cs k
    → (c : CpuConnection) × (longest_burst now k best cs ≡ some c)
unfolding longest_burst
longest-some now b k best [] e idle known = (best, refl)
longest-some now b k best (c ∷ cs) e idle known =
    let (pid, has, rest) = busy-process c cs idle in
    let (r, g) = remaining now pid k c has (known pid (held-first pid c cs has)) in
    let more : AllKnown cs k = λ pid h. known pid (held-rest pid c cs h) in
    elim (Bool-cases (ltb b r)) [
      | inl longer ↦
          let (d, f) = longest-some now r k c cs g rest more in
          (d, longest-step now b r pid k best c cs has e g ∙ rw longer f)
      | inr shorter ↦
          let (d, f) = longest-some now b k best cs e rest more in
          (d, longest-step now b r pid k best c cs has e g ∙ rw shorter f)
    ]

pub get_cpu-first :
    (now : ℕ) (k : Kernel) (c : CpuConnection) (cs : List CpuConnection)
    → k.available_cpus ≡ c ∷ cs
    → get_cpu_with_longues_burst now k ≡ longest_burst now k c (c ∷ cs)
unfolding get_cpu_with_longues_burst
get_cpu-first now k c cs e =
    ap
      (λ (l : List CpuConnection). elim l as (λ _. Option CpuConnection) [
        | [] ↦ none
        | c ∷ cs ↦ longest_burst now k c (c ∷ cs)
      ])
      e

get_cpu-some :
    (now : ℕ) (k : Kernel)
    → cpus_not_connected k ≡ false
    → first_idle k.available_cpus ≡ none
    → Tracked k
    → (c : CpuConnection) × (get_cpu_with_longues_burst now k ≡ some c)
unfolding cpus_not_connected
get_cpu-some now k h idle t = elim (List-cases k.available_cpus) [
  | inl e ↦ absurd (ground arith)
  | inr (c, cs, e) ↦
      let some_idle : first_idle (c ∷ cs) ≡ none = ap first_idle (sym e) ∙ idle in
      let known : AllKnown (c ∷ cs) k = λ pid g. t.cpus pid (ap (held pid) e ∙ g) in
      let (pid, has, rest) = busy-process c cs some_idle in
      let (b, f) = remaining now pid k c has (known pid (held-first pid c cs has)) in
      let (d, g) = longest-some now b k c (c ∷ cs) f some_idle known in
      (d, get_cpu-first now k c cs e ∙ g)
]

available-some :
    (k : Kernel)
    → is_cpu_available k ≡ true
    → cpus_not_connected k ≡ false
    → (c : CpuConnection) × (get_available_cpu k ≡ some c)
unfolding get_available_cpu is_cpu_available
available-some k h n = elim (Option-cases (first_idle k.available_cpus)) [
  | inl e ↦ absurd (ground arith)
  | inr f ↦ f
]

pub unavailable-none :
    (k : Kernel) → is_cpu_available k ≡ false → first_idle k.available_cpus ≡ none
unfolding is_cpu_available
unavailable-none k h = ground arith

-- The code returns and leaves a sound kernel.
abbrev pub Returns : K (Unit {0}) → Kernel → Type 0
Returns m k = ((m k).0 ≡ ok tt) × Sound (m k).1

module _ (sorter : SortSlice) where
  interrupt-Returns :
      (c : CpuConnection) (pid : ℕ) (interrupted accepted : Bool) (now : ℕ) (k : Kernel)
      → Sound k
      → Returns (with_longest sorter (some c) pid interrupted accepted now) k
  interrupt-Returns c pid interrupted accepted now k s =
      elim (Bool-cases (is_interruptible now k pid c && interrupted)) [
        | inl e ↦
            rw (e, ◌>>=◌)
              (
                refl,
                record {
                  placed = sts_preempt-Consistent sorter c.id pid accepted now k s.placed;
                  tracked = sts_preempt-Tracked sorter c.id pid accepted now k s.placed s.tracked;
                },
              )
        | inr e ↦ rw (e, ◌>>=◌) (refl, s)
      ]

  searched-Sound : (by : SortBy) (k : Kernel) → Sound k → Sound (search_queue sorter ready by k).1
  searched-Sound by k s = record {
    placed = Rearranged-Consistent k _ (search_queue-Rearranged sorter ready by k) s.placed;
    tracked = Untouched-Tracked k _ (search_queue-Untouched sorter ready by k) s.tracked;
  }

  try_interrupt-Returns :
      (interrupted accepted : Bool) (now : ℕ) (k : Kernel)
      → cpus_not_connected k ≡ false
      → first_idle k.available_cpus ≡ none
      → Sound k
      → Returns (try_interrupt sorter interrupted accepted now) k
  unfolding cpus_not_connected
  try_interrupt-Returns interrupted accepted now k n idle s =
      let by = scheduler_sort k.config.scheduler_algorithm in
      let u = search_queue-Untouched sorter ready by k in
      let s' = searched-Sound by k s in
      elim (Option-cases ((search_queue sorter ready by k).0)) [
        | inl e ↦ rw (e, ◌>>=◌) (refl, s')
        | inr (pid, e) ↦
            let (c, f) =
              get_cpu-some now (search_queue sorter ready by k).1
                (ap
                    (λ (l : List CpuConnection). elim l as (λ _. Bool) [
                      | [] ↦ true
                      | c ∷ cs ↦ false
                    ])
                    u.cpus
                  ∙ n)
                (ap first_idle u.cpus ∙ idle) s'.tracked in
            rw (e, ◌>>=◌) (rw f (interrupt-Returns c pid interrupted accepted now _ s'))
      ]

  dispatched-Returns :
      (c : CpuConnection) (accepted : Bool) (now : ℕ) (k : Kernel)
      → Sound k
      → Returns (with_cpu sorter (some c) accepted now) k
  dispatched-Returns c accepted now k s = (
    refl,
    record {
      placed = sts_dispatch-Consistent sorter c.id accepted now k s.placed;
      tracked = sts_dispatch-Tracked sorter c.id accepted now k s.placed s.tracked;
    },
  )

  -- x
  pub sts_round-Returns :
      (interrupted accepted : Bool) (now : ℕ) (k : Kernel)
      → cpus_not_connected k ≡ false
      → Sound k
      → Returns (sts_round sorter interrupted accepted now) k
  unfolding sts_round
  sts_round-Returns interrupted accepted now k n s = elim (Bool-cases (is_cpu_available k)) [
    | inl e ↦ let (c, f) = available-some k e n in rw (e, f) (dispatched-Returns c accepted now k s)
    | inr e ↦ elim (Bool-cases (should_try_interrupt k)) [
      | inl g ↦
          rw (e, g) (try_interrupt-Returns interrupted accepted now k n (unavailable-none k e) s)
      | inr g ↦ rw (e, g) (refl, s)
    ]
  ]

timer-Sound :
    (pid : ℕ) (k : Kernel)
    → Sound k
    → Sound (with_process pid (λ p. record p { timer_running = true }) k)
timer-Sound pid k s = record {
  placed = Keeps-Consistent k _ (with_process-Keeps pid _ k (λ p. refl) (λ p. refl)) s.placed;
  tracked = Untouched-Tracked k _ (with_process-Untouched pid _ k (λ p. refl)) s.tracked;
}

pub init_timers-Sound : (bs : List Blocked) (k : Kernel) → Sound k → Sound (init_timers bs k).1
unfolding init_timers
init_timers-Sound [] k s = s
init_timers-Sound (b ∷ bs) k s =
    init_timers-Sound bs _
      (if-intro Sound (should_init_timer b k) _ _ (timer-Sound b.process k s) s)
