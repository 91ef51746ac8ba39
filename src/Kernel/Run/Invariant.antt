-- ===== src/Kernel/Run/Invariant.antt =====
-- kernel/: what holds of every kernel that the initial values lead to.
use tp_ssoo_1c.Kernel.Tracking.Longest.{Longest, get_cpu_with_longues_burst-Longest}
use tp_ssoo_1c.Kernel.Tracking.Choice.{unavailable-none}
use tp_ssoo_1c.Kernel.Shared.{is_cpu_available}
use tp_ssoo_1c.Kernel.Placement.Removals.{suspension_timeout-Consistent, dump_finished-Consistent}
use tp_ssoo_1c.Kernel.Tracking.Handlers.{create_process-Tracked}
use tp_ssoo_1c.Kernel.Tracking.{next-unknown}
use tp_ssoo_1c.Kernel.Tracking.Rounds.{
  lts_round-Tracked, mts_admit-Tracked, suspension_timeout-Tracked, dump_finished-Tracked,
}
use tp_ssoo_1c.Kernel.Placement.Schedulers.{lts_round-Consistent, mts_admit-Consistent}
use tp_ssoo_1c.Kernel.Placement.Creation.{create_process-Consistent}
use tp_ssoo_1c.Kernel.Placement.Disconnection.{known-state}
use tp_ssoo_1c.Kernel.Tracking.Choice.{sts_round-Returns, init_timers-Sound}
use tp_ssoo_1c.Kernel.Placement.{same_state, expected}
use tp_ssoo_1c.Kernel.Scheduler.Round.{sts_round}
use tp_ssoo_1c.Kernel.Tracking.Requests.{serve-Sound}
use tp_ssoo_1c.Kernel.Tracking.Devices.{Sound}
use tp_ssoo_1c.Kernel.Run.{
  Step, Reaches, here, later, answered, started, long_term, short_term, medium_term, timers,
  timeout, dumped,
}
use tp_ssoo_1c.Kernel.State.{Config, Kernel, find_process}
use tp_ssoo_1c.Utils.Text.{Text}
use tp_ssoo_1c.Kernel.Start.{start, globals, initial_process}
use tp_ssoo_1c.Kernel.Queues.{SortSlice, get_queue}
use tp_ssoo_1c.Kernel.Shared.{state_of, cpus_not_connected}
use tp_ssoo_1c.Prelude.{
  ℕ, ◌<◌, ◌≡◌, refl, ap, ◌∙◌, Bool, false, List, some, inl, inr, Option-cases, arith, lt→ltb,
  if◌then◌else◌, count, subst,
}
use tp_ssoo_1c.Prelude.Exec.{ok}
use tp_ssoo_1c.Kernel.Pcb.{State}

pub globals-Sound : (config : Config) → Sound (globals config)
unfolding count state_of find_process
globals-Sound config = record {
  placed = λ pid t. ground arith;
  tracked = record {
    numbered = λ pid. ground arith;
    total = refl;
    cpus = λ pid h. ground arith;
    waiting = λ pid h. ground arith;
  };
}

some-eq : (k k' : Kernel) → some k ≡ some k' → k ≡ k'
some-eq k k' h = cc

start-Sound :
    (exists : Text → Bool) (folder : Text) (args : List Text) (now : ℕ) (k k' : Kernel)
    → start exists folder args now k ≡ some k'
    → Sound k
    → Sound k'
unfolding start
start-Sound exists folder args now k k' h s =
    elim (Option-cases (initial_process exists folder args)) [
      | inl e ↦ absurd (cc (rw (e, start) at h))
      | inr ((path, size), e) ↦ subst Sound (some-eq _ k' (rw (e, start) at h)) (record {
        placed = create_process-Consistent path size now k s.placed (next-unknown k s.tracked);
        tracked = create_process-Tracked path size now k s.tracked;
      })
    ]

module _ (sorter : SortSlice) where
  pub Step-Sound : (k k' : Kernel) → Step sorter k k' → Sound k → Sound k'
  Step-Sound k _ (answered e r now _ h) s = serve-Sound e r now h k s
  Step-Sound k k' (started exists folder args now _ _ h) s =
      start-Sound exists folder args now k k' h s
  Step-Sound k _ (short_term interrupted accepted now _ h) s =
      (sts_round-Returns sorter interrupted accepted now k h s).1
  Step-Sound k _ (long_term created now _) s = record {
    placed = lts_round-Consistent sorter created now k s.placed;
    tracked = lts_round-Tracked sorter created now k s.tracked;
  }
  Step-Sound k _ (medium_term accepted now _) s = record {
    placed = mts_admit-Consistent sorter accepted now k s.placed;
    tracked = mts_admit-Tracked sorter accepted now k s.tracked;
  }
  Step-Sound k _ (timers _) s = init_timers-Sound k.mts_queue k s
  Step-Sound k _ (timeout pid accepted now _) s = record {
    placed = suspension_timeout-Consistent pid accepted now k s.placed;
    tracked = suspension_timeout-Tracked pid accepted now k s.tracked;
  }
  Step-Sound k _ (dumped pid success now _) s = record {
    placed = dump_finished-Consistent pid success now k s.placed;
    tracked = dump_finished-Tracked pid success now k s.tracked;
  }

  pub Reaches-Sound : (k k' : Kernel) → Reaches sorter k k' → Sound k → Sound k'
  Reaches-Sound k _ (here _) s = s
  Reaches-Sound k k'' (later _ k' _ r st) s = Step-Sound k' k'' st (Reaches-Sound k k' r s)

  -- In every kernel that the initial values lead to by requests, creations, scheduler rounds,
  -- timers and dumps that end, in any order and whatever the other programs answer, each PID
  -- that was given out is a process that stands once in the queue of its state and in no other
  -- queue, if every report of a CPU names a reason and a program counter that is not negative,
  -- and STS runs only with a CPU connected.
  pub Reaches-IsPlaced :
      (config : Config) (k : Kernel)
      → Reaches sorter (globals config) k
      → (pid : ℕ) → pid < k.next_pid
      → (s : State) × (state_of pid k ≡ some s)
        × ((t : State) → count pid (get_queue t k) ≡ (if same_state s t then 1 else 0))
  Reaches-IsPlaced config k r pid l =
      let s = Reaches-Sound _ k r (globals-Sound config) in
      let (st, e) = known-state pid k (s.tracked.numbered pid ∙ lt→ltb pid k.next_pid l) in
      (st, e, λ t. s.placed pid t ∙ ap (λ o. expected o t) e)

  -- In every kernel that the initial values lead to, a round of STS returns where a CPU is
  -- connected: it follows no nil pointer, whether a CPU is free or one is interrupted.
  pub Reaches-sts_round :
      (config : Config) (interrupted accepted : Bool) (now : ℕ) (k : Kernel)
      → Reaches sorter (globals config) k
      → cpus_not_connected k ≡ false
      → (sts_round sorter interrupted accepted now k).0 ≡ ok tt
  Reaches-sts_round config interrupted accepted now k r h =
      (sts_round-Returns sorter interrupted accepted now k h
        (Reaches-Sound _ k r (globals-Sound config))).0

  -- In every kernel that the initial values lead to, with a CPU connected and none free,
  -- `GetCPUWithLonguesBurst` returns one of the kernel's CPUs, and no CPU has more left of its
  -- burst: the CPU that STS interrupts is one with the longest burst.
  pub Reaches-get_cpu_with_longues_burst :
      (config : Config) (now : ℕ) (k : Kernel)
      → Reaches sorter (globals config) k
      → cpus_not_connected k ≡ false
      → is_cpu_available k ≡ false
      → Longest now k
  Reaches-get_cpu_with_longues_burst config now k r connected busy =
      get_cpu_with_longues_burst-Longest now k connected (unavailable-none k busy)
        ((Reaches-Sound _ k r (globals-Sound config)).tracked)
