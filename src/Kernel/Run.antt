-- ===== src/Kernel/Run.antt =====
-- kernel/: the steps of the kernel, in any order: a request to an endpoint, the creation of the
-- first process, a round of a scheduler, a timer that runs out and a memory dump that ends. What the
-- other programs answer, and the time, are chosen by the step.
use tp_ssoo_1c.Kernel.Api.{dump_finished}
use tp_ssoo_1c.Kernel.Scheduler.{lts_round, mts_admit, suspension_timeout}
use tp_ssoo_1c.Kernel.Scheduler.Round.{sts_round, init_timers}
use tp_ssoo_1c.Kernel.Shared.{cpus_not_connected}
use tp_ssoo_1c.Kernel.Start.{start}
use tp_ssoo_1c.Utils.Text.{Text}
use tp_ssoo_1c.Kernel.Tracking.Requests.{IsServable}
use tp_ssoo_1c.Kernel.State.{Kernel}
use tp_ssoo_1c.Kernel.Queues.{SortSlice}
pub mod Invariant
pub mod Closing
mod Tests
use tp_ssoo_1c.Kernel.Server.{Endpoint, Request, serve}
use tp_ssoo_1c.Prelude.{ℕ, ◌≡◌, Bool, false, List, Option, some}

module _ (sorter : SortSlice) where
  pub data Step : Kernel → Kernel → Type 0 where
    -- A report of a CPU names a reason and a program counter that is not negative.
    answered :
        (e : Endpoint) (r : Request) (now : ℕ) (k : Kernel)
        → IsServable e r
        → Step k (serve e r now k).1
    started :
        (exists : Text → Bool) (folder : Text) (args : List Text) (now : ℕ) (k k' : Kernel)
        → start exists folder args now k ≡ some k'
        → Step k k'
    -- STS waits until a CPU is connected.
    short_term :
        (interrupted accepted : Bool) (now : ℕ) (k : Kernel)
        → cpus_not_connected k ≡ false
        → Step k (sts_round sorter interrupted accepted now k).1
    long_term : (created : Bool) (now : ℕ) (k : Kernel) → Step k (lts_round sorter created now k)
    medium_term :
        (accepted : Bool) (now : ℕ) (k : Kernel) → Step k (mts_admit sorter accepted now k)
    timers : (k : Kernel) → Step k (init_timers k.mts_queue k).1
    timeout :
        (pid : ℕ) (accepted : Bool) (now : ℕ) (k : Kernel)
        → Step k (suspension_timeout pid accepted now k)
    dumped :
        (pid : ℕ) (success : Bool) (now : ℕ) (k : Kernel) → Step k (dump_finished pid success now k)

  pub data Reaches : Kernel → Kernel → Type 0 where
    here : (k : Kernel) → Reaches k k
    later : (k k' k'' : Kernel) → Reaches k k' → Step k' k'' → Reaches k k''
