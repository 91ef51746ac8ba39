-- ===== src/Kernel/Placement/Devices.antt =====
-- kernel/kernel.go: handleIOFinished leaves every process in the queue of its state.
use tp_ssoo_1c.Prelude.{
  ℕ, ◌≡◌, refl, ◌∙◌, true, false, Option, none, some, Bool-cases, Option-cases, inl, inr, arith,
}
use tp_ssoo_1c.Prelude.Exec.{◌>>=◌}
use tp_ssoo_1c.Utils.Text.{Text}
use tp_ssoo_1c.Kernel.Pcb.{State, exit, new, ready, exec, blocked, susp_blocked, susp_ready}
use tp_ssoo_1c.Kernel.State.{Kernel, IoConnection}
use tp_ssoo_1c.Kernel.Queues.{enqueue, remove_by_pid}
use tp_ssoo_1c.Kernel.Shared.{state_of}
use tp_ssoo_1c.Kernel.Api.{set_ios}
use tp_ssoo_1c.Kernel.Io.{get_io, set_disp, take_blocked, wake_up, io_finished, handle_io_finished}
use tp_ssoo_1c.Kernel.Placement.{Consistent, state_of-remove_by_pid}
use tp_ssoo_1c.Kernel.Placement.Moves.{remove_by_pid-Pending, enqueue-Consistent, Keeps-Consistent}
use tp_ssoo_1c.Kernel.Placement.Handlers.{set_ios-Keeps, set_mts-Keeps}

-- From the queue of its state to another.
move-Consistent :
    (s t : State) (pid now : ℕ) (k : Kernel)
    → Consistent k
    → state_of pid k ≡ some s
    → Consistent (enqueue t now pid (remove_by_pid s pid k).1)
move-Consistent s t pid now k c e =
    enqueue-Consistent t s now pid _ (remove_by_pid-Pending s pid k c e)
      (state_of-remove_by_pid s pid pid k ∙ e)

wake_up-Consistent :
    (o : Option State) (pid now : ℕ) (k : Kernel)
    → Consistent k
    → state_of pid k ≡ o
    → Consistent (wake_up o pid now k)
wake_up-Consistent none pid now k c e = c
wake_up-Consistent (some exit) pid now k c e = c
wake_up-Consistent (some new) pid now k c e = c
wake_up-Consistent (some ready) pid now k c e = c
wake_up-Consistent (some exec) pid now k c e = c
wake_up-Consistent (some blocked) pid now k c e = move-Consistent blocked ready pid now k c e
wake_up-Consistent (some susp_blocked) pid now k c e =
    move-Consistent susp_blocked susp_ready pid now k c e
wake_up-Consistent (some susp_ready) pid now k c e = c

-- The kernel without the entry of the process in `MTSQueue`.
abbrev pub taken : Text → ℕ → Kernel → Kernel
taken name pid k = record k { mts_queue = (take_blocked name pid k.mts_queue).1 }

pub finished_absent :
    (name : Text) (pid now : ℕ) (k : Kernel)
    → (take_blocked name pid k.mts_queue).0 ≡ false
    → (io_finished name pid now k).1 ≡ k
unfolding io_finished
finished_absent name pid now k e = ground arith

pub finished_found :
    (name : Text) (pid now : ℕ) (k : Kernel)
    → (take_blocked name pid k.mts_queue).0 ≡ true
    → (io_finished name pid now k).1
      ≡ wake_up (state_of pid (taken name pid k)) pid now (taken name pid k)
unfolding io_finished
finished_found name pid now k e = ground arith

io_finished-Consistent :
    (name : Text) (pid now : ℕ) (k : Kernel)
    → Consistent k
    → Consistent (io_finished name pid now k).1
io_finished-Consistent name pid now k c =
    elim (Bool-cases ((take_blocked name pid k.mts_queue).0)) [
      | inl e ↦ rw (finished_found name pid now k e) (
          wake_up-Consistent (state_of pid (taken name pid k)) pid now (taken name pid k)
            (Keeps-Consistent k _ (set_mts-Keeps _ k) c) refl)
      | inr e ↦ rw (finished_absent name pid now k e) c
    ]

pub device_absent :
    (name ip port : Text) (pid now : ℕ) (k : Kernel)
    → get_io name ip port k.available_ios ≡ none
    → (handle_io_finished name ip port pid now k).1 ≡ k
unfolding handle_io_finished
device_absent name ip port pid now k e = rw (e, handle_io_finished, ◌>>=◌)

pub device_found :
    (name ip port : Text) (pid now : ℕ) (io : IoConnection) (k : Kernel)
    → get_io name ip port k.available_ios ≡ some io
    → (handle_io_finished name ip port pid now k).1
      ≡ (io_finished name pid now (set_ios (set_disp true name ip port k.available_ios) k)).1
unfolding handle_io_finished
device_found name ip port pid now io k e = rw (e, handle_io_finished, ◌>>=◌)

-- If every process stands once in the queue of its state and nowhere else, the same holds after a
-- device reports the end of an IO, for a known or an unknown device and for a process in any
-- state.
pub handle_io_finished-Consistent :
    (name ip port : Text) (pid now : ℕ) (k : Kernel)
    → Consistent k
    → Consistent (handle_io_finished name ip port pid now k).1
handle_io_finished-Consistent name ip port pid now k c =
    elim (Option-cases (get_io name ip port k.available_ios)) [
      | inl e ↦ rw (device_absent name ip port pid now k e) c
      | inr (io, e) ↦
          rw (device_found name ip port pid now io k e)
            (io_finished-Consistent name pid now _ (Keeps-Consistent k _ (set_ios-Keeps _ k) c))
    ]
