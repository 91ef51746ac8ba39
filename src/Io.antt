-- ===== src/Io.antt =====
-- io/io.go: an IO device. The kernel is a parameter: what it answers to a request, if the request
-- arrives at all, and how its state changes. The waiting times are noted in `slept`.
pub mod Service
pub mod Kernel
pub mod Completion
mod Tests
use tp_ssoo_1c.Prelude.{
  ℕ, zero, suc, Bool, true, false, List, [], ◌∷◌, ◌++◌, Option, none, some, ◌==◌, if◌then◌else◌,
  get_elem?,
}
use tp_ssoo_1c.Prelude.Int.{ℤ, pos, ◌+ℤ◌}
use tp_ssoo_1c.Prelude.Exec.{Exec, ok, ◌>>=◌, ◌>>◌, return, crash, get_state, modify}
use tp_ssoo_1c.Utils.Text.{Text, codes, split, atoi, atoi_or_zero, itoa}
use tp_ssoo_1c.Memory.Requests.{uint}
use tp_ssoo_1c.Kernel.Server.{Endpoint, Request}
use tp_ssoo_1c.Utils.Text.{itoa_int}
use tp_ssoo_1c.Kernel.Server.{io_notify, io_finished, io_disconnected}

pub record Reply : Type 0 where
  pub status : ℕ
  pub body : Text

pub record Device (S : Type 0) : Type 0 where
  pub kernel : S
  pub assigned_pid : ℕ
  pub slept : List ℤ

-- The arguments of `main` without the program's name: the number of the process and the names of its
-- instances. `none` is a start that is refused.
unfoldable pub arguments : List Text → Option (ℤ × List Text)
arguments [] = none
arguments (id ∷ []) = none
arguments (id ∷ name ∷ names) = elim (atoi id) [ none ↦ none | some n ↦ some (n, name ∷ names) ]

-- The port of the process with a number.
abbrev pub port_of : ℤ → ℤ → ℤ
port_of port_io id = port_io +ℤ id

abbrev pub D : Type 0 → Type 0 → Type 0
D S A = Exec (Device S) (Unit {0}) A

module _ {S : Type 0} where
  abbrev pub assign_pid : ℕ → Device S → Device S
  assign_pid pid d = record d { assigned_pid = pid }

  abbrev pub sleep : ℤ → Device S → Device S
  sleep duration d = record d { slept = d.slept ++ (duration ∷ []) }

  -- `vars[i]`
  abbrev pub variable : List Text → ℕ → D S Text
  variable vars i = elim (get_elem? vars i) [ none ↦ crash | some v ↦ return v ]

module _ {S : Type 0} (post : Endpoint → Request → S → Option Reply × S) (ip port : Text) where
  -- A request of the device with the name, about the PID.
  abbrev pub device_request : Text → Text → Request
  device_request name pid = record {
    method = codes "POST";
    query =
        (codes "ip", ip)
        ∷ ((codes "port", port) ∷ ((codes "name", name) ∷ ((codes "pid", pid) ∷ [])));
    instruction = none;
  }

  abbrev pub call : Endpoint → Request → D S (Option Reply)
  call e r d = (ok (post e r d.kernel).0, record d { kernel = (post e r d.kernel).1 })

  -- `notifyIOFinished` and `notifyIODisconnected`, which only log what is answered.
  abbrev pub notify_io_finished : Text → ℤ → D S (Unit {0})
  notify_io_finished name pid = do
    reply ← call io_finished (device_request name (itoa_int pid))
    return tt

  abbrev pub notify_io_disconnected : Text → D S (Unit {0})
  notify_io_disconnected name = do
    d ← get_state
    reply ← call io_disconnected (device_request name (itoa d.assigned_pid))
    return tt

  -- The IO itself.
  abbrev pub run_io : Text → ℤ → ℤ → D S Bool
  run_io name pid duration = do
    modify (assign_pid (uint pid))
    modify (sleep duration)
    notify_io_finished name pid
    return true

  abbrev pub start_io : Text → List Text → D S Bool
  start_io name vars = do
    pid ← variable vars 0
    duration ← variable vars 1
    run_io name (atoi_or_zero pid) (atoi_or_zero duration)

  -- What `notifyKernel` does with an answer: only one with the status 200 brings an IO.
  abbrev pub handle_reply : Text → Option Reply → D S Bool
  handle_reply name none = return true
  handle_reply name (some r) = do
    modify (assign_pid 0)
    if r.status == 200 then start_io name (split b'|' r.body) else return false

  -- `notifyKernel`: whether to try again.
  unfoldable pub notify_kernel : Text → D S Bool
  unfolding split atoi_or_zero
  notify_kernel name = do
    d ← get_state
    reply ← call io_notify (device_request name (itoa d.assigned_pid))
    handle_reply name reply

  -- `createKernelConnection` for a number of rounds: whether it has ended by then.
  unfoldable pub create_kernel_connection : ℕ → Text → D S Bool
  create_kernel_connection zero name = return false
  create_kernel_connection (suc rounds) name = do
    retry ← notify_kernel name
    elim retry [
      | true ↦ create_kernel_connection rounds name
      | false ↦ do notify_io_disconnected name; return true
    ]

  -- The loop over `instances` when the program is interrupted.
  unfoldable pub disconnect_all : List (Text × ℕ) → S → S
  disconnect_all [] s = s
  disconnect_all ((name, pid) ∷ instances) s =
      disconnect_all instances (post io_disconnected (device_request name (itoa pid)) s).1
