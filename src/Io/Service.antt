-- ===== src/Io/Service.antt =====
-- io/io.go: the IO that a device is answered with is done and reported.
use tp_ssoo_1c.Utils.Text.RoundTrip.{split-pair, atoi_or_zero-itoa, atoi_or_zero-itoa_int}
use tp_ssoo_1c.Io.{Reply, Device, device_request, start_io, notify_kernel}
use tp_ssoo_1c.Prelude.{ℕ, ◌≡◌, true, List, [], ◌∷◌, ◌++◌, Option, some, arith}
use tp_ssoo_1c.Prelude.Int.{ℤ, pos}
use tp_ssoo_1c.Prelude.Exec.{ok}
use tp_ssoo_1c.Utils.Text.{Text, split, itoa, itoa_int}
use tp_ssoo_1c.Kernel.Server.{io_notify, io_finished, io_body, Endpoint, Request}

split-io_body :
    (pid : ℕ) (time : ℤ) → split b'|' (io_body pid time) ≡ itoa pid ∷ (itoa_int time ∷ [])
unfolding io_body
split-io_body pid time = split-pair b'|' pid time (ground arith) (λ e. ground arith)

module _ {S : Type 0} (post : Endpoint → Request → S → Option Reply × S) (ip port : Text) where
  -- The device once it has done the IO and reported its end.
  abbrev pub served : Text → ℕ → ℤ → S → List ℤ → Device S
  served name pid time s slept = record {
    kernel = (post io_finished (device_request post ip port name (itoa_int (pos pid))) s).1;
    assigned_pid = pid;
    slept = slept ++ (time ∷ []);
  }

  run_io-served :
      (name : Text) (vars : List Text) (pid : ℕ) (time : ℤ) (s : S) (slept : List ℤ)
      → vars ≡ itoa pid ∷ (itoa_int time ∷ [])
      → start_io post ip port name vars (record { kernel = s; assigned_pid = 0; slept = slept })
        ≡ (ok true, served name pid time s slept)
  run_io-served name vars pid time s slept e =
      rw (e, atoi_or_zero-itoa pid, atoi_or_zero-itoa_int time)

  -- A device whose kernel answers with the text of a PID and a time, negative or not, has that
  -- PID, sleeps for that time, reports the end of the IO of that PID and tries again.
  pub notify_kernel-io_body :
      (name : Text) (pid : ℕ) (time : ℤ) (s : S) (d : Device S)
      → post io_notify (device_request post ip port name (itoa d.assigned_pid)) d.kernel
        ≡ (some (record { status = 200; body = io_body pid time }), s)
      → notify_kernel post ip port name d ≡ (ok true, served name pid time s d.slept)
  unfolding notify_kernel
  notify_kernel-io_body name pid time s d h = rw (h) (
      run_io-served name (split b'|' (io_body pid time)) pid time s d.slept
        (split-io_body pid time))
