-- ===== src/Io/Completion.antt =====
-- io/io.go with kernel/kernel.go: the IO of a process that waits for a device, from the device's
-- request to its report.
use tp_ssoo_1c.Kernel.Placement.Devices.{
  handle_io_finished-Consistent, taken, device_found, finished_found,
}
use tp_ssoo_1c.Io.Service.{notify_kernel-io_body}
use tp_ssoo_1c.Kernel.Queues.{remove_by_pid}
use tp_ssoo_1c.Kernel.Api.{set_ios}
use tp_ssoo_1c.Kernel.Placement.Handlers.{set_ios-Keeps, set_mts-Keeps}
use tp_ssoo_1c.Kernel.Placement.Disconnection.{register_io-Keeps, recieve_io-Consistent}
use tp_ssoo_1c.Io.Kernel.{
  post_kernel, register-mts, reply_of, notify-served, finished-served, registered, get_io-set_disp,
  taken_found,
}
use tp_ssoo_1c.Kernel.Placement.{Consistent, state_of-remove_by_pid}
use tp_ssoo_1c.Kernel.Placement.Moves.{Keeps-trans, state_of-enqueue}
use tp_ssoo_1c.Kernel.Shared.{state_of}
use tp_ssoo_1c.Kernel.State.{IoConnection, Kernel, Blocked}
use tp_ssoo_1c.Kernel.Io.{
  recieve_io, register_io, take_waiting, get_io, set_disp, wake_up, take_blocked,
  handle_io_finished,
}
use tp_ssoo_1c.Prelude.{
  ℕ, ◌≡◌, refl, ap, sym, ◌∙◌, true, false, [], ◌∷◌, ◌++◌, Option, some, arith, ==_refl, subst,
}
use tp_ssoo_1c.Prelude.Exec.{ok}
use tp_ssoo_1c.Utils.Text.{Text, itoa}
use tp_ssoo_1c.Io.{Reply, Device, device_request, notify_kernel}
use tp_ssoo_1c.Kernel.Pcb.{ready, blocked}
use tp_ssoo_1c.Kernel.Server.{io_notify, is_nil, io_body, waiting_answer}

-- The kernel once it has given the IO of the process to the device.
abbrev given : Text → Text → Text → Kernel → Kernel
given name ip port k = record (register_io name ip port k) {
  available_ios = set_disp false name ip port (register_io name ip port k).available_ios;
  mts_queue = (take_waiting name (register_io name ip port k).mts_queue).1;
}

recieve_io-given :
    (name ip port : Text) (b : Blocked) (k : Kernel)
    → (take_waiting name (register_io name ip port k).mts_queue).0 ≡ some b
    → recieve_io name ip port k ≡ (some b, given name ip port k)
unfolding recieve_io
recieve_io-given name ip port b k h = ground arith

woken :
    (pid now : ℕ) (k : Kernel)
    → state_of pid k ≡ some blocked
    → state_of pid (wake_up (some blocked) pid now k) ≡ some ready
woken pid now k e =
    let still = state_of-remove_by_pid blocked pid pid k ∙ e in
    state_of-enqueue ready now pid pid (remove_by_pid blocked pid k).1
    ∙ rw (==_refl pid pid refl, still)

-- The report of a device that is connected, about a process that is BLOCKED.
reported-ready :
    (name ip port : Text) (pid now : ℕ) (io : IoConnection) (k : Kernel)
    → get_io name ip port k.available_ios ≡ some io
    → (take_blocked name pid k.mts_queue).0 ≡ true
    → state_of pid k ≡ some blocked
    → state_of pid (handle_io_finished name ip port pid now k).1 ≡ some ready
reported-ready name ip port pid now io k h g e =
    let k' = set_ios (set_disp true name ip port k.available_ios) k in
    let free = set_ios-Keeps (set_disp true name ip port k.available_ios) k in
    let out = set_mts-Keeps (take_blocked name pid k'.mts_queue).1 k' in
    let here : state_of pid (taken name pid k') ≡ some blocked =
      out.states pid ∙ free.states pid ∙ e in
    ap (state_of pid) (device_found name ip port pid now io k h ∙ finished_found name pid now k' g)
    ∙ ap (λ o. state_of pid (wake_up o pid now (taken name pid k'))) here
    ∙ woken pid now (taken name pid k') here

given-state :
    (name ip port : Text) (pid : ℕ) (k : Kernel)
    → state_of pid (given name ip port k) ≡ state_of pid k
given-state name ip port pid k =
    (Keeps-trans _ _ _ (register_io-Keeps name ip port k)
        (Keeps-trans _ _ _ (set_ios-Keeps _ _) (set_mts-Keeps _ _))).states
      pid

-- If every process of the kernel stands once in the queue of its state, and the first process
-- that waits for a device of this name is BLOCKED, then a device with a name and an address that
-- asks the kernel for an IO sleeps for the time of that process, after its report the process is
-- READY, and every process stands once in the queue of its state.
pub notify_kernel-ready :
    (later : Reply) (ip port name : Text) (now : ℕ) (b : Blocked) (d : Device Kernel)
    → is_nil ip ≡ false
    → is_nil name ≡ false
    → Consistent d.kernel
    → (take_waiting name d.kernel.mts_queue).0 ≡ some b
    → state_of b.process d.kernel ≡ some blocked
    → ((notify_kernel (post_kernel now later) ip port name d).0 ≡ ok true)
      × ((notify_kernel (post_kernel now later) ip port name d).1.slept ≡ d.slept ++ (b.time ∷ []))
      × (state_of b.process (notify_kernel (post_kernel now later) ip port name d).1.kernel
          ≡ some ready)
      × Consistent (notify_kernel (post_kernel now later) ip port name d).1.kernel
notify_kernel-ready later ip port name now b d hip hname c h e =
    let post = post_kernel now later in
    let k = d.kernel in
    let k' = given name ip port k in
    let pid = b.process in
    let waiting = ap (λ q. (take_waiting name q).0) (register-mts name ip port k) ∙ h in
    let got = recieve_io-given name ip port b k waiting in
    let answered : post io_notify (device_request post ip port name (itoa d.assigned_pid)) k
        ≡ (some (record { status = 200; body = io_body pid b.time }), k') =
      ap (λ o. (reply_of later o.0, o.1))
        (notify-served later ip port name (itoa d.assigned_pid) now k hip hname
          ∙ ap (λ (o : Option Blocked × Kernel). (ok (waiting_answer o.0), o.1)) got) in
    let all = notify_kernel-io_body post ip port name pid b.time k' d answered in
    let ended = finished-served later ip port name pid now k' hip hname in
    let (io, f) = registered name ip port k in
    let (io', f') = get_io-set_disp false name ip port io _ f in
    (
      ap (λ r. r.0) all,
      ap (λ r. r.1.slept) all,
      ap (λ r. state_of pid r.1.kernel) all
          ∙ ap (state_of pid) ended
          ∙ reported-ready name ip port pid now io' k' f' (taken_found name b _ waiting)
              (given-state name ip port pid k ∙ e),
      subst Consistent (sym (ap (λ r. r.1.kernel) all ∙ ended)) (
          handle_io_finished-Consistent name ip port pid now k' (
            subst (λ (o : Option Blocked × Kernel). Consistent o.1) got
              (recieve_io-Consistent name ip port k c))),
    )
