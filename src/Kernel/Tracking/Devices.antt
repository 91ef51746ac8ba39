-- ===== src/Kernel/Tracking/Devices.antt =====
-- kernel/kernel.go: what the handlers of the IO devices leave known.
use tp_ssoo_1c.Kernel.Placement.Handlers.{set_ios-Keeps}
use tp_ssoo_1c.Kernel.Placement.Moves.{Keeps-Consistent}
use tp_ssoo_1c.Kernel.Placement.Devices.{
  device_absent, finished_found, taken, finished_absent, device_found,
}
use tp_ssoo_1c.Kernel.Api.{set_ios, has_device}
use tp_ssoo_1c.Kernel.Tracking.{
  Untouched, Tracked, waits, Untouched-Tracked, set_ios-Untouched, Untouched-refl,
  end_process-Untouched, Untouched-trans, set_mts-Tracked, remove_by_pid-Untouched,
  remove_blocked-Tracked, set_queue-Untouched, enqueue-Untouched,
}
use tp_ssoo_1c.Kernel.Placement.Disconnection.{
  kill_waiting-Consistent, kill_susp_ready-Consistent, kill_served-Consistent,
}
use tp_ssoo_1c.Kernel.State.{Kernel, Blocked}
use tp_ssoo_1c.Kernel.Io.{
  kill_susp_ready, remove_waiting, kill_waiting, handle_io_disconnected, take_waiting, recieve_io,
  kill_all, kill_served, take_blocked, drop_connection, get_io, register_io, wake_up, io_finished,
  handle_io_finished, first_waiting, remove_io,
}
use tp_ssoo_1c.Utils.Text.{Text}
use tp_ssoo_1c.Prelude.{
  ℕ, zero, suc, ◌≡◌, refl, sym, ◌∙◌, true, List, [], ◌∷◌, Option, none, some, inl, inr,
  Option-cases, Bool-cases, if-intro, arith, get_elem?,
}
use tp_ssoo_1c.Prelude.Exec.{◌>>=◌}
use tp_ssoo_1c.Kernel.Pcb.{exit, new, ready, exec, blocked, susp_blocked, susp_ready, State}
use tp_ssoo_1c.Kernel.Placement.{Consistent}

register_io-Untouched :
    (name ip port : Text) (k : Kernel) → Untouched k (register_io name ip port k)
register_io-Untouched name ip port k = elim (Option-cases (get_io name ip port k.available_ios)) [
  | inl e ↦ rw (e, register_io) (set_ios-Untouched _ k)
  | inr (io, e) ↦ rw (e, register_io) (Untouched-refl k)
]

waits-take_waiting :
    (name : Text) (pid : ℕ) (q : List Blocked) → waits pid (take_waiting name q).1 ≡ waits pid q
unfolding take_waiting
waits-take_waiting name pid [] = refl
waits-take_waiting name pid (b ∷ bs) = ground (arith, waits-take_waiting name pid bs)

pub recieve_io-Tracked :
    (name ip port : Text) (k : Kernel) → Tracked k → Tracked (recieve_io name ip port k).1
unfolding recieve_io
recieve_io-Tracked name ip port k t =
    let registered = Untouched-Tracked k _ (register_io-Untouched name ip port k) t in
    let q = (register_io name ip port k).mts_queue in
    elim (Option-cases ((take_waiting name q).0)) [
      | inl e ↦ rw (e, recieve_io) registered
      | inr (b, e) ↦
          rw (e, recieve_io)
            (Untouched-Tracked _ _ (set_ios-Untouched _ _) (
              set_mts-Tracked _ _ registered
                (λ pid h. registered.waiting pid (sym (waits-take_waiting name pid q) ∙ h))))
    ]

waits-take_blocked :
    (name : Text) (pid pid' : ℕ) (q : List Blocked)
    → waits pid' (take_blocked name pid q).1 ≡ true
    → waits pid' q ≡ true
unfolding take_blocked
waits-take_blocked name pid pid' [] h = h
waits-take_blocked name pid pid' (b ∷ bs) h = ground (arith, waits-take_blocked name pid pid' bs)

wake_up-Untouched :
    (o : Option State) (pid now : ℕ) (k : Kernel) → Untouched k (wake_up o pid now k)
wake_up-Untouched none pid now k = Untouched-refl k
wake_up-Untouched (some exit) pid now k = Untouched-refl k
wake_up-Untouched (some new) pid now k = Untouched-refl k
wake_up-Untouched (some ready) pid now k = Untouched-refl k
wake_up-Untouched (some exec) pid now k = Untouched-refl k
wake_up-Untouched (some susp_ready) pid now k = Untouched-refl k
wake_up-Untouched (some blocked) pid now k =
    Untouched-trans k _ _ (remove_by_pid-Untouched blocked pid k)
      (enqueue-Untouched ready now pid _)
wake_up-Untouched (some susp_blocked) pid now k =
    Untouched-trans k _ _ (remove_by_pid-Untouched susp_blocked pid k)
      (enqueue-Untouched susp_ready now pid _)

taken-Tracked : (name : Text) (pid : ℕ) (k : Kernel) → Tracked k → Tracked (taken name pid k)
taken-Tracked name pid k t =
    set_mts-Tracked _ k t
      (λ pid' h. t.waiting pid' (waits-take_blocked name pid pid' k.mts_queue h))

io_finished-Tracked :
    (name : Text) (pid now : ℕ) (k : Kernel) → Tracked k → Tracked (io_finished name pid now k).1
io_finished-Tracked name pid now k t = elim (Bool-cases ((take_blocked name pid k.mts_queue).0)) [
  | inl e ↦
      rw (finished_found name pid now k e)
        (Untouched-Tracked _ _ (wake_up-Untouched _ pid now _) (taken-Tracked name pid k t))
  | inr e ↦ rw (finished_absent name pid now k e) t
]

pub handle_io_finished-Tracked :
    (name ip port : Text) (pid now : ℕ) (k : Kernel)
    → Tracked k
    → Tracked (handle_io_finished name ip port pid now k).1
handle_io_finished-Tracked name ip port pid now k t =
    elim (Option-cases (get_io name ip port k.available_ios)) [
      | inl e ↦ rw (device_absent name ip port pid now k e) t
      | inr (io, e) ↦
          rw (device_found name ip port pid now io k e)
            (io_finished-Tracked name pid now _ (Untouched-Tracked k _ (set_ios-Untouched _ k) t))
    ]

kill_served-Tracked :
    (name : Text) (pid now : ℕ) (k : Kernel) → Tracked k → Tracked (kill_served name pid now k)
unfolding kill_served
kill_served-Tracked name pid now k t =
    if-intro Tracked _ _ _
      (Untouched-Tracked _ _ (end_process-Untouched pid now _) (remove_blocked-Tracked pid k t)) t

waits-remove_waiting :
    (name : Text) (pid : ℕ) (q : List Blocked)
    → waits pid (remove_waiting name q) ≡ true
    → waits pid q ≡ true
unfolding remove_waiting
waits-remove_waiting name pid [] h = h
waits-remove_waiting name pid (b ∷ bs) h = ground (arith, waits-remove_waiting name pid bs)

kill_waiting-Tracked :
    (name : Text) (now : ℕ) (k : Kernel) → Tracked k → Tracked (kill_waiting name now k)
unfolding kill_waiting
kill_waiting-Tracked name now k t = elim (Option-cases (first_waiting name k.mts_queue)) [
  | inl e ↦ rw (e, kill_waiting) t
  | inr (pid, e) ↦
      rw (e, kill_waiting)
        (Untouched-Tracked _ _ (end_process-Untouched pid now _) (
          set_mts-Tracked _ k t
            (λ pid h. t.waiting pid (waits-remove_waiting name pid k.mts_queue h))))
]

kill_susp_ready-Tracked :
    (rounds i now : ℕ) (k : Kernel) → Tracked k → Tracked (kill_susp_ready rounds i now k).1
unfolding kill_susp_ready
kill_susp_ready-Tracked zero i now k t = t
kill_susp_ready-Tracked (suc rounds) i now k t =
    elim (Option-cases (get_elem? k.susp_ready_queue i)) [
      | inl e ↦ rw (e, kill_susp_ready, ◌>>=◌) t
      | inr (pid, e) ↦
          rw (e, kill_susp_ready, ◌>>=◌)
            (kill_susp_ready-Tracked rounds (suc i) now _ (
              Untouched-Tracked k _
                (Untouched-trans k _ _ (set_queue-Untouched susp_ready _ k)
                  (end_process-Untouched pid now _))
                t))
    ]

-- Both invariants.
pub record Sound (k : Kernel) : Type 0 where
  pub placed : Consistent k
  pub tracked : Tracked k

kill_all-Sound : (name : Text) (now : ℕ) (k : Kernel) → Sound k → Sound (kill_all name now k).1
unfolding kill_all
kill_all-Sound name now k s =
    let c = kill_waiting-Consistent name now k s.placed s.tracked in
    let t = kill_waiting-Tracked name now k s.tracked in
    record {
      placed = kill_susp_ready-Consistent _ 0 now _ c;
      tracked = kill_susp_ready-Tracked _ 0 now _ t;
    }

drop_connection-Sound :
    (name ip port : Text) (now : ℕ) (k : Kernel)
    → Sound k
    → Sound (drop_connection name ip port now k).1
drop_connection-Sound name ip port now k s =
    let dropped : Sound (set_ios (remove_io name ip port k.available_ios) k) = record {
      placed = Keeps-Consistent k _ (set_ios-Keeps _ k) s.placed;
      tracked = Untouched-Tracked k _ (set_ios-Untouched _ k) s.tracked;
    } in
    elim (Bool-cases (has_device name (remove_io name ip port k.available_ios))) [
      | inl e ↦ rw (e, ◌>>=◌) dropped
      | inr e ↦ rw (e, ◌>>=◌) (kill_all-Sound name now _ dropped)
    ]

pub handle_io_disconnected-Sound :
    (name ip port : Text) (pid now : ℕ) (k : Kernel)
    → Sound k
    → Sound (handle_io_disconnected name ip port pid now k).1
unfolding handle_io_disconnected
handle_io_disconnected-Sound name ip port pid now k s =
    elim (Option-cases (get_io name ip port k.available_ios)) [
      | inl e ↦ rw (e, handle_io_disconnected, ◌>>=◌) s
      | inr (io, e) ↦
          rw (e, handle_io_disconnected, ◌>>=◌)
            (drop_connection-Sound name ip port now _ (record {
              placed = kill_served-Consistent name pid now k s.placed s.tracked;
              tracked = kill_served-Tracked name pid now k s.tracked;
            }))
    ]
