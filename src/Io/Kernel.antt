-- ===== src/Io/Kernel.antt =====
-- io/io.go with kernel/kernel.go: a device whose requests the kernel's handlers serve.
use tp_ssoo_1c.Memory.Requests.{uint}
use tp_ssoo_1c.Utils.Text.RoundTrip.{itoa_int-some, atoi-itoa_int}
use tp_ssoo_1c.Kernel.State.{Kernel, IoConnection, Blocked}
use tp_ssoo_1c.Kernel.Io.{
  take_waiting, get_io, take_blocked, set_disp, register_io, create_io_connection, same_io,
  handle_io_finished, recieve_io,
}
use tp_ssoo_1c.Prelude.{
  ℕ, ◌≡◌, refl, ap, ◌∙◌, Bool, true, false, List, [], ◌∷◌, ◌++◌, Option, none, some, ==_refl, inl,
  inr, Bool-cases, Option-cases, arith,
}
use tp_ssoo_1c.Prelude.Int.{ℤ, pos}
use tp_ssoo_1c.Prelude.Exec.{Outcome, ok, err, panic, ◌>>=◌, ◌>>◌, fail_if, return, throw}
use tp_ssoo_1c.Utils.Text.{Text, codes, text_eq, itoa_int}
use tp_ssoo_1c.Io.{Reply, device_request, return, uint}
use tp_ssoo_1c.Kernel.Shared.{K, Status, bad_request, not_found, method_not_allowed, lift}
use tp_ssoo_1c.Kernel.Server.{
  Response, Request, Endpoint, Code, status_ok, conflict, teapot, io_notify, io_finished, serve,
  recieve_io_request, io_finished_request, is_nil, waiting_answer, reported_pid, answer, number,
  required,
}

abbrev pub status_of : Code → ℕ
status_of status_ok = 200
status_of conflict = 409
status_of teapot = 418

abbrev pub error_of : Status → ℕ
error_of bad_request = 400
error_of not_found = 404
error_of method_not_allowed = 405

-- What a client receives: the text of an error is not kept, a panic breaks the connection, and
-- `later` is what a device receives that has to wait.
abbrev pub reply_of : Reply → Outcome Status (Option Response) → Option Reply
reply_of later (ok none) = some later
reply_of later (ok (some r)) = some (record { status = status_of r.status; body = r.body })
reply_of later (err e) = some (record { status = error_of e; body = [] })
reply_of later panic = none

abbrev pub post_kernel : ℕ → Reply → Endpoint → Request → Kernel → Option Reply × Kernel
post_kernel now later e r k = (reply_of later (serve e r now k).0, (serve e r now k).1)

-- A check that is passed.
passes :
    {A : Type 0} (b : Bool) (e : Status) (m : K A) (k : Kernel)
    → b ≡ false
    → (fail_if b e >> m) k ≡ m k
passes true e m k h = cc
passes false e m k h = refl

-- The handlers, for a request of a device that has a name and an address.
pub notify-served :
    (later : Reply) (ip port name pid : Text) (now : ℕ) (k : Kernel)
    → is_nil ip ≡ false
    → is_nil name ≡ false
    → serve io_notify (device_request (post_kernel now later) ip port name pid) now k
      ≡ (ok (waiting_answer (recieve_io name ip port k).0), (recieve_io name ip port k).1)
unfolding serve recieve_io_request
notify-served later ip port name pid now k h g =
    let r = device_request (post_kernel now later) ip port name pid in
    let found : K (Option Response) =
      lift (recieve_io name ip port) >>= λ found. return (waiting_answer found) in
    passes (is_nil ip) bad_request (required (codes "name") r >> found) k h
    ∙ passes (is_nil name) bad_request found k g

then-state :
    (m : K (Unit {0})) (r : Option Response) (k : Kernel) → ((m >> λ k. (ok r, k)) k).1 ≡ (m k).1
then-state m r k = outcome (m k).0 (m k).1
  where
    outcome :
        (o : Outcome Status (Unit {0})) (k' : Kernel)
        → (◌>>=◌ (λ (_ : Kernel). (o, k')) (λ _ k. (ok r, k)) k).1 ≡ k'
    outcome (ok a) k' = refl
    outcome (err e) k' = refl
    outcome panic k' = refl

reported :
    (later : Reply) (ip port name : Text) (pid now : ℕ) (k : Kernel)
    → is_nil ip ≡ false
    → is_nil name ≡ false
    → reported_pid (device_request (post_kernel now later) ip port name (itoa_int (pos pid))) k
      ≡ (ok (pos pid), k)
reported later ip port name pid now k h g =
    let r = device_request (post_kernel now later) ip port name (itoa_int (pos pid)) in
    let (c, s, e) = itoa_int-some (pos pid) in
    let given : is_nil (itoa_int (pos pid)) ≡ false = rw e in
    let pid_number : K ℤ = number (codes "pid") r in
    passes (is_nil ip) bad_request
      (required (codes "name") r >> (required (codes "pid") r >> pid_number)) k h
    ∙ passes (is_nil name) bad_request (required (codes "pid") r >> pid_number) k g
    ∙ passes (is_nil (itoa_int (pos pid))) bad_request pid_number k given
    ∙ ap (λ (o : Option ℤ). elim o as (λ _. K ℤ) [ none ↦ throw bad_request | some n ↦ return n ] k)
        (atoi-itoa_int (pos pid))

pub finished-served :
    (later : Reply) (ip port name : Text) (pid now : ℕ) (k : Kernel)
    → is_nil ip ≡ false
    → is_nil name ≡ false
    → (serve io_finished
        (device_request (post_kernel now later) ip port name (itoa_int (pos pid)))
        now
        k).1
      ≡ (handle_io_finished name ip port pid now k).1
unfolding serve io_finished_request
finished-served later ip port name pid now k h g =
    let body : ℤ → K (Option Response) =
      λ pid. answer status_ok (codes "IO finished for PID " ++ itoa_int pid) in
    let rest : ℤ → K (Option Response) =
      λ pid. handle_io_finished name ip port (uint pid) now >> body pid in
    ap (λ (o : Outcome Status ℤ × Kernel). (◌>>=◌ (λ (_ : Kernel). o) rest k).1)
      (reported later ip port name pid now k h g)
    ∙ then-state (handle_io_finished name ip port pid now)
        (some (record {
          status = status_ok;
          body = codes "IO finished for PID " ++ itoa_int (pos pid);
        }))
        k

text_eq_refl : (s : Text) → text_eq s s ≡ true
text_eq_refl [] = refl
text_eq_refl (c ∷ s) = rw (==_refl c c refl, text_eq_refl s)

-- The entry that is taken is found again.
pub taken_found :
    (name : Text) (b : Blocked) (q : List Blocked)
    → (take_waiting name q).0 ≡ some b
    → (take_blocked name b.process (take_waiting name q).1).0 ≡ true
unfolding take_waiting take_blocked
taken_found name b [] h = cc
taken_found name b (c ∷ q) h = ground (arith, taken_found name b q)

get_io-append :
    (name ip port : Text) (ios : List IoConnection)
    → (io : IoConnection) × (get_io name ip port (ios ++ (create_io_connection name ip port ∷ []))
        ≡ some io)
unfolding get_io
get_io-append name ip port [] =
    (create_io_connection name ip port, rw (text_eq_refl name, text_eq_refl ip, text_eq_refl port))
get_io-append name ip port (io ∷ ios) = elim (Bool-cases (same_io name ip port io)) [
  | inl e ↦ (io, rw e)
  | inr e ↦ let (found, f) = get_io-append name ip port ios in (found, rw e f)
]

pub get_io-set_disp :
    (d : Bool) (name ip port : Text) (io : IoConnection) (ios : List IoConnection)
    → get_io name ip port ios ≡ some io
    → (io' : IoConnection) × (get_io name ip port (set_disp d name ip port ios) ≡ some io')
unfolding get_io set_disp
get_io-set_disp d name ip port io [] h = absurd (cc h)
get_io-set_disp d name ip port io (i ∷ ios) h = elim (Bool-cases (same_io name ip port i)) [
  | inl e ↦ (record i { disp = d }, rw (e, get_io, set_disp) (rw e))
  | inr e ↦
      let (found, f) = get_io-set_disp d name ip port io ios (rw e at h) in
      (found, rw (e, get_io, set_disp) (rw e f))
]

pub registered :
    (name ip port : Text) (k : Kernel)
    → (io : IoConnection) × (get_io name ip port (register_io name ip port k).available_ios
        ≡ some io)
registered name ip port k = elim (Option-cases (get_io name ip port k.available_ios)) [
  | inl e ↦ rw (e, register_io) (get_io-append name ip port k.available_ios)
  | inr (io, e) ↦ (io, rw (e, register_io) e)
]

pub register-mts :
    (name ip port : Text) (k : Kernel) → (register_io name ip port k).mts_queue ≡ k.mts_queue
register-mts name ip port k = elim (Option-cases (get_io name ip port k.available_ios)) [
  | inl e ↦ rw (e, register_io)
  | inr (io, e) ↦ rw (e, register_io)
]
