-- ===== src/Kernel/Tracking/Requests.antt =====
-- kernel/: every endpoint of the kernel leaves each process known and in the queue of its state.
use tp_ssoo_1c.Kernel.Placement.Devices.{handle_io_finished-Consistent}
use tp_ssoo_1c.Kernel.Tracking.Syscalls.{recieve_syscall-Tracked}
use tp_ssoo_1c.Memory.Requests.{uint}
use tp_ssoo_1c.Kernel.Io.{recieve_io, handle_io_disconnected, handle_io_finished}
use tp_ssoo_1c.Kernel.Tracking.{next-unknown, held-process_of_cpu}
use tp_ssoo_1c.Kernel.Placement.Disconnection.{known-state, recieve_io-Consistent}
use tp_ssoo_1c.Kernel.Tracking.Handlers.{handle_reason-Tracked, set_pc-Tracked, receive_cpu-Tracked}
use tp_ssoo_1c.Kernel.Placement.Handlers.{set_cpus-Keeps}
use tp_ssoo_1c.Kernel.Placement.Syscalls.{recieve_syscall-Consistent}
use tp_ssoo_1c.Kernel.Tracking.Devices.{
  Sound, handle_io_disconnected-Sound, recieve_io-Tracked, handle_io_finished-Tracked,
}
use tp_ssoo_1c.Kernel.Placement.Removals.{handle_reason-Consistent}
use tp_ssoo_1c.Kernel.Placement.Moves.{Keeps-Consistent, with_process-Keeps}
use tp_ssoo_1c.Kernel.State.{Kernel}
use tp_ssoo_1c.Utils.Codeutils.{Instruction}
use tp_ssoo_1c.Kernel.Shared.{K, set_pc, Status, bad_request, lift}
use tp_ssoo_1c.Kernel.Server.{
  io_disconnected_request, recieve_syscall_request, read_reason, receive_cpu_request,
  receive_pid_pc_reason, io_finished_request, recieve_io_request, Request, is_nil, Response,
  run_syscall, Endpoint, serve, number, check_post, reported_pid, parameter, answer, required,
  cpu_code, status_ok, syscall_body, is_registered, cpu_body, waiting_answer, checked_reason,
}
use tp_ssoo_1c.Kernel.Placement.{Keeps}
use tp_ssoo_1c.Kernel.Server.{
  cpu_notify, io_notify, io_finished, io_disconnected, cpu_results, syscall, ping, status_ok,
}
use tp_ssoo_1c.Prelude.{
  ℕ, ◌≡◌, ◌≢◌, refl, ap, false, ◌++◌, Option, none, some, inl, inr, Option-cases, arith,
}
use tp_ssoo_1c.Prelude.Int.{ℤ, pos, negsuc}
use tp_ssoo_1c.Prelude.Keeps.{Keeps-bind, Keeps-option, Keeps-fail_if}
use tp_ssoo_1c.Prelude.Exec.{◌>>=◌, ◌>>◌, return, throw, get_state, modify}
use tp_ssoo_1c.Utils.Text.{itoa_int, Text, codes, atoi}
use tp_ssoo_1c.Kernel.Api.{
  nothing, receive_cpu, Reason, handle_reason, recieve_syscall, process_of_cpu,
}

abbrev pub Safe : {A : Type 0} → K A → Type 0
Safe m = (k : Kernel) → Sound k → Sound (m k).1

pub Safe-bind :
    {A B : Type 0} (m : K A) (f : A → K B) → Safe m → ((a : A) → Safe (f a)) → Safe (m >>= f)
Safe-bind m f h g = Keeps-bind Status Sound m f h g

pub Safe-then : {B : Type 0} (m : K (Unit {0})) (n : K B) → Safe m → Safe n → Safe (m >> n)
Safe-then m n h g = Keeps-bind Status Sound m (λ _. n) h (λ _. g)

number-Safe : (key : Text) (r : Request) → Safe (number key r)
number-Safe key r =
    Keeps-option Status Sound (atoi (parameter key r)) (throw bad_request) (λ n. return n)
      (λ k s. s) (λ n k s. s)

-- The checks that the reports of the devices begin with.
named-Safe :
    {A : Type 0} (r : Request) (rest : K A)
    → Safe rest
    → Safe (check_post r >> (required (codes "ip") r >> (required (codes "name") r >> rest)))
named-Safe r rest h =
    let name = required (codes "name") r >> rest in
    Safe-then (check_post r) (required (codes "ip") r >> name) (Keeps-fail_if Status Sound _ _) (
      Safe-then (required (codes "ip") r) name (Keeps-fail_if Status Sound _ _)
        (Safe-then (required (codes "name") r) rest (Keeps-fail_if Status Sound _ _) h))

reported_pid-Safe : (r : Request) → Safe (reported_pid r)
reported_pid-Safe r = named-Safe r (required (codes "pid") r >> number (codes "pid") r) (
    Safe-then (required (codes "pid") r) (number (codes "pid") r) (Keeps-fail_if Status Sound _ _)
      (number-Safe (codes "pid") r))

receive_cpu-Keeps : (id ip : Text) (port : ℤ) (k : Kernel) → Keeps k (receive_cpu id ip port k)
unfolding receive_cpu
receive_cpu-Keeps id ip port k = set_cpus-Keeps _ k

receive_cpu_request-Safe : (r : Request) → Safe (receive_cpu_request r)
unfolding receive_cpu_request
receive_cpu_request-Safe r =
    let id = parameter (codes "id") r in
    let ip = parameter (codes "ip") r in
    let register : ℤ → K (Option Response) = λ port. get_state >>= λ k.
    modify (receive_cpu id ip port)
    >> answer (cpu_code (is_registered id k.available_cpus)) (cpu_body id k.available_cpus) in
    Safe-then (check_post r) (number (codes "port") r >>= register) (Keeps-fail_if Status Sound _ _)
      (Safe-bind (number (codes "port") r) register (number-Safe (codes "port") r) (λ port k s.
        record {
          placed = Keeps-Consistent k _ (receive_cpu-Keeps id ip port k) s.placed;
          tracked = receive_cpu-Tracked id ip port k s.tracked;
        }))

recieve_io_request-Safe : (r : Request) → Safe (recieve_io_request r)
unfolding recieve_io_request
recieve_io_request-Safe r =
    let name = parameter (codes "name") r in
    let ip = parameter (codes "ip") r in
    let port = parameter (codes "port") r in
    named-Safe r (lift (recieve_io name ip port) >>= λ found. return (waiting_answer found)) (λ k s.
      record {
        placed = recieve_io-Consistent name ip port k s.placed;
        tracked = recieve_io-Tracked name ip port k s.tracked;
      })

io_finished_request-Safe : (r : Request) (now : ℕ) → Safe (io_finished_request r now)
unfolding io_finished_request
io_finished_request-Safe r now =
    let name = parameter (codes "name") r in
    let ip = parameter (codes "ip") r in
    let port = parameter (codes "port") r in
    let body : ℤ → K (Option Response) =
      λ pid. answer status_ok (codes "IO finished for PID " ++ itoa_int pid) in
    Safe-bind (reported_pid r) (λ pid. handle_io_finished name ip port (uint pid) now >> body pid)
      (reported_pid-Safe r)
      (λ pid.
        Safe-then (handle_io_finished name ip port (uint pid) now) (body pid)
          (λ k s. record {
            placed = handle_io_finished-Consistent name ip port (uint pid) now k s.placed;
            tracked = handle_io_finished-Tracked name ip port (uint pid) now k s.tracked;
          })
          (λ k s. s))

io_disconnected_request-Safe : (r : Request) (now : ℕ) → Safe (io_disconnected_request r now)
unfolding io_disconnected_request
io_disconnected_request-Safe r now =
    let name = parameter (codes "name") r in
    let ip = parameter (codes "ip") r in
    let port = parameter (codes "port") r in
    let body : K (Option Response) = answer status_ok (codes "Handling Disconnection!") in
    Safe-bind (reported_pid r) (λ pid. handle_io_disconnected name ip port (uint pid) now >> body)
      (reported_pid-Safe r)
      (λ pid.
        Safe-then (handle_io_disconnected name ip port (uint pid) now) body
          (handle_io_disconnected-Sound name ip port (uint pid) now) (λ k s. s))

-- A report of a CPU that names a reason and a program counter that is not negative.
abbrev pub IsComplete : Request → Type 0
IsComplete r =
    (is_nil (parameter (codes "reason") r) ≡ false)
    × ((n : ℕ) → atoi (parameter (codes "pc") r) ≢ some (negsuc n))

read_reason-nothing : (s : Text) → is_nil s ≡ false → read_reason s ≢ some nothing
unfolding read_reason
read_reason-nothing s h e = ground arith

handle_reason-Sound :
    (pid pc : ℕ) (reason : Reason) (now : ℕ)
    → reason ≢ nothing
    → Safe (handle_reason pid (pos pc) reason now)
handle_reason-Sound pid pc reason now h k s = record {
  placed = handle_reason-Consistent pid pc now reason k s.placed h;
  tracked = handle_reason-Tracked pid (pos pc) reason now k s.tracked;
}

-- A program counter that was read, and a reason.
reason-Safe :
    (o : Option Reason) (pid pc now : ℕ) (f : Reason → K (Option Response))
    → o ≢ some nothing
    → ((reason : Reason) → reason ≢ nothing → Safe (f reason))
    → Safe (
        (elim o as (λ _. K Reason) [ none ↦ throw bad_request | some reason ↦ return reason ])
        >>= f)
reason-Safe none pid pc now f h g k s = s
reason-Safe (some reason) pid pc now f h g k s = g reason (λ e. h (ap some e)) k s

counter-Safe :
    (o : Option ℤ) (f : ℤ → K (Option Response))
    → ((n : ℕ) → o ≢ some (negsuc n))
    → ((n : ℕ) → Safe (f (pos n)))
    → Safe ((elim o as (λ _. K ℤ) [ none ↦ throw bad_request | some n ↦ return n ]) >>= f)
counter-Safe none f h g k s = s
counter-Safe (some (pos n)) f h g k s = g n k s
counter-Safe (some (negsuc n)) f h g k s = absurd (h n refl)

receive_pid_pc_reason-Safe :
    (r : Request) (now : ℕ) → IsComplete r → Safe (receive_pid_pc_reason r now)
unfolding receive_pid_pc_reason
receive_pid_pc_reason-Safe r now h =
    let done : K (Option Response) = answer status_ok (codes "Reason received successfully") in
    let reported : ℤ → ℤ → Reason → K (Option Response) =
      λ pid pc reason. handle_reason (uint pid) pc reason now >> done in
    let counted : ℤ → ℤ → K (Option Response) = λ pid pc. checked_reason r >>= reported pid pc in
    let numbered : ℤ → K (Option Response) = λ pid. number (codes "pc") r >>= counted pid in
    Safe-then (check_post r) (number (codes "pid") r >>= numbered) (Keeps-fail_if Status Sound _ _)
      (Safe-bind (number (codes "pid") r) numbered (number-Safe (codes "pid") r) (λ pid.
        counter-Safe (atoi (parameter (codes "pc") r)) (counted pid) h.1 (λ pc.
          reason-Safe (read_reason (parameter (codes "reason") r)) (uint pid) pc now
            (reported pid (pos pc)) (read_reason-nothing _ h.0)
            (λ reason g.
              Safe-then (handle_reason (uint pid) (pos pc) reason now) done
                (handle_reason-Sound (uint pid) pc reason now g) (λ k s. s)))))

recieve_syscall-Sound :
    (cpu : Text) (pc : ℤ) (i : Instruction) (now : ℕ) → Safe (recieve_syscall cpu pc i now)
recieve_syscall-Sound cpu pc i now k s = record {
  placed =
      recieve_syscall-Consistent cpu pc i now k s.placed
        (λ cpu pid e. known-state pid k (s.tracked.cpus pid (held-process_of_cpu cpu pid _ e)))
        (next-unknown k s.tracked);
  tracked = recieve_syscall-Tracked cpu pc i now k s.tracked;
}

set_pc-Sound : (pid : ℕ) (pc : ℤ) → Safe (set_pc pid pc)
set_pc-Sound pid (negsuc n) k s = s
set_pc-Sound pid (pos n) k s = record {
  placed = Keeps-Consistent k _ (with_process-Keeps pid _ k (λ p. refl) (λ p. refl)) s.placed;
  tracked = set_pc-Tracked pid (pos n) k s.tracked;
}

run_syscall-Safe :
    (cpu : Text) (pc : ℤ) (o : Option Instruction) (now : ℕ) → Safe (run_syscall cpu pc o now)
run_syscall-Safe cpu pc none now k s = elim (Option-cases (process_of_cpu cpu k.available_cpus)) [
  | inl e ↦ rw (e, ◌>>=◌) s
  | inr (pid, e) ↦
      rw (e, ◌>>=◌)
        (Safe-then (set_pc pid pc) (throw bad_request) (set_pc-Sound pid pc) (λ k s. s) k s)
]
run_syscall-Safe cpu pc (some i) now k s =
    Safe-then (recieve_syscall cpu pc i now) (return (syscall_body i k))
      (recieve_syscall-Sound cpu pc i now) (λ k s. s) k s

recieve_syscall_request-Safe : (r : Request) (now : ℕ) → Safe (recieve_syscall_request r now)
unfolding recieve_syscall_request
recieve_syscall_request-Safe r now =
    let run : ℤ → K (Option Response) =
      λ pc. run_syscall (parameter (codes "id") r) pc r.instruction now >>= answer status_ok in
    let counter = number (codes "pc") r >>= run in
    Safe-then (required (codes "id") r) (required (codes "pc") r >> counter)
      (Keeps-fail_if Status Sound _ _)
      (Safe-then (required (codes "pc") r) counter (Keeps-fail_if Status Sound _ _) (
        Safe-bind (number (codes "pc") r) run (number-Safe (codes "pc") r) (λ pc.
          Safe-bind (run_syscall _ pc r.instruction now) (answer status_ok)
            (run_syscall-Safe _ pc r.instruction now) (λ body k s. s))))

abbrev pub IsServable : Endpoint → Request → Type 0
IsServable cpu_results r = IsComplete r
IsServable cpu_notify r = Unit {0}
IsServable io_notify r = Unit {0}
IsServable io_finished r = Unit {0}
IsServable io_disconnected r = Unit {0}
IsServable syscall r = Unit {0}
IsServable ping r = Unit {0}

-- If every process of the kernel is known and stands once in the queue of its state and nowhere
-- else, the same holds after a request to any endpoint.
pub serve-Sound : (e : Endpoint) (r : Request) (now : ℕ) → IsServable e r → Safe (serve e r now)
unfolding serve
serve-Sound cpu_notify r now h = receive_cpu_request-Safe r
serve-Sound io_notify r now h = recieve_io_request-Safe r
serve-Sound io_finished r now h = io_finished_request-Safe r now
serve-Sound io_disconnected r now h = io_disconnected_request-Safe r now
serve-Sound cpu_results r now h = receive_pid_pc_reason-Safe r now h
serve-Sound syscall r now h = recieve_syscall_request-Safe r now
serve-Sound ping r now h = λ k s. s
