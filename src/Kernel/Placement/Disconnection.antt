-- ===== src/Kernel/Placement/Disconnection.antt =====
-- kernel/kernel.go: recieveIO and handleIODisconnected leave every process in the queue of its state.
use tp_ssoo_1c.Kernel.Placement.Removals.{Keeps-refl}
use tp_ssoo_1c.Kernel.Placement.Handlers.{
  set_mts-Keeps, end_process-Consistent, expected_pos, terminate_process-Keeps, set_ios-Keeps,
}
use tp_ssoo_1c.Kernel.Placement.Moves.{Keeps-Consistent, enqueue-Consistent, Keeps-trans}
use tp_ssoo_1c.Utils.Text.{Text}
use tp_ssoo_1c.Kernel.Tracking.{is_known, waits, Tracked}
use tp_ssoo_1c.Kernel.Placement.{
  count-contains, Pending, Consistent, same_state, remove_by_pid_absent, Keeps,
}
use tp_ssoo_1c.Kernel.Queues.{contains_pid, get_queue}
use tp_ssoo_1c.Kernel.State.{Kernel, Blocked}
use tp_ssoo_1c.Kernel.Shared.{state_of, remove_from_state, end_process}
use tp_ssoo_1c.Kernel.Io.{
  take_blocked, kill_served, kill_susp_ready, first_waiting, kill_waiting, remove_index, recieve_io,
  register_io, take_waiting, get_io,
}
use tp_ssoo_1c.Kernel.Pcb.{State, susp_ready, exit}
use tp_ssoo_1c.Prelude.{
  ℕ, zero, suc, ◌≡◌, ap, ◌∙◌, Bool, true, false, List, [], ◌∷◌, Option, none, some, inl, inr,
  Option-cases, Bool-cases, if◌then◌else◌, arith, ◌==◌, get_elem?, count, ◌+◌,
}
use tp_ssoo_1c.Kernel.Pcb.{new, ready, exec, blocked, susp_blocked}
use tp_ssoo_1c.Prelude.Exec.{◌>>=◌}

pub known-state :
    (pid : ℕ) (k : Kernel) → is_known pid k ≡ true → (s : State) × (state_of pid k ≡ some s)
known-state pid k h = elim (Option-cases (state_of pid k)) [
  | inl e ↦
      absurd
        (cc (ap (λ (o : Option State). elim o as (λ _. Bool) [ none ↦ false | some s ↦ true ]) e))
  | inr f ↦ f
]

-- The process of a device that is in its queue is known.
waits-taken :
    (name : Text) (pid : ℕ) (q : List Blocked)
    → (take_blocked name pid q).0 ≡ true
    → waits pid q ≡ true
unfolding take_blocked
waits-taken name pid [] h = h
waits-taken name pid (b ∷ bs) h = ground (arith, waits-taken name pid bs)

waits-first :
    (name : Text) (pid : ℕ) (q : List Blocked)
    → first_waiting name q ≡ some pid
    → waits pid q ≡ true
unfolding first_waiting
waits-first name pid [] h = cc
waits-first name pid (b ∷ bs) h = ground (arith, waits-first name pid bs)

known_end-Consistent :
    (q : List Blocked) (pid now : ℕ) (k : Kernel)
    → Consistent k
    → is_known pid k ≡ true
    → Consistent (end_process pid now (record k { mts_queue = q }))
known_end-Consistent q pid now k c h =
    let keeps = set_mts-Keeps q k in
    let (s, e) = known-state pid k h in
    end_process-Consistent s pid now _ (Keeps-Consistent k _ keeps c) (keeps.states pid ∙ e)

pub kill_served-Consistent :
    (name : Text) (pid now : ℕ) (k : Kernel)
    → Consistent k
    → Tracked k
    → Consistent (kill_served name pid now k)
unfolding kill_served
kill_served-Consistent name pid now k c t =
    elim (Bool-cases (take_blocked name pid k.mts_queue).0) [
      | inl e ↦
          rw e (
            known_end-Consistent _ pid now k c (t.waiting pid (waits-taken name pid k.mts_queue e)))
      | inr e ↦ rw e c
    ]

pub kill_waiting-Consistent :
    (name : Text) (now : ℕ) (k : Kernel)
    → Consistent k
    → Tracked k
    → Consistent (kill_waiting name now k)
unfolding kill_waiting
kill_waiting-Consistent name now k c t = elim (Option-cases (first_waiting name k.mts_queue)) [
  | inl e ↦ rw (e, kill_waiting) c
  | inr (pid, e) ↦
      rw (e, kill_waiting)
        (known_end-Consistent _ pid now k c (t.waiting pid (waits-first name pid k.mts_queue e)))
]

count-remove_index :
    (i pid pid' : ℕ) (q : List ℕ)
    → get_elem? q i ≡ some pid
    → count pid' q ≡ (if pid == pid' then 1 else 0) + count pid' (remove_index i q)
unfolding count
count-remove_index i pid pid' [] h = cc
count-remove_index zero pid pid' (x ∷ xs) h = ground arith
count-remove_index (suc i) pid pid' (x ∷ xs) h = ground (arith, count-remove_index i pid pid' xs h)

-- A process of SUSP_READY that is taken out by its index.
abbrev without_index : ℕ → Kernel → Kernel
without_index i k = record k { susp_ready_queue = remove_index i k.susp_ready_queue }

index-counts :
    (i pid pid' : ℕ) (t : State) (k : Kernel)
    → get_elem? k.susp_ready_queue i ≡ some pid
    → count pid' (get_queue t k)
      ≡ count pid' (get_queue t (without_index i k))
        + (if same_state susp_ready t then (if pid == pid' then 1 else 0) else 0)
index-counts i pid pid' susp_ready k h =
    omega (arith, count-remove_index i pid pid' k.susp_ready_queue h)
index-counts i pid pid' exit k h = omega arith
index-counts i pid pid' new k h = omega arith
index-counts i pid pid' ready k h = omega arith
index-counts i pid pid' exec k h = omega arith
index-counts i pid pid' blocked k h = omega arith
index-counts i pid pid' susp_blocked k h = omega arith

index-state :
    (i pid : ℕ) (k : Kernel)
    → Consistent k
    → get_elem? k.susp_ready_queue i ≡ some pid
    → state_of pid k ≡ some susp_ready
index-state i pid k c h =
    expected_pos (state_of pid k) susp_ready
      (ground (arith, index-counts i pid pid susp_ready k h, c pid susp_ready))

index-Pending :
    (i pid : ℕ) (k : Kernel)
    → Consistent k
    → get_elem? k.susp_ready_queue i ≡ some pid
    → Pending pid (without_index i k)
unfolding state_of
index-Pending i pid k c h =
    let e = index-state i pid k c h in
    record {
      nowhere = λ t. ground (arith, index-counts i pid pid t k h, c pid t);
      others = λ pid' t ne. ground (arith, index-counts i pid pid' t k h, c pid' t);
    }

-- A process that stands nowhere is not taken out of a queue.
nowhere-contains : (pid : ℕ) (q : List ℕ) → count pid q ≡ 0 → contains_pid pid q ≡ false
nowhere-contains pid q h = elim (Bool-cases (contains_pid pid q)) [
  | inl e ↦ absurd (omega (arith, count-contains pid q e))
  | inr e ↦ e
]

pending-removed : (pid : ℕ) (k : Kernel) → Pending pid k → (remove_from_state pid k).1 ≡ k
unfolding remove_from_state
pending-removed pid k p = elim (Option-cases (state_of pid k)) [
  | inl e ↦ rw (e, remove_from_state)
  | inr (s, e) ↦
      rw (e, remove_from_state)
        (ap (λ (r : Option ℕ × Kernel). r.1)
          (remove_by_pid_absent s pid k (nowhere-contains pid (get_queue s k) (p.nowhere s))))
]

pending_end-Consistent :
    (s : State) (pid now : ℕ) (k : Kernel)
    → Pending pid k
    → state_of pid k ≡ some s
    → Consistent (end_process pid now k)
unfolding end_process
pending_end-Consistent s pid now k p e =
    rw (pending-removed pid k p) (
      Keeps-Consistent _ _ (terminate_process-Keeps pid _)
        (enqueue-Consistent exit s now pid k p e))

index_end-Consistent :
    (i pid now : ℕ) (k : Kernel)
    → Consistent k
    → get_elem? k.susp_ready_queue i ≡ some pid
    → Consistent (end_process pid now (without_index i k))
unfolding state_of
index_end-Consistent i pid now k c h =
    pending_end-Consistent susp_ready pid now _ (index-Pending i pid k c h)
      (index-state i pid k c h)

pub kill_susp_ready-Consistent :
    (rounds i now : ℕ) (k : Kernel) → Consistent k → Consistent (kill_susp_ready rounds i now k).1
unfolding kill_susp_ready
kill_susp_ready-Consistent zero i now k c = c
kill_susp_ready-Consistent (suc rounds) i now k c =
    elim (Option-cases (get_elem? k.susp_ready_queue i)) [
      | inl e ↦ rw (e, kill_susp_ready, ◌>>=◌) c
      | inr (pid, e) ↦
          rw (e, kill_susp_ready, ◌>>=◌)
            (kill_susp_ready-Consistent rounds (suc i) now _ (index_end-Consistent i pid now k c e))
    ]

pub register_io-Keeps : (name ip port : Text) (k : Kernel) → Keeps k (register_io name ip port k)
register_io-Keeps name ip port k = elim (Option-cases (get_io name ip port k.available_ios)) [
  | inl e ↦ rw (e, register_io) (set_ios-Keeps _ k)
  | inr (io, e) ↦ rw (e, register_io) (Keeps-refl k)
]

pub recieve_io-Keeps : (name ip port : Text) (k : Kernel) → Keeps k (recieve_io name ip port k).1
unfolding recieve_io
recieve_io-Keeps name ip port k =
    let found = (take_waiting name (register_io name ip port k).mts_queue).0 in
    elim (Option-cases found) [
      | inl e ↦ rw (e, recieve_io) (register_io-Keeps name ip port k)
      | inr (b, e) ↦
          rw (e, recieve_io)
            (Keeps-trans k _ _ (register_io-Keeps name ip port k)
              (Keeps-trans _ _ _ (set_ios-Keeps _ _) (set_mts-Keeps _ _)))
    ]

pub recieve_io-Consistent :
    (name ip port : Text) (k : Kernel) → Consistent k → Consistent (recieve_io name ip port k).1
recieve_io-Consistent name ip port k c = Keeps-Consistent k _ (recieve_io-Keeps name ip port k) c
