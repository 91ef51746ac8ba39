-- ===== src/Kernel/Run/Closing.antt =====
-- kernel/shared/process_shared.go: TerminateProcess closes the kernel once every process has ended.
use tp_ssoo_1c.Kernel.Run.Invariant.{Reaches-Sound, globals-Sound}
use tp_ssoo_1c.Kernel.Start.{globals}
use tp_ssoo_1c.Kernel.Placement.Moves.{
  enqueue-Consistent, remove_from_state-Pending, state_of-remove_from_state,
}
use tp_ssoo_1c.Kernel.Placement.Handlers.{terminate_process-Keeps, expected_pos}
use tp_ssoo_1c.Kernel.Tracking.Devices.{Sound}
use tp_ssoo_1c.Kernel.Tracking.{
  is_known, terminate_process-Untouched, Untouched-Tracked, Untouched-trans,
  remove_from_state-Untouched, enqueue-Untouched,
}
use tp_ssoo_1c.Kernel.State.{Kernel, Config}
use tp_ssoo_1c.Kernel.Queues.{enqueue, remove_by_pid, SortSlice, contains_pid, get_queue}
use tp_ssoo_1c.Kernel.Shared.{terminate_process, state_of, remove_from_state, end_process}
use tp_ssoo_1c.Kernel.Run.{Reaches}
use tp_ssoo_1c.Prelude.{
  ℕ, ◌<◌, ◌≤◌, ◌≡◌, ◌↔◌, ap, sym, ◌∙◌, true, false, Option, none, some, inl, inr, Option-cases,
  Bool-cases, arith, ltb, count, length, subst,
}
use tp_ssoo_1c.Prelude.Counting.{length-full}
use tp_ssoo_1c.Kernel.Pcb.{exit, State}
use tp_ssoo_1c.Kernel.Placement.{expected}

expected_once : (o : Option State) (t : State) → expected o t ≤ 1
expected_once none t = omega arith
expected_once (some s) t = ground arith

unknown-state : (pid : ℕ) (k : Kernel) → is_known pid k ≡ false → state_of pid k ≡ none
unknown-state pid k h = elim (Option-cases (state_of pid k)) [
  | inl e ↦ e
  | inr (s, e) ↦ absurd (ground arith)
]

exit-above : (k : Kernel) → Sound k → (pid : ℕ) → k.next_pid ≤ pid → count pid k.exit_queue ≡ 0
exit-above k s pid l =
    let unknown : ltb pid k.next_pid ≡ false = ground arith in
    s.placed pid exit
    ∙ ap (λ o. expected o exit) (unknown-state pid k (s.tracked.numbered pid ∙ unknown))

exit-once : (k : Kernel) → Sound k → (pid : ℕ) → count pid k.exit_queue ≤ 1
exit-once k s pid = omega (arith, s.placed pid exit, expected_once (state_of pid k) exit)

exited-count :
    (k : Kernel) (pid : ℕ) → Sound k → state_of pid k ≡ some exit → count pid k.exit_queue ≡ 1
exited-count k pid s e = s.placed pid exit ∙ ap (λ o. expected o exit) e

counted-exit :
    (k : Kernel) (pid : ℕ) → Sound k → count pid k.exit_queue ≡ 1 → state_of pid k ≡ some exit
counted-exit k pid s e = expected_pos (state_of pid k) exit (omega (arith, s.placed pid exit))

-- Every process that was created has ended.
abbrev pub AllExited : Kernel → Type 0
AllExited k = (pid : ℕ) → pid < k.next_pid → state_of pid k ≡ some exit

exit_queue-full :
    (k : Kernel) → Sound k → (length k.exit_queue ≡ k.total_processes_created) ↔ AllExited k
exit_queue-full k s =
    let full = length-full k.next_pid k.exit_queue (exit-above k s) (exit-once k s) in
    (
      λ h pid l. counted-exit k pid s (full.0 (h ∙ s.tracked.total) pid l),
      λ h. full.1 (λ pid l. exited-count k pid s (h pid l)) ∙ sym s.tracked.total,
    )

terminate-closed :
    (pid : ℕ) (k : Kernel)
    → k.closed ≡ false
    → ((terminate_process pid k).closed ≡ true) ↔ (length k.exit_queue ≡ k.total_processes_created)
unfolding terminate_process
terminate-closed pid k h = ground arith

terminate_process-AllExited :
    (pid : ℕ) (k : Kernel) → AllExited k ↔ AllExited (terminate_process pid k)
terminate_process-AllExited pid k =
    let keeps = terminate_process-Keeps pid k in
    let u = terminate_process-Untouched pid k in
    (
      λ h p l. keeps.states p ∙ h p (subst (λ n. p < n) u.next l),
      λ h p l. sym (keeps.states p) ∙ h p (subst (λ n. p < n) (sym u.next) l),
    )

-- The kernel before `TerminateProcess`.
abbrev exiting : ℕ → ℕ → Kernel → Kernel
exiting pid now k = enqueue exit now pid (remove_from_state pid k).1

exiting-closed : (pid now : ℕ) (k : Kernel) → (exiting pid now k).closed ≡ k.closed
unfolding enqueue remove_from_state remove_by_pid
exiting-closed pid now k = elim (Option-cases (state_of pid k)) [
  | inl e ↦ rw (e, remove_from_state)
  | inr (s, e) ↦ elim (Bool-cases (contains_pid pid (get_queue s k))) [
    | inl f ↦ rw (e, f, remove_from_state) (ground arith)
    | inr f ↦ rw (e, f, remove_from_state)
  ]
]

exiting-Sound :
    (s : State) (pid now : ℕ) (k : Kernel)
    → Sound k
    → state_of pid k ≡ some s
    → Sound (exiting pid now k)
exiting-Sound s pid now k h e = record {
  placed =
      enqueue-Consistent exit s now pid _ (remove_from_state-Pending pid k h.placed)
        (state_of-remove_from_state pid pid k ∙ e);
  tracked =
      Untouched-Tracked k _
        (Untouched-trans k _ _ (remove_from_state-Untouched pid k)
          (enqueue-Untouched exit now pid _))
        h.tracked;
}

-- In a kernel that the initial values lead to and that has not closed, the end of a process of
-- the kernel closes it exactly if every process that was created has ended then.
pub end_process-closed :
    (sorter : SortSlice) (config : Config) (s : State) (pid now : ℕ) (k : Kernel)
    → Reaches sorter (globals config) k
    → state_of pid k ≡ some s
    → k.closed ≡ false
    → ((end_process pid now k).closed ≡ true) ↔ AllExited (end_process pid now k)
unfolding end_process
end_process-closed sorter config s pid now k r e open_yet =
    let h = Reaches-Sound sorter _ k r (globals-Sound config) in
    let mid = exiting pid now k in
    let closes = terminate-closed pid mid (exiting-closed pid now k ∙ open_yet) in
    let full = exit_queue-full mid (exiting-Sound s pid now k h e) in
    let same = terminate_process-AllExited pid mid in
    ((λ c. same.0 (full.0 (closes.0 c))), (λ a. closes.1 (full.1 (same.1 a))))
