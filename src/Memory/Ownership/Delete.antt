-- ===== src/Memory/Ownership/Delete.antt =====
-- memoria/storage/storage.go: DeleteProcess frees the frames of the process and no other.
use tp_ssoo_1c.Prelude.{
  ℕ, ◌≡◌, ◌≢◌, inl, inr, refl, sym, ap, ◌∙◌, subst, true, false, List, [], ◌∷◌, ◌++◌, Option, none,
  some, arith, ◌==◌, count, count-append, Bool-cases, Option-cases,
}
use tp_ssoo_1c.Prelude.Exec.{Outcome, ok, err}
use tp_ssoo_1c.Memory.State.{
  Memory, ProcessData, find_pid, get_data_by_pid, could_not_find_pid_to_delete, Error,
}
use tp_ssoo_1c.Memory.Frames.{deallocate_memory}
use tp_ssoo_1c.Memory.Frames.Allocate.{FramesOk}
use tp_ssoo_1c.Memory.Frames.Deallocate.{deallocate_memory-FramesOk}
use tp_ssoo_1c.Memory.Process.{
  last_of, drop_last, replace_by_last, remove_pid, deallocate, delete_process,
}
use tp_ssoo_1c.Memory.Ownership.{held_by, StorageOk, FramesOk-cong, FramesOk-system}

found-pid :
    (pid : ℕ) (p : ProcessData) (ps : List ProcessData) → find_pid pid ps ≡ some p → p.pid ≡ pid
unfolding find_pid
found-pid pid p [] h = ground arith
found-pid pid p (q ∷ ps) h = ground (arith, found-pid pid p ps)

count_last :
    (b : ℕ) (q : ProcessData) (qs : List ProcessData)
    → count b (held_by (last_of q qs ∷ drop_last q qs)) ≡ count b (held_by (q ∷ qs))
count_last b q [] = refl
count_last b q (r ∷ qs) = omega (
  arith,
  count_last b r qs,
  count-append b q.page_bases (held_by (r ∷ qs)),
  count-append b q.page_bases (held_by (drop_last r qs)),
  count-append b (last_of r qs).page_bases (held_by (q ∷ drop_last r qs)),
  count-append b (last_of r qs).page_bases (held_by (drop_last r qs)),
)

count_replaced :
    (b : ℕ) (qs : List ProcessData) → count b (held_by (replace_by_last qs)) ≡ count b (held_by qs)
count_replaced b [] = refl
count_replaced b (q ∷ qs) = count_last b q qs

same_found :
    (pid : ℕ) (p q : ProcessData) (ps : List ProcessData)
    → (q.pid == pid) ≡ true
    → find_pid pid (q ∷ ps) ≡ some p
    → q ≡ p
unfolding find_pid
same_found pid p q ps e h = ground arith

found_later :
    (pid : ℕ) (p q : ProcessData) (ps : List ProcessData)
    → (q.pid == pid) ≡ false
    → find_pid pid (q ∷ ps) ≡ some p
    → find_pid pid ps ≡ some p
unfolding find_pid
found_later pid p q ps e h = ground arith

nothing-found : (pid : ℕ) (p : ProcessData) → find_pid pid [] ≢ some p
unfolding find_pid
nothing-found pid p h = ground arith

-- The frames of the processes are those of the one that is found and those of the ones that stay.
count_removed :
    (b pid : ℕ) (p : ProcessData) (ps : List ProcessData)
    → find_pid pid ps ≡ some p
    → count b (p.page_bases ++ held_by (remove_pid pid ps)) ≡ count b (held_by ps)
unfolding remove_pid
count_removed b pid p [] h = elim (nothing-found pid p h) [ ]
count_removed b pid p (q ∷ ps) h = elim (Bool-cases (q.pid == pid)) [
  | inl e ↦
      rw (e, ← same_found pid p q ps e h)
        (omega (
          arith,
          count-append b q.page_bases (held_by (replace_by_last ps)),
          count-append b q.page_bases (held_by ps),
          count_replaced b ps,
        ))
  | inr e ↦ rw (e) (
      omega (
        arith,
        count-append b p.page_bases (q.page_bases ++ held_by (remove_pid pid ps)),
        count-append b p.page_bases (held_by (remove_pid pid ps)),
        count-append b q.page_bases (held_by (remove_pid pid ps)),
        count-append b q.page_bases (held_by ps),
        count_removed b pid p ps (found_later pid p q ps e h),
      ))
]

delete_absent :
    (pid : ℕ) (m : Memory)
    → get_data_by_pid pid m ≡ none
    → delete_process pid m ≡ (err could_not_find_pid_to_delete, m)
unfolding delete_process
delete_absent pid m e = ground arith

abbrev without : ℕ → Memory → Memory
without pid m = record m { system_memory = remove_pid pid m.system_memory }

delete_found :
    (pid : ℕ) (p : ProcessData) (m m' : Memory)
    → get_data_by_pid pid m ≡ some p
    → p.pid ≡ pid
    → deallocate_memory pid m ≡ (ok tt, m')
    → delete_process pid m ≡ (ok tt, without pid m')
unfolding delete_process deallocate
delete_found pid p m m' found same run = ground arith

deallocate_memory-system :
    (pid : ℕ) (m : Memory) → (deallocate_memory pid m).1.system_memory ≡ m.system_memory
unfolding deallocate_memory
deallocate_memory-system pid m = ground arith

deleted-StorageOk :
    (pid : ℕ) (p : ProcessData) (m : Memory)
    → get_data_by_pid pid m ≡ some p
    → StorageOk m
    → ((delete_process pid m).0 ≡ ok tt) × StorageOk (delete_process pid m).1
deleted-StorageOk pid p m found k =
    let m' = (deallocate_memory pid m).1 in
    let kept = remove_pid pid m.system_memory in
    let d = deallocate_memory-FramesOk pid p (held_by kept) m found (
      FramesOk-cong (held_by m.system_memory) (p.page_bases ++ held_by kept) m
        (λ b. sym (count_removed b pid p m.system_memory found)) k) in
    let run : deallocate_memory pid m ≡ (ok tt, m') = ap (λ r. (r, m')) d.0 in
    rw (delete_found pid p m m' found (found-pid pid p m.system_memory found) run) (
      refl,
      subst (λ ps. FramesOk (held_by (remove_pid pid ps)) (without pid m'))
          (sym (deallocate_memory-system pid m)) (FramesOk-system (held_by kept) m' _ d.1),
    )

-- What `DeleteProcess` answers.
abbrev pub delete_answer : Option ProcessData → Outcome Error (Unit {0})
delete_answer none = err could_not_find_pid_to_delete
delete_answer (some p) = ok tt

-- If exactly the frames of the processes in memory are held, `DeleteProcess` returns an error
-- where there is no process with that PID and none where there is one, never panics, and leaves a
-- memory in which exactly the frames of the processes are held.
pub delete_process-StorageOk :
    (pid : ℕ) (m : Memory)
    → StorageOk m
    → ((delete_process pid m).0 ≡ delete_answer (get_data_by_pid pid m))
      × StorageOk (delete_process pid m).1
delete_process-StorageOk pid m k = elim (Option-cases (get_data_by_pid pid m)) [
  | inl e ↦ rw (delete_absent pid m e, e) (refl, k)
  | inr (p, e) ↦ let d = deleted-StorageOk pid p m e k in (d.0 ∙ ap delete_answer (sym e), d.1)
]
