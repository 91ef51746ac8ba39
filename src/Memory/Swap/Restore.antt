-- ===== src/Memory/Swap/Restore.antt =====
-- memoria/storage/storage.go: UnSuspendProcess on a swap file of blocks.
use tp_ssoo_1c.Prelude.{
  if◌then◌else◌, ℕ, ◌<◌, ◌≡◌, refl, sym, ap, ◌∙◌, Bool, false, List, [], ◌∷◌, ◌++◌, map, Option,
  none, some, length, length-replicate, replicate, ◌==◌, arith, Option-cases, inl, inr,
}
use tp_ssoo_1c.Prelude.Int.{pos, ℤ}
use tp_ssoo_1c.Prelude.Exec.{Outcome, ok, err, panic, ◌>>=◌, ◌>>◌, return, get_state, modify, throw}
use tp_ssoo_1c.Prelude.Keeps.{Keeps}
use tp_ssoo_1c.Utils.Text.{itoa, split, Text}
use tp_ssoo_1c.Utils.Text.RoundTrip.{atoi_or_zero-itoa}
use tp_ssoo_1c.Memory.State.{
  Memory, Error, M, update_process, ProcessData, update_pid, not_in_swapfile, get_data_by_pid,
  could_not_find_process,
}
use tp_ssoo_1c.Memory.Frames.{allocate_memory, scale}
use tp_ssoo_1c.Memory.Swap.{
  print_page, swap_in, unsuspend_process, load_pages, middle_chunks, count_unsuspension,
  remove_from_swap, ℤ, Text, load_frames, load_chunks, read_swap, rename_eof, throw,
}
use tp_ssoo_1c.Memory.Swap.Blocks.{
  Block, swap_text, body, lookup, erase, get_from_swap-lookup, remove_from_swap-erase, removed,
  found_body,
}
use tp_ssoo_1c.Memory.Swap.Loading.{
  ArePages, write_all, load_pages-write_all, split-body, middle_chunks-append, tilde,
}

abbrev pub store_pages : ℕ → List (List ℕ) → List Block → List ℕ → M (Unit {0})
store_pages pid pages bs bases = do
  modify (λ m. record m { swap_file = some (swap_text bs) })
  update_process pid (λ p. record p { page_bases = bases })
  write_all pid bases pages
  count_unsuspension pid

-- As many frames as the block has pages are asked for; where they are given, the block leaves the
-- swap file and its pages are written to them, whatever the writes answer.
unfoldable pub restore : ℕ → List (List ℕ) → List Block → M (Unit {0})
restore pid pages bs = do
  m ← get_state
  bases ← allocate_memory (scale m.values.page_size (pos (length pages)))
  store_pages pid pages (erase pid bs) bases

-- What follows an operation matters only in the state that it leaves.
bind_outcome :
    {A B : Type 0} (k k' : A → M B) (o : Outcome Error A) (s : Memory)
    → ((a : A) → k a s ≡ k' a s)
    → ◌>>=◌ (λ s. (o, s)) k s ≡ ◌>>=◌ (λ s. (o, s)) k' s
bind_outcome k k' (ok a) s h = h a
bind_outcome k k' (err e) s h = refl
bind_outcome k k' panic s h = refl

bind_at :
    {A B : Type 0} (f : M A) (k k' : A → M B) (s : Memory)
    → ((a : A) → k a (f s).1 ≡ k' a (f s).1)
    → (f >>= k) s ≡ (f >>= k') s
bind_at f k k' s h = bind_outcome k k' (f s).0 (f s).1 h

-- An allocation leaves the swap file alone.
allocate_memory-Keeps :
    (size : ℤ) (file : Option Text) → Keeps Error (λ m. m.swap_file ≡ file) (allocate_memory size)
unfolding allocate_memory
allocate_memory-Keeps size file m h = ground arith

pub bind-run :
    {A B : Type 0} (f : M A) (k : A → M B) (s s' : Memory) (a : A)
    → f s ≡ (ok a, s')
    → (f >>= k) s ≡ k a s'
bind-run f k s s' a e = ap (λ r. ◌>>=◌ (λ s. r) k s) e

module _ (pid : ℕ) (pages : List (List ℕ)) (bs : List Block)
    (found : lookup pid bs ≡ some pages) where
  abbrev block_chunks : List Text
  block_chunks = itoa (length pages) ∷ (map print_page pages ++ (tilde ∷ []))

  -- The block is out of the file, and the process has its frames.
  abbrev erased : Memory → Memory
  erased m = record m { swap_file = some (swap_text (erase pid bs)) }

  abbrev given : List ℕ → Memory → Memory
  given bases m = record (erased m) {
    system_memory = update_pid pid (λ p. record p { page_bases = bases }) m.system_memory;
  }

  -- What follows the chunks, and what follows the file.
  abbrev load_then : ℕ → List ℕ → List Text → M (Unit {0})
  load_then n bases ws = do load_pages pid bases ws (replicate n 0); count_unsuspension pid

  abbrev erase_then : ℕ → List ℕ → Unit {0} → M (Unit {0})
  erase_then n bases u = do
    update_process pid (λ p. record p { page_bases = bases })
    ws ← middle_chunks block_chunks
    load_then n bases ws

  load_frames-store_pages :
      (n : ℕ) (bases : List ℕ) (m : Memory)
      → 0 < n
      → ArePages n pages
      → m.swap_file ≡ some (swap_text bs)
      → load_frames pid n block_chunks bases m ≡ store_pages pid pages (erase pid bs) bases m
  load_frames-store_pages n bases m l h e =
      bind-run (remove_from_swap pid) (erase_then n bases) m (erased m) tt
        (remove_from_swap-erase pid bs m e ∙ ap (λ o. removed o (erase pid bs) m) found)
      ∙ bind-run (middle_chunks block_chunks) (load_then n bases) (given bases m) (given bases m)
          (map print_page pages)
          (middle_chunks-append (map print_page pages) (itoa (length pages)) tilde (given bases m))
      ∙ ap (λ r. ◌>>=◌ (λ s. r) (λ u. count_unsuspension pid) (given bases m))
          (load_pages-write_all n pid bases pages (replicate n 0) (given bases m) l h
            (length-replicate n 0))

  -- The first chunk has the number of pages.
  load_chunks-restore :
      (m : Memory)
      → 0 < m.values.page_size
      → ArePages m.values.page_size pages
      → m.swap_file ≡ some (swap_text bs)
      → load_chunks pid block_chunks m ≡ restore pid pages bs m
  unfolding restore
  load_chunks-restore m l h e =
      let n = m.values.page_size in
      let alloc = allocate_memory (scale n (pos (length pages))) in
      let kept = allocate_memory-Keeps (scale n (pos (length pages))) _ m e in
      ap (λ z. ◌>>=◌ (allocate_memory (scale n z)) (load_frames pid n block_chunks) m)
        (atoi_or_zero-itoa (length pages))
      ∙ bind_at alloc (load_frames pid n block_chunks) (store_pages pid pages (erase pid bs)) m
          (λ bases. load_frames-store_pages n bases (alloc m).1 l h kept)

  pub swap_in-restore :
      (m : Memory)
      → 0 < m.values.page_size
      → ArePages m.values.page_size pages
      → m.swap_file ≡ some (swap_text bs)
      → swap_in pid m ≡ restore pid pages bs m
  swap_in-restore m l h e =
      bind-run (read_swap pid) (λ block. load_chunks pid (split b'\n' block)) m m
        (body pages ++ tilde)
        (ap (λ r. (rename_eof r.0, r.1))
          (get_from_swap-lookup pid bs m e ∙ ap (λ o. (found_body o, m)) found))
      ∙ ap (λ ws. load_chunks pid ws m) (split-body pages)
      ∙ load_chunks-restore m l h e

-- What `UnSuspendProcess` does with a process that has pages.
abbrev pub restored : ℕ → Option (List (List ℕ)) → List Block → M (Unit {0})
restored pid none bs m = (err not_in_swapfile, m)
restored pid (some pages) bs m = restore pid pages bs m

pub swap_in-missing :
    (pid : ℕ) (bs : List Block) (m : Memory)
    → lookup pid bs ≡ none
    → m.swap_file ≡ some (swap_text bs)
    → swap_in pid m ≡ (err not_in_swapfile, m)
swap_in-missing pid bs m found e =
    ap (λ r. ◌>>=◌ (λ s. (rename_eof r.0, r.1)) (λ block. load_chunks pid (split b'\n' block)) m)
      (get_from_swap-lookup pid bs m e ∙ ap (λ o. (found_body o, m)) found)

swap_in-restored :
    (pid : ℕ) (bs : List Block) (m : Memory)
    → 0 < m.values.page_size
    → ((pages : List (List ℕ)) → lookup pid bs ≡ some pages → ArePages m.values.page_size pages)
    → m.swap_file ≡ some (swap_text bs)
    → swap_in pid m ≡ restored pid (lookup pid bs) bs m
swap_in-restored pid bs m l h e = elim (Option-cases (lookup pid bs)) [
  | inl none_found ↦
      swap_in-missing pid bs m none_found e ∙ ap (λ o. restored pid o bs m) (sym none_found)
  | inr (pages, found) ↦
      swap_in-restore pid pages bs found m l (h pages found) e
      ∙ ap (λ o. restored pid o bs m) (sym found)
]

-- `UnSuspendProcess` on the text of a list of blocks, without the text: an allocation that fails and
-- the answers of the writes are left as they are.
pub unsuspend_process-restored :
    (pid : ℕ) (p : ProcessData) (bs : List Block) (m : Memory)
    → get_data_by_pid pid m ≡ some p
    → 0 < length p.page_bases
    → 0 < m.values.page_size
    → ((pages : List (List ℕ)) → lookup pid bs ≡ some pages → ArePages m.values.page_size pages)
    → m.swap_file ≡ some (swap_text bs)
    → unsuspend_process pid m ≡ restored pid (lookup pid bs) bs m
unfolding unsuspend_process
unsuspend_process-restored pid p bs m known some_page l h e =
    let pages : (length p.page_bases == 0) ≡ false = ground arith in
    let answer : Option ProcessData → M (Unit {0}) = λ o. elim o [
      | none ↦ throw could_not_find_process
      | some p ↦ if length p.page_bases == 0 then return tt else swap_in pid
    ] in
    let swapped : Bool → M (Unit {0}) = λ b. if b then return tt else swap_in pid in
    ap (λ o. answer o m) known ∙ ap (λ b. swapped b m) pages ∙ swap_in-restored pid bs m l h e
