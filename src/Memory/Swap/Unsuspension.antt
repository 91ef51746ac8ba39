-- ===== src/Memory/Swap/Unsuspension.antt =====
-- memoria/storage/storage.go: what UnSuspendProcess does on every branch, for a memory whose frame
-- table is consistent and a swap file of blocks.
use tp_ssoo_1c.Utils.Text.{Text}
use tp_ssoo_1c.Prelude.{
  take, drop, ℕ, ◌*◌, ◌≤◌, ◌<◌, ◌≡◌, refl, sym, ap, ◌∙◌, subst, List, [], ◌∷◌, ◌++◌, Option, none,
  some, length, arith, count, count-append, count_same, ltb, Bool-cases, Option-cases, inl, inr,
}
use tp_ssoo_1c.Prelude.Int.{pos}
use tp_ssoo_1c.Prelude.Exec.{Outcome, ok, err, ◌>>=◌}
use tp_ssoo_1c.Memory.State.{
  Memory, ProcessData, Error, get_data_by_pid, update_pid, not_in_swapfile, not_enough_memory,
}
use tp_ssoo_1c.Memory.Frames.{allocate_memory}
use tp_ssoo_1c.Memory.Frames.Bits.{free, AllFrames}
use tp_ssoo_1c.Memory.Frames.Allocate.{
  FramesOk, pages_for, allocate_memory-Allocated, allocate_memory-refused,
}
use tp_ssoo_1c.Memory.Ownership.{FramesOk-le_one, AllFrames-lookup}
use tp_ssoo_1c.Memory.Pages.RoundTrip.{Based}
use tp_ssoo_1c.Memory.Pages.Apart.{
  take-drop-write_lists, Reads, length-write_lists, Sizes, Distinct, write_lists-Reads,
}
use tp_ssoo_1c.Memory.Swap.{unsuspend_process, count_unsuspension}
use tp_ssoo_1c.Memory.Swap.Blocks.{Block, swap_text, lookup, erase}
use tp_ssoo_1c.Memory.Swap.Loading.{ArePages, write_all}
use tp_ssoo_1c.Memory.Swap.Restore.{
  restore, restored, store_pages, bind-run, unsuspend_process-restored,
}
use tp_ssoo_1c.Memory.Swap.Written.{
  AllIn-self, WroteAll, write_all-WroteAll, given_bases-Based, Readable, Reads-Readable,
  counted-Based,
}

-- A process with pages, a consistent frame table for the settings, and a file of blocks in which the
-- block of the process, if it has one, has pages of bytes.
pub record Swapped (pid : ℕ) (held : List ℕ) (bs : List Block) (m : Memory) : Type 0 where
  pub process : ProcessData
  pub known : get_data_by_pid pid m ≡ some process
  pub has_pages : 0 < length process.page_bases
  pub frames : FramesOk held m
  pub one_size : m.values.page_size ≡ m.pagination.page_size
  pub room : length m.reservation_bits * m.pagination.page_size ≤ length m.user_memory
  pub file : m.swap_file ≡ some (swap_text bs)
  pub pages :
      (pages : List (List ℕ))
      → lookup pid bs ≡ some pages
      → (0 < length pages) × ArePages m.values.page_size pages

-- The process is back: it has as many frames as its block has pages, none of which was held, and
-- `GetPage` reads the bytes of the block from them. The frames that were held have the bytes that
-- they had in `old`, and the file has the blocks `rest`.
pub record Loaded (pid : ℕ) (pages : List (List ℕ)) (held : List ℕ) (rest : List Block) (size : ℕ)
    (old : List ℕ) (result : Outcome Error (Unit {0}) × Memory) : Type 0 where
  pub taken : List ℕ
  pub after : Memory
  pub returned : result ≡ (ok tt, after)
  pub enough : length taken ≡ length pages
  pub based : Based pid taken after
  pub readable : Readable pid taken pages after
  pub frames : FramesOk (taken ++ held) after
  pub kept :
      (b : ℕ) → 0 < count b held → take size (drop b after.user_memory) ≡ take size (drop b old)
  pub file : after.swap_file ≡ some (swap_text rest)

-- The answers of `UnSuspendProcess`.
pub data Answer (pid : ℕ) (held : List ℕ) (bs : List Block) (m : Memory)
    : Outcome Error (Unit {0}) × Memory → Type 0 where
  not_swapped : lookup pid bs ≡ none → Answer pid held bs m (err not_in_swapfile, m)
  full :
      (pages : List (List ℕ))
      → lookup pid bs ≡ some pages
      → m.pagination.page_size * free m.reservation_bits < m.pagination.page_size * length pages
      → Answer pid held bs m (err not_enough_memory, m)
  loaded :
      (pages : List (List ℕ)) (result : Outcome Error (Unit {0}) × Memory)
      → lookup pid bs ≡ some pages
      → m.pagination.page_size * length pages ≤ m.pagination.page_size * free m.reservation_bits
      → Loaded pid pages held (erase pid bs) m.pagination.page_size m.user_memory result
      → Answer pid held bs m result

ArePages-Sizes : (n : ℕ) (pages : List (List ℕ)) → ArePages n pages → Sizes n pages
ArePages-Sizes n [] h = tt
ArePages-Sizes n (p ∷ ps) h = (h.0, ArePages-Sizes n ps h.2)

AllFrames-left :
    (n lo hi : ℕ) (xs ys : List ℕ) → AllFrames n lo hi (xs ++ ys) → AllFrames n lo hi xs
AllFrames-left n lo hi [] ys h = tt
AllFrames-left n lo hi (x ∷ xs) ys h = (h.0, AllFrames-left n lo hi xs ys h.1)

once-Distinct : (xs ys : List ℕ) → ((b : ℕ) → count b (xs ++ ys) ≤ 1) → Distinct xs
unfolding count
once-Distinct [] ys h = tt
once-Distinct (x ∷ xs) ys h = (
  omega (arith, h x, count_same x (xs ++ ys), count-append x xs ys),
  once-Distinct xs ys (λ b. omega (arith, h b)),
)

pages_for-exact : (d k : ℕ) → 0 < d → pages_for (d * k) d ≡ k
pages_for-exact d k h = grind arith

product_pos : (d k : ℕ) → 0 < d → 0 < k → 0 < d * k
product_pos d k h l = grind arith

-- The bytes, the processes and the file are no part of the frame table.
FramesOk-around :
    (held : List ℕ) (m : Memory) (bytes : List ℕ) (ps : List ProcessData) (file : Option Text)
    → FramesOk held m
    → FramesOk held (record m { user_memory = bytes; system_memory = ps; swap_file = file })
FramesOk-around held m bytes ps file k = record {
  size_pos = k.size_pos;
  frames = k.frames;
  tracks = k.tracks;
  valid = k.valid;
  remaining = k.remaining;
}

abbrev counted : ℕ → Memory → Memory
counted pid m = (count_unsuspension pid m).1

module _ (pid : ℕ) (pages : List (List ℕ)) (held : List ℕ) (rest : List Block) where
  -- The frames are allocated, and given to the process.
  abbrev owned_by : List ℕ → Memory → Memory
  owned_by taken m = record m {
    swap_file = some (swap_text rest);
    system_memory = update_pid pid (λ p. record p { page_bases = taken }) m.system_memory;
  }

  stored-Loaded :
      (taken : List ℕ) (m : Memory)
      → length taken ≡ length pages
      → FramesOk (taken ++ held) m
      → length m.reservation_bits * m.pagination.page_size ≤ length m.user_memory
      → Sizes m.pagination.page_size pages
      → Based pid taken (owned_by taken m)
      → WroteAll pid taken pages (owned_by taken m) (write_all pid taken pages (owned_by taken m))
      → Loaded pid pages held rest m.pagination.page_size m.user_memory
          (store_pages pid pages rest taken m)
  stored-Loaded taken m enough frames room sizes based w =
      let n = m.pagination.page_size in
      let hi = length m.reservation_bits in
      let after = counted pid w.after in
      let valid = AllFrames-left n 0 hi taken held frames.valid in
      let distinct = once-Distinct taken held (λ b. FramesOk-le_one b (taken ++ held) m frames) in
      let size : n ≡ after.pagination.page_size = ap (λ m. m.pagination.page_size) (sym w.others) in
      let same : length after.user_memory ≡ length m.user_memory =
        ap length w.bytes ∙ length-write_lists m.user_memory taken pages in
      let still = counted-Based pid taken _ w.after (w.based taken based) in
      record {
        taken = taken;
        after = after;
        returned =
            bind-run (write_all pid taken pages) (λ u. count_unsuspension pid) (owned_by taken m)
              w.after tt w.returned;
        enough = enough;
        based = still;
        readable =
            Reads-Readable n hi pid taken taken pages after still (AllIn-self taken) valid size
              (omega (arith, room, same))
              (subst (λ xs. Reads n xs taken pages) (sym w.bytes)
                (write_lists-Reads n hi m.user_memory taken pages valid distinct sizes room));
        frames =
            subst (λ m. FramesOk (taken ++ held) (record m { system_memory = after.system_memory }))
              (sym w.others)
              (FramesOk-around (taken ++ held) m w.after.user_memory after.system_memory
                (some (swap_text rest)) frames);
        kept = λ b h.
            ap (λ xs. take n (drop b xs)) w.bytes
            ∙ take-drop-write_lists n hi b m.user_memory taken pages
                (AllFrames-lookup n 0 hi b (taken ++ held) frames.valid
                  (omega (arith, h, count-append b taken held)))
                valid
                (omega
                  (arith, h, count-append b taken held, FramesOk-le_one b (taken ++ held) m frames))
                sizes;
        file = ap (λ m. m.swap_file) w.others;
      }

abbrev bytes_of : List (List ℕ) → Memory → ℕ
bytes_of pages m = m.pagination.page_size * length pages

-- The size that is asked for, in the page size of the frame table.
asked :
    (pages : List (List ℕ)) (m : Memory) (r : Outcome Error (List ℕ) × Memory)
    → m.values.page_size ≡ m.pagination.page_size
    → allocate_memory (pos (bytes_of pages m)) m ≡ r
    → allocate_memory (pos (m.values.page_size * length pages)) m ≡ r
asked pages m r e h = ap (λ n. allocate_memory (pos (n * length pages)) m) e ∙ h

restore-full :
    (pid : ℕ) (pages : List (List ℕ)) (held : List ℕ) (bs : List Block) (m : Memory)
    → Swapped pid held bs m
    → m.pagination.page_size * free m.reservation_bits < bytes_of pages m
    → restore pid pages bs m ≡ (err not_enough_memory, m)
unfolding restore
restore-full pid pages held bs m k l =
    ap (λ r. ◌>>=◌ (λ s. r) (store_pages pid pages (erase pid bs)) m)
      (asked pages m _ k.one_size (allocate_memory-refused (bytes_of pages m) held m k.frames l))

restore-Loaded :
    (pid : ℕ) (pages : List (List ℕ)) (held : List ℕ) (bs : List Block) (m : Memory)
    → Swapped pid held bs m
    → lookup pid bs ≡ some pages
    → bytes_of pages m ≤ m.pagination.page_size * free m.reservation_bits
    → Loaded pid pages held
        (erase pid bs)
        m.pagination.page_size
        m.user_memory
        (restore pid pages bs m)
unfolding restore
restore-Loaded pid pages held bs m k found l =
    let n = m.pagination.page_size in
    let rest = erase pid bs in
    let some_pages = (k.pages pages found).0 in
    let a =
      allocate_memory-Allocated (bytes_of pages m) held m k.frames
        (product_pos n (length pages) k.frames.size_pos some_pages) l in
    let m' : Memory = record m { remaining_memory = a.left; reservation_bits = a.bits } in
    let sizes =
      subst (λ n. Sizes n pages) k.one_size
        (ArePages-Sizes m.values.page_size pages (k.pages pages found).1) in
    let room = subst (λ hi. hi * n ≤ length m.user_memory) (sym a.same_length) k.room in
    let enough = a.enough ∙ pages_for-exact n (length pages) k.frames.size_pos in
    let based =
      given_bases-Based pid a.taken k.process (record m' { swap_file = some (swap_text rest) })
        k.known in
    let valid = AllFrames-left n 0 (length a.bits) a.taken held a.kept.valid in
    let w =
      write_all-WroteAll n (length a.bits) pid a.taken a.taken pages
        (owned_by pid pages held rest a.taken m') based (AllIn-self a.taken) valid sizes enough refl
        room in
    subst (Loaded pid pages held rest n m.user_memory)
      (sym (
        bind-run (allocate_memory (pos (m.values.page_size * length pages)))
          (store_pages pid pages rest) m m' a.taken (asked pages m _ k.one_size a.returned)))
      (stored-Loaded pid pages held rest a.taken m' enough a.kept room sizes based w)

restored-Answer :
    (pid : ℕ) (held : List ℕ) (bs : List Block) (m : Memory)
    → Swapped pid held bs m
    → Answer pid held bs m (restored pid (lookup pid bs) bs m)
restored-Answer pid held bs m k = elim (Option-cases (lookup pid bs)) [
  | inl e ↦ rw e (not_swapped e)
  | inr (pages, e) ↦
      rw e
        (elim (Bool-cases
          (ltb (m.pagination.page_size * free m.reservation_bits) (bytes_of pages m))) [
            | inl l ↦
                subst (Answer pid held bs m)
                  (sym (restore-full pid pages held bs m k (ground (arith, l))))
                  (full pages e (ground (arith, l)))
            | inr l ↦
                loaded pages (restore pid pages bs m) e (ground (arith, l))
                  (restore-Loaded pid pages held bs m k e (ground (arith, l)))
          ])
]

-- For a consistent frame table whose page size is the configured one and whose frames lie within
-- the bytes of the memory, a process that has pages, and a swap file that is the text of a list
-- of blocks, where the first block of the process, if there is one, has at least one page and its
-- pages have as many bytes, each below 256, as the configured page size: `UnSuspendProcess` has
-- one of three answers. Without a block of the process it returns its error for a process that is
-- not suspended and changes nothing. If the pages of the block need more bytes than the free
-- frames have, it returns the error for too little memory and changes nothing. Otherwise it
-- returns no error, the process has as many frames as the block has pages, none of which was
-- held, the frame table is consistent with them, `GetPage` reads from each the very bytes of its
-- page in the block, the frames that were held keep their bytes, and the file is the text of the
-- other blocks.
pub unsuspend_process-Answer :
    (pid : ℕ) (held : List ℕ) (bs : List Block) (m : Memory)
    → Swapped pid held bs m
    → Answer pid held bs m (unsuspend_process pid m)
unsuspend_process-Answer pid held bs m k =
    subst (Answer pid held bs m)
      (sym (
        unsuspend_process-restored pid k.process bs m k.known k.has_pages
          (subst (λ n. 0 < n) (sym k.one_size) k.frames.size_pos) (λ pages e. (k.pages pages e).1)
          k.file))
      (restored-Answer pid held bs m k)
