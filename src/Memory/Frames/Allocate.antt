-- ===== src/Memory/Frames/Allocate.antt =====
-- memoria/storage/storage.go: allocateMemory and deallocateMemory on a consistent frame table.
use tp_ssoo_1c.Memory.Frames.Reserve.{reserve_pages-Reserved}
use native.Mathlib.Nat.{zero-add}
use tp_ssoo_1c.Prelude.{
  refl, ap, ◌∙◌, ℕ, ◌+◌, ◌-◌, ◌*◌, ◌/◌, ◌≤◌, ◌<◌, ◌≡◌, List, length, arith, Bool, ◌++◌,
}
use tp_ssoo_1c.Prelude.Int.{pos}
use tp_ssoo_1c.Prelude.Exec.{ok, err}
use tp_ssoo_1c.Memory.State.{Memory, not_enough_memory}
use tp_ssoo_1c.Memory.Frames.{allocate_memory, reserve_pages, bases_from, Outcome, Error, ℤ}
use tp_ssoo_1c.Memory.Frames.Bits.{free, Tracks, AllFrames, AllFrames-append}

-- The frame table agrees with the frames that are held, and the byte count with the free frames.
pub record FramesOk (held : List ℕ) (m : Memory) : Type 0 where
  pub size_pos : 0 < m.pagination.page_size
  pub frames : m.page_bases ≡ bases_from (length m.reservation_bits) 0 m.pagination.page_size
  pub tracks : Tracks m.pagination.page_size 0 m.reservation_bits held
  pub valid : AllFrames m.pagination.page_size 0 (length m.reservation_bits) held
  pub remaining : m.remaining_memory ≡ pos (m.pagination.page_size * free m.reservation_bits)

-- The pages that `size` bytes need.
abbrev pub pages_for : ℕ → ℕ → ℕ
pages_for size page_size = (size + page_size - 1) / page_size

pages_pos : (s d : ℕ) → 0 < d → 0 < s → 0 < pages_for s d
pages_pos s d h p = grind arith

pages_le : (s d f : ℕ) → 0 < d → s ≤ d * f → pages_for s d ≤ f
pages_le s d f h p = grind arith

allocate_run :
    (s r : ℕ) (m : Memory) (taken : List ℕ) (bits : List Bool)
    → 0 < m.pagination.page_size
    → m.remaining_memory ≡ pos r
    → s ≤ r
    → m.pagination.page_size * pages_for s m.pagination.page_size ≤ r
    → reserve_pages m.page_bases (pages_for s m.pagination.page_size) m.reservation_bits
      ≡ (ok taken, bits)
    → allocate_memory (pos s) m ≡ (
      ok taken,
      record m {
        remaining_memory = pos (r - m.pagination.page_size * pages_for s m.pagination.page_size);
        reservation_bits = bits;
      },
    )
unfolding allocate_memory
allocate_run s r m taken bits h e l fits run = ground arith

allocate_refused :
    (s r : ℕ) (m : Memory)
    → m.remaining_memory ≡ pos r
    → r < s
    → allocate_memory (pos s) m ≡ (err not_enough_memory, m)
unfolding allocate_memory
allocate_refused s r m e l = ground arith

-- A successful allocation of `s` bytes.
pub record Allocated (s : ℕ) (held : List ℕ) (m : Memory) (result : Outcome Error (List ℕ) × Memory)
    : Type 0 where
  pub taken : List ℕ
  pub bits : List Bool
  pub left : ℤ
  pub returned : result ≡ (ok taken, record m { remaining_memory = left; reservation_bits = bits })
  pub enough : length taken ≡ pages_for s m.pagination.page_size
  pub kept :
      FramesOk (taken ++ held) (record m { remaining_memory = left; reservation_bits = bits })
  pub same_length : length bits ≡ length m.reservation_bits

left_bytes : (d n f' f : ℕ) → f' + n ≡ f → d * f - d * n ≡ d * f'
left_bytes d n f' f e = grind arith

FramesOk-take :
    (held taken : List ℕ) (bits : List Bool) (n r : ℕ) (m : Memory)
    → FramesOk held m
    → length bits ≡ length m.reservation_bits
    → free bits + n ≡ free m.reservation_bits
    → AllFrames m.pagination.page_size 0 (length bits) taken
    → Tracks m.pagination.page_size 0 bits (taken ++ held)
    → r ≡ m.pagination.page_size * free m.reservation_bits - m.pagination.page_size * n
    → FramesOk (taken ++ held) (record m { remaining_memory = pos r; reservation_bits = bits })
FramesOk-take held taken bits n r m k same fewer valid tracks e = record {
  size_pos = k.size_pos;
  frames = rw same k.frames;
  tracks = tracks;
  valid =
      AllFrames-append m.pagination.page_size 0 (length bits) taken held valid (rw same k.valid);
  remaining = ap pos (e ∙ left_bytes m.pagination.page_size n (free bits) _ fewer);
}

-- On a consistent frame table, an allocation of at least one byte and of no more bytes than the
-- free frames have returns as many frames as the bytes need, without an error or a panic. No
-- frame that was held is given out again, and the table stays consistent with the new frames held
-- too.
pub allocate_memory-Allocated :
    (s : ℕ) (held : List ℕ) (m : Memory)
    → FramesOk held m
    → 0 < s
    → s ≤ m.pagination.page_size * free m.reservation_bits
    → Allocated s held m (allocate_memory (pos s) m)
allocate_memory-Allocated s held m k p fits =
    let d = m.pagination.page_size in
    let n = pages_for s d in
    let small : n ≤ free m.reservation_bits = pages_le s d _ k.size_pos fits in
    let r =
      reserve_pages-Reserved d 0 n m.reservation_bits held k.size_pos (pages_pos s d k.size_pos p)
        small k.tracks in
    record {
      taken = r.taken;
      bits = r.bits';
      left = pos (d * free m.reservation_bits - d * n);
      returned =
          allocate_run s (d * free m.reservation_bits) m r.taken r.bits' k.size_pos k.remaining fits
            (grind arith) (rw k.frames r.returned);
      enough = r.enough;
      kept =
          FramesOk-take held r.taken r.bits' n _ m k r.same_length r.fewer
            (rw r.same_length (rw zero-add at r.valid)) r.tracks refl;
      same_length = r.same_length;
    }

-- On a consistent frame table, an allocation of more bytes than the free frames have is refused
-- with an error and changes nothing.
pub allocate_memory-refused :
    (s : ℕ) (held : List ℕ) (m : Memory)
    → FramesOk held m
    → m.pagination.page_size * free m.reservation_bits < s
    → allocate_memory (pos s) m ≡ (err not_enough_memory, m)
allocate_memory-refused s held m k l = allocate_refused s _ m k.remaining l
