-- ===== src/Memory/Frames/Reserve.antt =====
-- memoria/storage/storage.go: the loop of allocateMemory takes as many free frames as it is asked
-- for, and reserves exactly those.
use tp_ssoo_1c.Prelude.{
  count, count_same, count-append, ℕ, zero, suc, ◌+◌, ◌*◌, ◌≤◌, ◌<◌, ◌≡◌, refl, Bool, true, false,
  List, [], ◌∷◌, ◌++◌, length, arith,
}
use tp_ssoo_1c.Prelude.Exec.{Outcome, ok}
use tp_ssoo_1c.Memory.State.{Error}
use tp_ssoo_1c.Memory.Frames.{bases_from, reserve_pages}
use tp_ssoo_1c.Memory.Frames.Bits.{
  bit_value, free, Tracks, IsFrame, AllFrames, AllFrames-widen, count_below, Tracks-cons_below,
}

-- The outcome of reserving `left` of the frames from `i` on, while `held` is held.
pub record Reserved (size i left : ℕ) (bits : List Bool) (held : List ℕ)
    (result : Outcome Error (List ℕ) × List Bool) : Type 0 where
  pub taken : List ℕ
  pub bits' : List Bool
  pub returned : result ≡ (ok taken, bits')
  pub enough : length taken ≡ left
  pub same_length : length bits' ≡ length bits
  pub fewer : free bits' + left ≡ free bits
  pub valid : AllFrames size i (i + length bits) taken
  pub tracks : Tracks size i bits' (taken ++ held)

head_taken :
    (size i hi : ℕ) (taken held : List ℕ)
    → 0 < size
    → AllFrames size (suc i) hi taken
    → count (i * size) held ≡ 0
    → count (i * size) ((i * size) ∷ (taken ++ held)) ≡ 1
head_taken size i hi taken held h f e = omega (
  arith,
  count_same (i * size) (taken ++ held),
  count-append (i * size) taken held,
  count_below size (suc i) hi i taken h (omega arith) f,
)

head_kept :
    (size i hi : ℕ) (bit : Bool) (taken held : List ℕ)
    → 0 < size
    → AllFrames size (suc i) hi taken
    → count (i * size) held ≡ bit_value bit
    → count (i * size) (taken ++ held) ≡ bit_value bit
head_kept size i hi bit taken held h f e = omega (
  arith,
  count-append (i * size) taken held,
  count_below size (suc i) hi i taken h (omega arith) f,
)

first-IsFrame : (size i n : ℕ) → IsFrame size i (i + suc n) (i * size)
first-IsFrame size i n = record {
  number = i;
  aligned = refl;
  above = omega arith;
  below = omega arith;
}

later_frames :
    (size i n : ℕ) (bs : List ℕ)
    → AllFrames size (suc i) (suc i + n) bs
    → AllFrames size i (i + suc n) bs
later_frames size i n bs f =
    let e : suc i + n ≡ i + suc n = omega arith in
    AllFrames-widen size (suc i) i (i + suc n) bs (omega arith) (rw e at f)

pub reserve_pages-Reserved :
    (size i left : ℕ) (bits : List Bool) (held : List ℕ)
    → 0 < size
    → 0 < left
    → left ≤ free bits
    → Tracks size i bits held
    → Reserved size i left bits held (reserve_pages (bases_from (length bits) i size) left bits)
unfolding reserve_pages bases_from free
reserve_pages-Reserved size i left [] held h p l t = absurd (omega arith)
reserve_pages-Reserved size i zero (b ∷ bits) held h p l t = elim p [ ]
reserve_pages-Reserved size i (suc left) (true ∷ bits) held h p l t =
    let r = reserve_pages-Reserved size (suc i) (suc left) bits held h p l t.1 in
    record {
      taken = r.taken;
      bits' = true ∷ r.bits';
      returned = rw r.returned;
      enough = r.enough;
      same_length = omega (arith, r.same_length);
      fewer = r.fewer;
      valid = later_frames size i (length bits) r.taken r.valid;
      tracks = (head_kept size i _ true r.taken held h r.valid t.0, r.tracks);
    }
reserve_pages-Reserved size i (suc zero) (false ∷ bits) held h p l t = record {
  taken = i * size ∷ [];
  bits' = true ∷ bits;
  returned = refl;
  enough = refl;
  same_length = refl;
  fewer = omega arith;
  valid = (first-IsFrame size i (length bits), tt);
  tracks = (
    head_taken size i (suc i) [] held h tt t.0,
    Tracks-cons_below size (suc i) i bits held h (omega arith) t.1,
  );
}
reserve_pages-Reserved size i (suc (suc left)) (false ∷ bits) held h p l t =
    let r =
      reserve_pages-Reserved size (suc i) (suc left) bits held h (omega arith) (omega arith) t.1 in
    record {
      taken = i * size ∷ r.taken;
      bits' = true ∷ r.bits';
      returned = rw r.returned;
      enough = omega (arith, r.enough);
      same_length = omega (arith, r.same_length);
      fewer = omega (arith, r.fewer);
      valid =
          (first-IsFrame size i (length bits), later_frames size i (length bits) r.taken r.valid);
      tracks = (
        head_taken size i _ r.taken held h r.valid t.0,
        Tracks-cons_below size (suc i) i r.bits' (r.taken ++ held) h (omega arith) r.tracks,
      );
    }
