-- ===== src/Memory/Frames/Release.antt =====
-- memoria/storage/storage.go: the loop of deallocateMemory frees exactly the frames that it is given.
use native.Mathlib.Nat.{mul-div_cancel, zero-add}
use tp_ssoo_1c.Prelude.{
  count, count_same, count_other, sym, subst, ◌∙◌, ℕ, zero, suc, ◌+◌, ◌*◌, ◌<◌, ◌≡◌, refl, Bool,
  true, false, List, [], ◌∷◌, ◌++◌, length, set, length-set, arith,
}
use tp_ssoo_1c.Prelude.Exec.{Outcome, ok}
use tp_ssoo_1c.Memory.State.{Error}
use tp_ssoo_1c.Memory.Frames.{clear_bits}
use tp_ssoo_1c.Memory.Frames.Bits.{bit_value, free, Tracks, AllFrames, Tracks-uncons_below, mul_lt}

-- The outcome of clearing the bits of `bases`, while `held` stays held.
pub record Released (size : ℕ) (bases held : List ℕ) (bits : List Bool)
    (result : Outcome Error (Unit {0}) × List Bool) : Type 0 where
  pub bits' : List Bool
  pub returned : result ≡ (ok tt, bits')
  pub same_length : length bits' ≡ length bits
  pub more : free bits' ≡ free bits + length bases
  pub tracks : Tracks size 0 bits' held

head_freed :
    (size i : ℕ) (bit : Bool) (held : List ℕ)
    → count (i * size) (i * size ∷ held) ≡ bit_value bit
    → (count (i * size) held ≡ 0) × (bit ≡ true)
head_freed size i true held e = (omega (arith, count_same (i * size) held), refl)
head_freed size i false held e = absurd (omega (arith, count_same (i * size) held))

Tracks-clear :
    (size i j : ℕ) (bits : List Bool) (held : List ℕ)
    → 0 < size
    → j < length bits
    → Tracks size i bits ((i + j) * size ∷ held)
    → Tracks size i (set bits j false) held
Tracks-clear size i j [] held h l t = tt
Tracks-clear size i zero (bit ∷ bits) held h l t =
    let e : i + 0 ≡ i = omega arith in
    let t' : Tracks size i (bit ∷ bits) (i * size ∷ held) = rw e at t in
    (
      (head_freed size i bit held t'.0).0,
      Tracks-uncons_below size (suc i) i bits held h (omega arith) t'.1,
    )
Tracks-clear size i (suc j) (bit ∷ bits) held h l t =
    let e : i + suc j ≡ suc i + j = omega arith in
    let t' : Tracks size i (bit ∷ bits) ((suc i + j) * size ∷ held) = rw e at t in
    (
      omega (
        arith,
        count_other (i * size) ((suc i + j) * size) held,
        mul_lt size i (suc i + j) h,
        t'.0,
      ),
      Tracks-clear size (suc i) j bits held h (omega arith) t'.1,
    )

free-clear :
    (size i j : ℕ) (bits : List Bool) (held : List ℕ)
    → 0 < size
    → j < length bits
    → Tracks size i bits ((i + j) * size ∷ held)
    → free (set bits j false) ≡ suc (free bits)
unfolding free
free-clear size i j [] held h l t = elim l [ ]
free-clear size i zero (bit ∷ bits) held h l t =
    let e : i + 0 ≡ i = omega arith in
    let t' : Tracks size i (bit ∷ bits) (i * size ∷ held) = rw e at t in
    rw ((head_freed size i bit held t'.0).1) refl
free-clear size i (suc j) (bit ∷ bits) held h l t =
    let e : i + suc j ≡ suc i + j = omega arith in
    let t' : Tracks size i (bit ∷ bits) ((suc i + j) * size ∷ held) = rw e at t in
    ground (arith, free-clear size (suc i) j bits held h (omega arith) t'.1)

clear_bits_step :
    (size n : ℕ) (bases : List ℕ) (bits : List Bool)
    → 0 < size
    → n < length bits
    → clear_bits size (n * size ∷ bases) bits ≡ clear_bits size bases (set bits n false)
unfolding clear_bits
clear_bits_step size n bases bits h l = rw (mul-div_cancel n h) (ground arith)

at_zero :
    (size n : ℕ) (bits : List Bool) (held : List ℕ)
    → Tracks size 0 bits (n * size ∷ held)
    → Tracks size 0 bits ((0 + n) * size ∷ held)
at_zero size n bits held t = rw zero-add t

clear_bits-cons :
    (size n : ℕ) (bases held : List ℕ) (bits : List Bool)
    → 0 < size
    → n < length bits
    → Tracks size 0 bits (n * size ∷ (bases ++ held))
    → Released size bases held (set bits n false) (clear_bits size bases (set bits n false))
    → Released size (n * size ∷ bases) held bits (clear_bits size (n * size ∷ bases) bits)
clear_bits-cons size n bases held bits h l t r = record {
  bits' = r.bits';
  returned = clear_bits_step size n bases bits h l ∙ r.returned;
  same_length = r.same_length ∙ length-set bits n false;
  more = omega (
    arith,
    r.more,
    free-clear size 0 n bits (bases ++ held) h l (at_zero size n bits (bases ++ held) t),
  );
  tracks = r.tracks;
}

in_bounds :
    (size n i : ℕ) (bases : List ℕ) (bits : List Bool)
    → AllFrames size i (length bits) bases
    → AllFrames size i (length (set bits n false)) bases
in_bounds size n i bases bits f = rw (length-set bits n false) f

pub clear_bits-Released :
    (size : ℕ) (bases held : List ℕ) (bits : List Bool)
    → 0 < size
    → AllFrames size 0 (length bits) bases
    → Tracks size 0 bits (bases ++ held)
    → Released size bases held bits (clear_bits size bases bits)
unfolding clear_bits
clear_bits-Released size [] held bits h f t = record {
  bits' = bits;
  returned = refl;
  same_length = refl;
  more = omega arith;
  tracks = t;
}
clear_bits-Released size (b ∷ bases) held bits h f t =
    let n = f.0.number in
    let t' : Tracks size 0 bits (n * size ∷ (bases ++ held)) = rw (← f.0.aligned) t in
    let r =
      clear_bits-Released size bases held (set bits n false) h (in_bounds size n 0 bases bits f.1) (
        Tracks-clear size 0 n bits (bases ++ held) h f.0.below
          (at_zero size n bits (bases ++ held) t')) in
    subst (λ x. Released size (x ∷ bases) held bits (clear_bits size (x ∷ bases) bits))
      (sym f.0.aligned) (clear_bits-cons size n bases held bits h f.0.below t' r)
