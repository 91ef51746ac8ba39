-- ===== src/Memory/Frames/Bits.antt =====
-- memoria/storage/storage.go: what `reservationBits` says of the frames that processes hold.
use tp_ssoo_1c.Prelude.{
  ℕ, suc, ◌*◌, ◌≤◌, ◌<◌, ◌≡◌, refl, Bool, true, false, List, [], ◌∷◌, ◌++◌, arith, count,
  count_other,
}

abbrev pub bit_value : Bool → ℕ
bit_value true = 1
bit_value false = 0

-- The frames that are not reserved.
unfoldable pub free : List Bool → ℕ
free [] = 0
free (true ∷ bits) = free bits
free (false ∷ bits) = suc (free bits)

-- The bits from frame `i` on say how often each frame is held: once if it is reserved, else never.
abbrev pub Tracks : ℕ → ℕ → List Bool → List ℕ → Type 0
Tracks size i [] held = Unit {0}
Tracks size i (bit ∷ bits) held =
    (count (i * size) held ≡ bit_value bit) × Tracks size (suc i) bits held

-- The base of one of the frames `lo .. hi - 1`.
pub record IsFrame (size lo hi b : ℕ) : Type 0 where
  pub number : ℕ
  pub aligned : b ≡ number * size
  pub above : lo ≤ number
  pub below : number < hi

abbrev pub AllFrames : ℕ → ℕ → ℕ → List ℕ → Type 0
AllFrames size lo hi [] = Unit {0}
AllFrames size lo hi (b ∷ bs) = IsFrame size lo hi b × AllFrames size lo hi bs

pub AllFrames-append :
    (size lo hi : ℕ) (xs ys : List ℕ)
    → AllFrames size lo hi xs
    → AllFrames size lo hi ys
    → AllFrames size lo hi (xs ++ ys)
AllFrames-append size lo hi [] ys hx hy = hy
AllFrames-append size lo hi (x ∷ xs) ys hx hy = (hx.0, AllFrames-append size lo hi xs ys hx.1 hy)

IsFrame-widen : (size lo lo' hi b : ℕ) → lo' ≤ lo → IsFrame size lo hi b → IsFrame size lo' hi b
IsFrame-widen size lo lo' hi b h f = record {
  number = f.number;
  aligned = f.aligned;
  above = omega arith;
  below = f.below;
}

pub AllFrames-widen :
    (size lo lo' hi : ℕ) (bs : List ℕ)
    → lo' ≤ lo
    → AllFrames size lo hi bs
    → AllFrames size lo' hi bs
AllFrames-widen size lo lo' hi [] h f = tt
AllFrames-widen size lo lo' hi (b ∷ bs) h f =
    (IsFrame-widen size lo lo' hi b h f.0, AllFrames-widen size lo lo' hi bs h f.1)

pub mul_lt : (size i j : ℕ) → 0 < size → i < j → i * size < j * size
mul_lt size i j h l = grind arith

-- A frame below `lo` is not among the frames from `lo` on.
pub count_below :
    (size lo hi i : ℕ) (bs : List ℕ)
    → 0 < size
    → i < lo
    → AllFrames size lo hi bs
    → count (i * size) bs ≡ 0
unfolding count
count_below size lo hi i [] h l f = refl
count_below size lo hi i (b ∷ bs) h l f =
    ground (
      arith,
      f.0.aligned,
      f.0.above,
      mul_lt size i f.0.number h,
      count_below size lo hi i bs h l f.1,
    )

-- Only the counts of the held frames matter.
pub Tracks-cong :
    (size i : ℕ) (bits : List Bool) (held held' : List ℕ)
    → ((b : ℕ) → count b held ≡ count b held')
    → Tracks size i bits held
    → Tracks size i bits held'
Tracks-cong size i [] held held' h t = tt
Tracks-cong size i (bit ∷ bits) held held' h t =
    (omega (arith, h (i * size)), Tracks-cong size (suc i) bits held held' h t.1)

-- Holding a frame below `i` more or less changes nothing from `i` on.
pub Tracks-cons_below :
    (size i j : ℕ) (bits : List Bool) (held : List ℕ)
    → 0 < size
    → j < i
    → Tracks size i bits held
    → Tracks size i bits (j * size ∷ held)
Tracks-cons_below size i j [] held h l t = tt
Tracks-cons_below size i j (bit ∷ bits) held h l t = (
  omega (arith, count_other (i * size) (j * size) held, mul_lt size j i h l, t.0),
  Tracks-cons_below size (suc i) j bits held h (omega arith) t.1,
)

pub Tracks-uncons_below :
    (size i j : ℕ) (bits : List Bool) (held : List ℕ)
    → 0 < size
    → j < i
    → Tracks size i bits (j * size ∷ held)
    → Tracks size i bits held
Tracks-uncons_below size i j [] held h l t = tt
Tracks-uncons_below size i j (bit ∷ bits) held h l t = (
  omega (arith, count_other (i * size) (j * size) held, mul_lt size j i h l, t.0),
  Tracks-uncons_below size (suc i) j bits held h (omega arith) t.1,
)
