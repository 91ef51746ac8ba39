-- ===== src/Prelude/Counting.antt =====
-- Lists of numbers below a bound, each of which stands in the list once at most.
use Prim.Native.Nat.{ℕ, zero, suc, ◌+◌, ◌≤◌, ◌<◌}
use mathlib.Core.Path.{◌≡◌, refl}
use mathlib.Core.List.{List, [], ◌∷◌}
use mathlib.Core.Logic.{◌↔◌, inl, inr}
use mathlib.Core.Bool.{true}
use native.Mathlib.Omega.{arith}
use tp_ssoo_1c.Prelude.Tests.{ltb, ◌==◌, if◌then◌else◌, Bool-cases}
use tp_ssoo_1c.Prelude.Lists.{length, count, count_same}

-- How many elements of a list are below a bound.
total : ℕ → List ℕ → ℕ
total zero q = 0
total (suc n) q = total n q + count n q

total-cons : (n x : ℕ) (q : List ℕ) → total n (x ∷ q) ≡ total n q + (if ltb x n then 1 else 0)
unfolding total count
total-cons zero x q = ground arith
total-cons (suc n) x q = ground (arith, total-cons n x q)

total-nil : (n : ℕ) → total n [] ≡ 0
unfolding total count
total-nil zero = refl
total-nil (suc n) = omega (arith, total-nil n)

above-tail :
    (n x : ℕ) (q : List ℕ)
    → ((y : ℕ) → n ≤ y → count y (x ∷ q) ≡ 0)
    → (y : ℕ) → n ≤ y
    → count y q ≡ 0
unfolding count
above-tail n x q h y l = omega (arith, h y l)

head-below : (n x : ℕ) (q : List ℕ) → ((y : ℕ) → n ≤ y → count y (x ∷ q) ≡ 0) → ltb x n ≡ true
head-below n x q h = elim (Bool-cases (ltb x n)) [
  | inl e ↦ e
  | inr e ↦ absurd (omega (arith, count_same x q, h x (ground arith)))
]

length-total : (n : ℕ) (q : List ℕ) → ((y : ℕ) → n ≤ y → count y q ≡ 0) → length q ≡ total n q
length-total n [] h = omega (arith, total-nil n)
length-total n (x ∷ q) h =
    let below = head-below n x q h in
    let rest = length-total n q (above-tail n x q h) in ground (arith, total-cons n x q)

total-le : (n : ℕ) (q : List ℕ) → ((y : ℕ) → count y q ≤ 1) → total n q ≤ n
unfolding total
total-le zero q h = omega arith
total-le (suc n) q h = omega (arith, total-le n q h, h n)

total-full :
    (n : ℕ) (q : List ℕ)
    → ((y : ℕ) → count y q ≤ 1)
    → total n q ≡ n
    → (x : ℕ) → x < n
    → count x q ≡ 1
unfolding total
total-full zero q h e x l = elim l [ ]
total-full (suc n) q h e x l =
    let bound = total-le n q h in
    let one = h n in
    elim (Bool-cases (x == n)) [
      | inl same ↦ ground arith
      | inr other ↦ total-full n q h (omega arith) x (ground arith)
    ]

total-ones : (n : ℕ) (q : List ℕ) → ((x : ℕ) → x < n → count x q ≡ 1) → total n q ≡ n
unfolding total
total-ones zero q h = refl
total-ones (suc n) q h = omega (arith, total-ones n q (λ x l. h x (omega arith)), h n (omega arith))

-- A list of different numbers below `n` has `n` elements exactly if it has them all.
pub length-full :
    (n : ℕ) (q : List ℕ)
    → ((y : ℕ) → n ≤ y → count y q ≡ 0)
    → ((y : ℕ) → count y q ≤ 1)
    → (length q ≡ n) ↔ ((x : ℕ) → x < n → count x q ≡ 1)
length-full n q above once =
    let e = length-total n q above in
    (λ h. total-full n q once (omega arith), λ h. omega (arith, total-ones n q h))
