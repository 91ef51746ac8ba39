-- ===== src/Cpu/Address/Digits.antt =====
-- cpu/memory/mmu.go: the number that the digits of a logical address stand for, and what `sum`
-- does to it.
use native.Mathlib.Nat.{pow-suc, pow-zero}
use native.Mathlib.Decide.{ℕ_discrete}
use tp_ssoo_1c.Prelude.{
  ℕ, zero, suc, ◌+◌, ◌*◌, ◌%◌, ◌^◌, ◌≤◌, ◌<◌, ◌≡◌, refl, sym, ◌⊎◌, inl, inr, List, [], ◌∷◌, length,
  get_or, set, replicate, arith, length-set, ap, ◌≢◌, ◌∙◌,
}
use tp_ssoo_1c.Cpu.Address.{sum_loop, sum, sum_times}

-- The number that the first `p` digits stand for, in base `m`.
unfoldable pub value : ℕ → List ℕ → ℕ → ℕ
value m ds zero = 0
value m ds (suc p) = value m ds p * m + get_or ds p 0

abbrev pub AllBelow : ℕ → List ℕ → Type 0
AllBelow m [] = Unit {0}
AllBelow m (d ∷ ds) = (d < m) × AllBelow m ds

get_or-lt : (m : ℕ) (ds : List ℕ) (i : ℕ) → AllBelow m ds → i < length ds → get_or ds i 0 < m
get_or-lt m [] i h l = elim l [ ]
get_or-lt m (d ∷ ds) zero h l = h.0
get_or-lt m (d ∷ ds) (suc i) h l = get_or-lt m ds i h.1 (omega arith)

set-AllBelow : (m : ℕ) (ds : List ℕ) (i v : ℕ) → AllBelow m ds → v < m → AllBelow m (set ds i v)
set-AllBelow m [] i v h l = tt
set-AllBelow m (d ∷ ds) zero v h l = (l, h.1)
set-AllBelow m (d ∷ ds) (suc i) v h l = (h.0, set-AllBelow m ds i v h.1 l)

get_or-set_self : (ds : List ℕ) (i v : ℕ) → i < length ds → get_or (set ds i v) i 0 ≡ v
get_or-set_self [] i v h = elim h [ ]
get_or-set_self (d ∷ ds) zero v h = refl
get_or-set_self (d ∷ ds) (suc i) v h = get_or-set_self ds i v (omega arith)

get_or-set_lt : (ds : List ℕ) (i j v : ℕ) → j < i → get_or (set ds i v) j 0 ≡ get_or ds j 0
get_or-set_lt [] i j v h = refl
get_or-set_lt (d ∷ ds) zero j v h = elim h [ ]
get_or-set_lt (d ∷ ds) (suc i) zero v h = refl
get_or-set_lt (d ∷ ds) (suc i) (suc j) v h = get_or-set_lt ds i j v (omega arith)

get_or-set_gt : (ds : List ℕ) (i j v : ℕ) → i < j → get_or (set ds i v) j 0 ≡ get_or ds j 0
get_or-set_gt [] i j v h = refl
get_or-set_gt (d ∷ ds) zero zero v h = elim h [ ]
get_or-set_gt (d ∷ ds) zero (suc j) v h = refl
get_or-set_gt (d ∷ ds) (suc i) zero v h = refl
get_or-set_gt (d ∷ ds) (suc i) (suc j) v h = get_or-set_gt ds i j v (omega arith)

get_or-replicate : (n i : ℕ) → ◌≡◌ {A = ℕ} (get_or (replicate n 0) i 0) 0
get_or-replicate zero i = refl
get_or-replicate (suc n) zero = refl
get_or-replicate (suc n) (suc i) = get_or-replicate n i

value-set : (m : ℕ) (ds : List ℕ) (i v p : ℕ) → p ≤ i → value m (set ds i v) p ≡ value m ds p
unfolding value
value-set m ds i v zero h = refl
value-set m ds i v (suc p) h = rw (value-set m ds i v p (omega arith), get_or-set_lt ds i p v h)

length-sum_loop : (m p : ℕ) (ds : List ℕ) → length (sum_loop m p ds) ≡ length ds
unfolding sum_loop
length-sum_loop m zero ds = refl
length-sum_loop m (suc p) ds = ground (
  arith,
  length-sum_loop m p (set ds p 0),
  length-set ds p 0,
  length-set ds p (suc (get_or ds p 0)),
)

sum_loop-AllBelow :
    (m p : ℕ) (ds : List ℕ) → p ≤ length ds → AllBelow m ds → AllBelow m (sum_loop m p ds)
unfolding sum_loop
sum_loop-AllBelow m zero ds l h = h
sum_loop-AllBelow m (suc p) ds l h = ground (
  arith,
  get_or-lt m ds p h l,
  sum_loop-AllBelow m p (set ds p 0),
  length-set ds p 0,
  set-AllBelow m ds p 0 h,
  set-AllBelow m ds p (suc (get_or ds p 0)) h,
)

-- The digits from `p` on are left alone.
get_or-sum_loop : (m p q : ℕ) (ds : List ℕ) → p ≤ q → get_or (sum_loop m p ds) q 0 ≡ get_or ds q 0
unfolding sum_loop
get_or-sum_loop m zero q ds h = refl
get_or-sum_loop m (suc p) q ds h = ground (
  arith,
  get_or-sum_loop m p q (set ds p 0),
  get_or-set_gt ds p q 0,
  get_or-set_gt ds p q (suc (get_or ds p 0)),
)

-- One more, or back to zero after the largest number.
abbrev pub Next : ℕ → ℕ → ℕ → Type 0
Next largest old new = (new ≡ suc old) ⊎ ((new ≡ 0) × (suc old ≡ largest))

Next-carry :
    (m power x old new : ℕ)
    → suc x ≡ m
    → Next power old new
    → Next (power * m) (old * m + x) (new * m + 0)
Next-carry m power x old new e (inl h) = inl (rw (h, ← e) (omega arith))
Next-carry m power x old new e (inr h) = inr (rw h.0 (omega arith), rw (← h.1, ← e) (omega arith))

sum_loop_carry :
    (m p : ℕ) (ds : List ℕ)
    → suc (get_or ds p 0) ≡ m
    → sum_loop m (suc p) ds ≡ sum_loop m p (set ds p 0)
unfolding sum_loop
sum_loop_carry m p ds e = ground arith

sum_loop_stop :
    (m p : ℕ) (ds : List ℕ)
    → suc (get_or ds p 0) ≢ m
    → sum_loop m (suc p) ds ≡ set ds p (suc (get_or ds p 0))
unfolding sum_loop
sum_loop_stop m p ds e = ground arith

-- A carry out of digit `p`: what stands there is then zero.
value_carry :
    (m p : ℕ) (ds : List ℕ)
    → p < length ds
    → value m (sum_loop m p (set ds p 0)) (suc p) ≡ value m (sum_loop m p (set ds p 0)) p * m + 0
unfolding value
value_carry m p ds h =
    rw (get_or-sum_loop m p p (set ds p 0) (omega arith), get_or-set_self ds p 0 h)

value_stop :
    (m p : ℕ) (ds : List ℕ)
    → p < length ds
    → value m (set ds p (suc (get_or ds p 0))) (suc p) ≡ suc (value m ds (suc p))
unfolding value
value_stop m p ds h =
    rw
      (
        get_or-set_self ds p (suc (get_or ds p 0)) h,
        value-set m ds p (suc (get_or ds p 0)) p (omega arith),
      )
      (omega arith)

value-suc : (m p : ℕ) (ds : List ℕ) → value m ds (suc p) ≡ value m ds p * m + get_or ds p 0
unfolding value
value-suc m p ds = refl

Next-sum_loop-suc :
    (m p : ℕ) (ds : List ℕ)
    → p < length ds
    → Next (m ^ p) (value m (set ds p 0) p) (value m (sum_loop m p (set ds p 0)) p)
    → Next (m ^ suc p) (value m ds (suc p)) (value m (sum_loop m (suc p) ds) (suc p))
Next-sum_loop-suc m p ds h next = elim (ℕ_discrete (suc (get_or ds p 0)) m) [
  | yes e ↦
      rw (sum_loop_carry m p ds e, value_carry m p ds h, value-suc m p ds, pow-suc)
        (Next-carry m (m ^ p) (get_or ds p 0) (value m ds p) _ e
          (rw (value-set m ds p 0 p (omega arith)) at next))
  | no e ↦ rw (sum_loop_stop m p ds e) (inl (value_stop m p ds h))
]

Next-sum_loop :
    (m p : ℕ) (ds : List ℕ)
    → p ≤ length ds
    → Next (m ^ p) (value m ds p) (value m (sum_loop m p ds) p)
unfolding sum_loop value
Next-sum_loop m zero ds h = inr (refl, sym (pow-zero m))
Next-sum_loop m (suc p) ds h =
    Next-sum_loop-suc m p ds h
      (Next-sum_loop m p (set ds p 0) (rw (length-set ds p 0) (omega arith)))

pub Next-sum :
    (m : ℕ) (ds : List ℕ)
    → Next (m ^ length ds) (value m ds (length ds)) (value m (sum ds m) (length ds))
unfolding sum
Next-sum m ds = Next-sum_loop m (length ds) ds (omega arith)

pub length-sum : (m : ℕ) (ds : List ℕ) → length (sum ds m) ≡ length ds
unfolding sum
length-sum m ds = length-sum_loop m (length ds) ds

pub sum-AllBelow : (m : ℕ) (ds : List ℕ) → AllBelow m ds → AllBelow m (sum ds m)
unfolding sum
sum-AllBelow m ds h = sum_loop-AllBelow m (length ds) ds (omega arith) h

pub length-sum_times : (n m : ℕ) (ds : List ℕ) → length (sum_times n ds m) ≡ length ds
unfolding sum_times
length-sum_times zero m ds = refl
length-sum_times (suc n) m ds = rw (length-sum_times n m (sum ds m)) (length-sum m ds)

pub sum_times-AllBelow : (n m : ℕ) (ds : List ℕ) → AllBelow m ds → AllBelow m (sum_times n ds m)
unfolding sum_times
sum_times-AllBelow zero m ds h = h
sum_times-AllBelow (suc n) m ds h = sum_times-AllBelow n m (sum ds m) (sum-AllBelow m ds h)

Next-mod :
    (largest old new n : ℕ) → Next largest old new → (new + n) % largest ≡ (old + suc n) % largest
Next-mod largest old new n (inl h) = ap (λ (x : ℕ). x % largest) (omega arith)
Next-mod largest old new n (inr h) = rw (h.0, ← h.1) (grind arith)

-- The number of the digits that `n` increments leave, up to a multiple of the largest number.
pub value-sum_times :
    (n m : ℕ) (ds : List ℕ)
    → value m (sum_times n ds m) (length ds) % m ^ length ds
      ≡ (value m ds (length ds) + n) % m ^ length ds
unfolding sum_times
value-sum_times zero m ds = ap (λ (x : ℕ). x % m ^ length ds) (omega arith)
value-sum_times (suc n) m ds =
    (rw (length-sum m ds) at (value-sum_times n m (sum ds m)))
    ∙ Next-mod (m ^ length ds) (value m ds (length ds)) _ n (Next-sum m ds)

value_step_lt : (m x old power : ℕ) → old < power → x < m → old * m + x < power * m
value_step_lt m x old power h l = grind arith

pub value-lt : (m : ℕ) (ds : List ℕ) (p : ℕ) → AllBelow m ds → p ≤ length ds → value m ds p < m ^ p
unfolding value
value-lt m ds zero h l = omega (arith, pow-zero m)
value-lt m ds (suc p) h l = rw pow-suc (
    value_step_lt m (get_or ds p 0) (value m ds p) (m ^ p) (value-lt m ds p h (omega arith))
      (get_or-lt m ds p h l))

pub value-replicate : (m n p : ℕ) → value m (replicate n 0) p ≡ 0
unfolding value
value-replicate m n zero = refl
value-replicate m n (suc p) = rw (value-replicate m n p, get_or-replicate n p) (omega arith)

pub replicate-AllBelow : (m n : ℕ) → 0 < m → AllBelow m (replicate n 0)
replicate-AllBelow m zero h = tt
replicate-AllBelow m (suc n) h = (h, replicate-AllBelow m n h)

-- The first digit counts for the highest power.
pub value-cons :
    (m d : ℕ) (ds : List ℕ) (p : ℕ) → value m (d ∷ ds) (suc p) ≡ d * m ^ p + value m ds p
unfolding value
value-cons m d ds zero = rw pow-zero (omega arith)
value-cons m d ds (suc p) = rw (value-cons m d ds p, pow-suc) (grind arith)
