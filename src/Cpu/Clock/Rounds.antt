-- ===== src/Cpu/Clock/Rounds.antt =====
-- cpu/memory/cache.go: the passes of AddEntryCacheClockM go once around the cache and come back to
-- the entry where they began.
use tp_ssoo_1c.Prelude.{ℕ, zero, suc, ◌+◌, ◌-◌, ◌%◌, ◌<◌, ◌≡◌, arith, ap, ◌∙◌}

-- Where the hand is after a number of moves over `l` entries.
abbrev pub walk : ℕ → ℕ → ℕ → ℕ
walk l zero i = i
walk l (suc n) i = walk l n ((i + 1) % l)

next-within : (l i : ℕ) → i + 1 < l → (i + 1) % l ≡ i + 1
next-within l i h = grind arith

walk-within : (l n i : ℕ) → i + n < l → walk l n i ≡ i + n
walk-within l zero i h = omega arith
walk-within l (suc n) i h =
    ap (walk l n) (next-within l i (omega (arith, h)))
    ∙ walk-within l n (i + 1) (omega (arith, h))
    ∙ omega arith

walk-add : (l m n k i : ℕ) → k ≡ m + n → walk l k i ≡ walk l n (walk l m i)
walk-add l zero n k i h = let e : k ≡ n = omega (arith, h) in ap (λ k. walk l k i) e
walk-add l (suc m) n zero i h = absurd (omega (arith, h))
walk-add l (suc m) n (suc k) i h = walk-add l m n k ((i + 1) % l) (omega (arith, h))

next_last : (l a : ℕ) → suc a ≡ l → (a + 1) % l ≡ 0
next_last l a h = grind arith

-- A whole turn: to the last entry, on to the first, and then to where it began.
pub walk-turn : (l i : ℕ) → i < l → walk l l i ≡ i
walk-turn l i h =
    let a = l - suc i in
    let last = walk-within l a i (omega (arith, h)) in
    let parts : l ≡ a + suc i = omega (arith, h) in
    let at_last : suc (i + a) ≡ l = omega (arith, h) in
    walk-add l a (suc i) l i parts
    ∙ ap (walk l (suc i)) last
    ∙ ap (walk l i) (next_last l (i + a) at_last)
    ∙ walk-within l i 0 (omega (arith, h))
    ∙ omega arith
