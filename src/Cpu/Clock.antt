-- ===== src/Cpu/Clock.antt =====
-- cpu/memory/cache.go: the loop of AddEntryCacheClock ends.
pub mod Replacement
pub mod Rounds
pub mod Passes
pub mod Found
use tp_ssoo_1c.Prelude.{
  ℕ, zero, suc, ◌+◌, ◌≤◌, ◌<◌, ◌≡◌, true, false, List, [], ◌∷◌, some, length, get_or, set, arith,
  length-set, Bool-cases, inl, inr, if◌then◌else◌, ◌∙◌, ap, if-intro,
}
use tp_ssoo_1c.Cpu.Cache.{
  CacheEntry, Cache, Saved, Incoming, no_entry, next_position, place, move_on, clear_use, put_hand,
  second_chance, clock_loop, add_entry_cache_clock, save_page, hand_from,
}

-- The entries that the clock passes over.
unfoldable pub chances : List CacheEntry → ℕ
chances [] = 0
chances (e ∷ es) = (if second_chance e then 1 else 0) + chances es

-- Moving the hand changes no entry but its mark.
chances-set :
    (es : List CacheEntry) (i : ℕ) (e : CacheEntry)
    → i < length es
    → chances (set es i e) + (if second_chance (get_or es i no_entry) then 1 else 0)
      ≡ chances es + (if second_chance e then 1 else 0)
unfolding chances
chances-set [] i e h = elim h [ ]
chances-set (x ∷ es) zero e h = omega arith
chances-set (x ∷ es) (suc i) e h = omega (arith, chances-set es i e)

pub next_position-lt :
    (i : ℕ) (es : List CacheEntry) → 0 < length es → next_position i es < length es
next_position-lt i es h = grind arith

chances-put_hand :
    (es : List CacheEntry) (i : ℕ) → i < length es → chances (put_hand i es) ≡ chances es
chances-put_hand es i h = omega (arith, chances-set es i _ h)

pub length-move_on :
    (f : CacheEntry → CacheEntry) (i : ℕ) (es : List CacheEntry)
    → length (move_on f i es) ≡ length es
length-move_on f i es = length-set _ (next_position i es) _ ∙ length-set es i _

-- The entry that the clock passes over.
abbrev passed_entry : CacheEntry → CacheEntry
passed_entry e = record (clear_use e) { position = false }

second_chance-passed_entry : (e : CacheEntry) → second_chance (passed_entry e) ≡ false
second_chance-passed_entry e = ground arith

chances-pass :
    (es : List CacheEntry) (i : ℕ)
    → i < length es
    → second_chance (get_or es i no_entry) ≡ true
    → suc (chances (set es i (passed_entry (get_or es i no_entry)))) ≡ chances es
chances-pass es i h e =
    let e' = passed_entry (get_or es i no_entry) in
    let step = chances-set es i e' h in
    let off = second_chance-passed_entry (get_or es i no_entry) in grind arith

chances-move_on :
    (i : ℕ) (es : List CacheEntry)
    → i < length es
    → second_chance (get_or es i no_entry) ≡ true
    → suc (chances (move_on clear_use i es)) ≡ chances es
chances-move_on i es h e =
    let es' = set es i (passed_entry (get_or es i no_entry)) in
    let same = length-set es i (passed_entry (get_or es i no_entry)) in
    let j = next_position-lt i es (omega (arith, h)) in
    ap suc (chances-put_hand es' (next_position i es) (omega (arith, j, same)))
    ∙ chances-pass es i h e

-- One step of the loop.
pub clock_loop-pass :
    (fuel : ℕ) (x : Incoming) (i : ℕ) (c : Cache)
    → second_chance (get_or c.entries i no_entry) ≡ true
    → clock_loop (suc fuel) x i c
      ≡ clock_loop fuel x
          (next_position i c.entries)
          (record c { entries = move_on clear_use i c.entries })
unfolding clock_loop
clock_loop-pass fuel x i c e = rw (e, clock_loop)

pub clock_loop-stop :
    (fuel : ℕ) (x : Incoming) (i : ℕ) (c : Cache)
    → second_chance (get_or c.entries i no_entry) ≡ false
    → clock_loop (suc fuel) x i c
      ≡ some (record {
        entries = place x.pid x.page x.content i c.entries;
        saved = save_page (get_or c.entries i no_entry) c.saved;
      })
unfolding clock_loop
clock_loop-stop fuel x i c e = rw (e, clock_loop)

-- The loop ends before its fuel does, if the fuel is more than the entries that are passed over.
clock_loop-some :
    (fuel : ℕ) (x : Incoming) (i : ℕ) (c : Cache)
    → i < length c.entries
    → chances c.entries < fuel
    → (c' : Cache) × (clock_loop fuel x i c ≡ some c')
clock_loop-some zero x i c h l = elim l [ ]
clock_loop-some (suc fuel) x i c h l =
    elim (Bool-cases (second_chance (get_or c.entries i no_entry))) [
      | inl e ↦
          let moved = move_on clear_use i c.entries in
          let same = length-move_on clear_use i c.entries in
          let fewer = chances-move_on i c.entries h e in
          let j = next_position-lt i c.entries (omega (arith, h)) in
          let (c', r) =
            clock_loop-some fuel x (next_position i c.entries) (record c { entries = moved })
              (omega (arith, j, same)) (omega (arith, fewer, l)) in
          (c', clock_loop-pass fuel x i c e ∙ r)
      | inr e ↦ (_, clock_loop-stop fuel x i c e)
    ]

chances-le : (es : List CacheEntry) → chances es ≤ length es
unfolding chances
chances-le [] = omega arith
chances-le (e ∷ es) = elim (Bool-cases (second_chance e)) [
  | inl h ↦ rw (h) (omega (arith, chances-le es))
  | inr h ↦ rw (h) (omega (arith, chances-le es))
]

pub hand_from-lt :
    (n : ℕ) (e : CacheEntry) (es : List CacheEntry) → hand_from n (e ∷ es) < n + suc (length es)
unfolding hand_from
hand_from-lt n e [] = if-intro (λ x. x < n + 1) e.position n 0 (omega arith) (omega arith)
hand_from-lt n e (e' ∷ es) =
    if-intro (λ x. x < n + suc (suc (length es))) e.position n (hand_from (suc n) (e' ∷ es))
      (omega arith) (omega (arith, hand_from-lt (suc n) e' es))

clock_from_hand-some :
    (x : Incoming) (es : List CacheEntry) (saved : List Saved)
    → 0 < length es
    → (c' : Cache) × (clock_loop
          (suc (length es))
          x
          (hand_from 0 es)
          (record { entries = es; saved = saved })
        ≡ some c')
clock_from_hand-some x [] saved h = elim h [ ]
clock_from_hand-some x (e ∷ es) saved h =
    clock_loop-some (suc (suc (length es))) x (hand_from 0 (e ∷ es))
      (record { entries = e ∷ es; saved = saved }) (omega (arith, hand_from-lt 0 e es))
      (omega (arith, chances-le (e ∷ es)))

-- `AddEntryCacheClock` ends on every cache that has an entry: a number of rounds of its loop that
-- is one more than the number of entries is enough.
pub add_entry_cache_clock-some :
    (x : Incoming) (c : Cache)
    → 0 < length c.entries
    → (c' : Cache) × (add_entry_cache_clock x c ≡ some c')
unfolding add_entry_cache_clock
add_entry_cache_clock-some x c h = clock_from_hand-some x c.entries c.saved h
