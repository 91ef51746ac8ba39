-- ===== src/Cpu/Clock/Found.antt =====
-- cpu/memory/cache.go: AddEntryCacheClockM always finds an entry that it can replace.
use tp_ssoo_1c.Prelude.{ℕ, suc, ◌<◌, ◌≡◌, refl, Bool, true, false, not, List, length, arith}
use tp_ssoo_1c.Cpu.Cache.{
  CacheEntry, Cache, Saved, Incoming, Pass, placed, missed, clock_pass, unused_clean,
  unused_modified, keep, clear_use, second_pass, clock_m_round, rounds, add_entry_cache_clock_m,
  hand_from,
}
use tp_ssoo_1c.Cpu.Clock.Replacement.{Stored, stored_of, Replaces, hand_from-within}
use tp_ssoo_1c.Cpu.Clock.Passes.{Ends, Looked, clock_pass-turn}

module _ (x : Incoming) (old : List Stored) (saved : List Saved) where
  second_pass-Ends :
      (P P' : ℕ → Cache → Type 0) (n : ℕ) (p : Pass)
      → Ends x old saved P p
      → ((j : ℕ) (c : Cache)
          → P j c
          → Ends x old saved P' (clock_pass unused_modified clear_use x n j c))
      → Ends x old saved P' (second_pass x n p)
  second_pass-Ends P P' n (placed c) e f = e
  second_pass-Ends P P' n (missed j c) e f = f j c e

  rounds-Ends :
      (P P' : ℕ → Cache → Type 0) (k n : ℕ) (p : Pass)
      → Ends x old saved P p
      → ((j : ℕ) (c : Cache) → P j c → Ends x old saved P' (rounds k x n (clock_m_round x n j c)))
      → Ends x old saved P' (rounds (suc k) x n p)
  rounds-Ends P P' k n (placed c) e f = e
  rounds-Ends P P' k n (missed j c) e f = f j c e

  Replaced :
      (P : ℕ → Cache → Type 0) (p : Pass)
      → Ends x old saved P p
      → ((j : ℕ) (c : Cache) → ¬ P j c)
      → (c' : Cache) × (p ≡ placed c') × Replaces x old saved c'
  Replaced P (placed c) e f = (c, refl, e)
  Replaced P (missed j c) e f = absurd (f j c e)

  -- A round with `R` before it, `Q` after its first pass and `S` after its second.
  clock_m_round-Ends :
      (R Q S : CacheEntry → Bool) (l i j : ℕ) (c : Cache)
      → ((b : Bool) (e : CacheEntry) → Q (record e { position = b }) ≡ Q e)
      → ((b : Bool) (e : CacheEntry) → S (record e { position = b }) ≡ S e)
      → ((e : CacheEntry) → S e ≡ true → S (clear_use e) ≡ true)
      → ((e : CacheEntry) → R e ≡ true → unused_clean e ≡ false → Q e ≡ true)
      → ((e : CacheEntry) → Q e ≡ true → unused_modified e ≡ false → S (clear_use e) ≡ true)
      → i < l
      → Looked R i old saved l i j c
      → Ends x old saved (Looked S i old saved l i) (clock_m_round x l j c)
  unfolding clock_m_round
  clock_m_round-Ends R Q S l i j c free free' stable first second h k =
      second_pass-Ends (Looked Q i old saved l i) _ l _
        (clock_pass-turn unused_clean keep Q (λ e. refl) free x old saved R (λ e q. q) first l i j c
          h k)
        (λ j' c' k'.
          clock_pass-turn unused_modified clear_use S (λ e. refl) free' x old saved Q stable second
            l i j' c' h k')

abbrev anything : CacheEntry → Bool
anything e = true

abbrev unused : CacheEntry → Bool
unused e = not e.use_bit

abbrev nothing : CacheEntry → Bool
nothing e = false

-- The first round leaves the entry at the hand unused, and the second replaces it.
first_round :
    (x : Incoming) (old : List Stored) (saved : List Saved) (l i j : ℕ) (c : Cache)
    → i < l
    → Looked anything i old saved l i j c
    → Ends x old saved (Looked unused i old saved l i) (clock_m_round x l j c)
first_round x old saved l i j c =
    clock_m_round-Ends x old saved anything anything unused l i j c (λ b e. refl) (λ b e. refl)
      (λ e h. refl) (λ e h n. refl) (λ e h n. refl)

second_round :
    (x : Incoming) (old : List Stored) (saved : List Saved) (l i j : ℕ) (c : Cache)
    → i < l
    → Looked unused i old saved l i j c
    → Ends x old saved (Looked nothing i old saved l i) (clock_m_round x l j c)
second_round x old saved l i j c =
    clock_m_round-Ends x old saved unused unused_modified nothing l i j c (λ b e. refl)
      (λ b e. refl) (λ e h. h) (λ e h n. ground arith) (λ e h n. ground arith)

nothing_seen :
    (i : ℕ) (old : List Stored) (saved : List Saved) (l n j : ℕ) (c : Cache)
    → ¬ Looked nothing i old saved l n j c
nothing_seen i old saved l n j c k = let e = k.seen in cc

-- The hand starts anywhere.
three_rounds :
    (x : Incoming) (i : ℕ) (c : Cache)
    → i < length c.entries
    → (c' : Cache) × (rounds 3 x (length c.entries) (missed i c) ≡ placed c')
      × Replaces x (stored_of c) c.saved c'
three_rounds x i c h =
    let old = stored_of c in
    let l = length c.entries in
    Replaced x old c.saved (Looked nothing i old c.saved l i) _
      (rounds-Ends x old c.saved (Looked unused i old c.saved l i) _ 1 l _
        (first_round x old c.saved l i i c h
          (record { size = refl; hand = refl; same = refl; unsent = refl; seen = refl }))
        (λ j c' k.
          rounds-Ends x old c.saved (Looked nothing i old c.saved l i) _ 0 l _
            (second_round x old c.saved l i j c' h k)
            (λ j' c'' k'. absurd (nothing_seen i old c.saved l i j' c'' k'))))
      (nothing_seen i old c.saved l i)

-- On every cache that has an entry, with the hand anywhere and any `Use` and `Modified` bits, the
-- three rounds of `AddEntryCacheClockM` always find an entry, so its error never occurs. It
-- replaces that one entry by the page that comes, sends to memory what the entry stored, if it
-- had an owner, and changes nothing of what the other entries store.
pub add_entry_cache_clock_m-Replaces :
    (x : Incoming) (c : Cache)
    → 0 < length c.entries
    → (c' : Cache) × (add_entry_cache_clock_m x c ≡ placed c') × Replaces x (stored_of c) c.saved c'
unfolding add_entry_cache_clock_m
add_entry_cache_clock_m-Replaces x c h =
    three_rounds x (hand_from 0 c.entries) c (hand_from-within c.entries h)
