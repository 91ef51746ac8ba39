-- ===== src/Cpu/Clock/Passes.antt =====
-- cpu/memory/cache.go: what a pass of AddEntryCacheClockM leaves where it replaces no entry.
use tp_ssoo_1c.Prelude.{
  ◌+◌, ◌%◌, refl, inl, inr, Bool-cases, sym, subst, zero, suc, true, false, ◌≡◌, ◌<◌, ◌∙◌, List, [],
  ◌∷◌, ℕ, Bool, length, set, get_or, Bool, List, ℕ, length, ap, arith,
}
use tp_ssoo_1c.Cpu.Cache.{
  CacheEntry, Cache, Saved, Incoming, Pass, placed, missed, no_entry, next_position, place, move_on,
  put_hand, clock_pass, save_page,
}
use tp_ssoo_1c.Cpu.Clock.{length-move_on, List, ℕ, length, arith, ap}
use tp_ssoo_1c.Cpu.Clock.Replacement.{
  Stored, stored, stored_of, Replaces, place-Replaces, stored-move_on, Replaces-along,
}
use tp_ssoo_1c.Cpu.Clock.Rounds.{walk, walk-turn}

-- How a pass ends: with the page in an entry's place, or with the hand and the cache as `P` says.
abbrev pub Ends : Incoming → List Stored → List Saved → (ℕ → Cache → Type 0) → Pass → Type 0
Ends x old saved P (placed c) = Replaces x old saved c
Ends x old saved P (missed i c) = P i c

-- What holds while no entry is replaced: the hand is at `i`, nothing that is stored has changed,
-- and the entry `m` satisfies `Q`.
pub record Looked (Q : CacheEntry → Bool) (m : ℕ) (old : List Stored) (saved : List Saved)
    (n i j : ℕ) (c : Cache) : Type 0 where
  pub size : length c.entries ≡ n
  pub hand : j ≡ i
  pub same : stored_of c ≡ old
  pub unsent : c.saved ≡ saved
  pub seen : Q (get_or c.entries m no_entry) ≡ true

Q-set :
    (Q : CacheEntry → Bool) (es : List CacheEntry) (i m : ℕ) (v : CacheEntry)
    → Q (get_or es m no_entry) ≡ true
    → (Q (get_or es i no_entry) ≡ true → Q v ≡ true)
    → Q (get_or (set es i v) m no_entry) ≡ true
Q-set Q [] i m v h f = h
Q-set Q (e ∷ es) zero zero v h f = f h
Q-set Q (e ∷ es) zero (suc m) v h f = h
Q-set Q (e ∷ es) (suc i) zero v h f = h
Q-set Q (e ∷ es) (suc i) (suc m) v h f = Q-set Q es i m v h f

get_or-set_self :
    (es : List CacheEntry) (i : ℕ) (v : CacheEntry)
    → i < length es
    → get_or (set es i v) i no_entry ≡ v
get_or-set_self [] i v h = elim h [ ]
get_or-set_self (e ∷ es) zero v h = refl
get_or-set_self (e ∷ es) (suc i) v h = get_or-set_self es i v (omega (arith, h))

Looked-hand :
    (Q : CacheEntry → Bool) (m : ℕ) (old : List Stored) (saved : List Saved) (n i j : ℕ) (c : Cache)
    → Looked Q m old saved n i j c
    → Looked Q m old saved n i i c
Looked-hand Q m old saved n i j c k = record {
  size = k.size;
  hand = refl;
  same = k.same;
  unsent = k.unsent;
  seen = k.seen;
}

mod-lt : (i l : ℕ) → i < l → (i + 1) % l < l
mod-lt i l h = grind arith

module _ (test : CacheEntry → Bool) (pass : CacheEntry → CacheEntry) (Q : CacheEntry → Bool)
    (keeps : (e : CacheEntry) → stored (pass e) ≡ stored e)
    (free : (b : Bool) (e : CacheEntry) → Q (record e { position = b }) ≡ Q e) where
  Q-put_hand :
      (es : List CacheEntry) (j m : ℕ)
      → Q (get_or es m no_entry) ≡ true
      → Q (get_or (put_hand j es) m no_entry) ≡ true
  Q-put_hand es j m h = Q-set Q es j m _ h (λ e. free true (get_or es j no_entry) ∙ e)

  -- The entry that the hand leaves satisfies `Q` if `pass` makes it so.
  Q-left :
      (es : List CacheEntry) (i : ℕ)
      → i < length es
      → Q (pass (get_or es i no_entry)) ≡ true
      → Q (get_or (move_on pass i es) i no_entry) ≡ true
  Q-left es i h e =
      Q-put_hand (set es i _) (next_position i es) i
        (ap Q (get_or-set_self es i _ h) ∙ free false (pass (get_or es i no_entry)) ∙ e)

  Q-move_on :
      (stable : (e : CacheEntry) → Q e ≡ true → Q (pass e) ≡ true) (es : List CacheEntry) (i m : ℕ)
      → Q (get_or es m no_entry) ≡ true
      → Q (get_or (move_on pass i es) m no_entry) ≡ true
  Q-move_on stable es i m h = Q-put_hand (set es i _) (next_position i es) m (
      Q-set Q es i m _ h
        (λ e. free false (pass (get_or es i no_entry)) ∙ stable (get_or es i no_entry) e))

  clock_pass-step :
      (x : Incoming) (n i : ℕ) (c : Cache)
      → test (get_or c.entries i no_entry) ≡ false
      → clock_pass test pass x (suc n) i c
        ≡ clock_pass test pass x n
            (next_position i c.entries)
            (record c { entries = move_on pass i c.entries })
  unfolding clock_pass
  clock_pass-step x n i c e = rw (e, clock_pass)

  clock_pass-hit :
      (x : Incoming) (n i : ℕ) (c : Cache)
      → test (get_or c.entries i no_entry) ≡ true
      → clock_pass test pass x (suc n) i c
        ≡ placed (record {
          entries = place x.pid x.page x.content i c.entries;
          saved = save_page (get_or c.entries i no_entry) c.saved;
        })
  unfolding clock_pass
  clock_pass-hit x n i c e = rw (e, clock_pass)

  clock_pass-none :
      (x : Incoming) (i : ℕ) (c : Cache) → clock_pass test pass x zero i c ≡ missed i c
  unfolding clock_pass
  clock_pass-none x i c = refl

  module _ (x : Incoming) (old : List Stored) (saved : List Saved) where
    Replaces-hit :
        (P : ℕ → Cache → Type 0) (R : CacheEntry → Bool) (m l n i : ℕ) (c : Cache)
        → i < l
        → Looked R m old saved l i i c
        → test (get_or c.entries i no_entry) ≡ true
        → Ends x old saved P (clock_pass test pass x (suc n) i c)
    Replaces-hit P R m l n i c h k e = subst (Ends x old saved P) (sym (clock_pass-hit x n i c e)) (
        Replaces-along x (stored_of c) old c.saved saved _ k.same k.unsent
          (place-Replaces x i c (subst (λ l. i < l) (sym k.size) h)))

    -- The hand moves on from an entry.
    Looked-move_on :
        (R : CacheEntry → Bool) (m m' l i : ℕ) (c : Cache)
        → Looked R m old saved l i i c
        → Q (get_or (move_on pass i c.entries) m' no_entry) ≡ true
        → Looked Q m' old saved l
            ((i + 1) % l)
            ((i + 1) % l)
            (record c { entries = move_on pass i c.entries })
    Looked-move_on R m m' l i c k q = record {
      size = length-move_on pass i c.entries ∙ k.size;
      hand = refl;
      same = stored-move_on pass i c.entries keeps ∙ k.same;
      unsent = k.unsent;
      seen = q;
    }

    clock_pass-Ends :
        (stable : (e : CacheEntry) → Q e ≡ true → Q (pass e) ≡ true) (n m l i : ℕ) (c : Cache)
        → i < l
        → Looked Q m old saved l i i c
        → Ends x old saved (Looked Q m old saved l (walk l n i)) (clock_pass test pass x n i c)
    clock_pass-Ends stable zero m l i c h k =
        subst (Ends x old saved (Looked Q m old saved l i)) (sym (clock_pass-none x i c)) k
    clock_pass-Ends stable (suc n) m l i c h k =
        elim (Bool-cases (test (get_or c.entries i no_entry))) [
          | inl e ↦ Replaces-hit _ Q m l n i c h k e
          | inr e ↦
              let moved : Cache = record c { entries = move_on pass i c.entries } in
              let next = ap (λ l. (i + 1) % l) k.size in
              subst (Ends x old saved (Looked Q m old saved l (walk l (suc n) i)))
                (ap (λ j. clock_pass test pass x n j moved) (sym next)
                  ∙ sym (clock_pass-step x n i c e))
                (clock_pass-Ends stable n m l ((i + 1) % l) moved (mod-lt i l h)
                  (Looked-move_on Q m m l i c k (Q-move_on stable c.entries i m k.seen)))
        ]

    -- A whole pass: the entry where it begins, and ends, satisfies `Q` if it is passed over.
    pub clock_pass-turn :
        (R : CacheEntry → Bool) (stable : (e : CacheEntry) → Q e ≡ true → Q (pass e) ≡ true)
        (left : (e : CacheEntry) → R e ≡ true → test e ≡ false → Q (pass e) ≡ true) (l i j : ℕ)
        (c : Cache)
        → i < l
        → Looked R i old saved l i j c
        → Ends x old saved (Looked Q i old saved l i) (clock_pass test pass x l j c)
    clock_pass-turn R stable left zero i j c h k = elim h [ ]
    clock_pass-turn R stable left (suc n) i j c h k =
        let start = Looked-hand R i old saved (suc n) i j c k in
        subst
          (λ j.
            Ends x old saved (Looked Q i old saved (suc n) i) (clock_pass test pass x (suc n) j c))
          (sym k.hand)
          (elim (Bool-cases (test (get_or c.entries i no_entry))) [
            | inl e ↦ Replaces-hit _ R i (suc n) n i c h start e
            | inr e ↦
                let moved : Cache = record c { entries = move_on pass i c.entries } in
                let next = ap (λ l. (i + 1) % l) k.size in
                let here = subst (λ l. i < l) (sym k.size) h in
                let ends =
                  clock_pass-Ends stable n i (suc n) ((i + 1) % suc n) moved (mod-lt i (suc n) h) (
                    Looked-move_on R i i (suc n) i c start
                      (Q-left c.entries i here (left (get_or c.entries i no_entry) k.seen e))) in
                subst
                  (λ w.
                    Ends x old saved (Looked Q i old saved (suc n) w)
                      (clock_pass test pass x (suc n) i c))
                  (walk-turn (suc n) i h)
                  (subst (Ends x old saved (Looked Q i old saved (suc n) (walk (suc n) (suc n) i)))
                    (ap (λ j. clock_pass test pass x n j moved) (sym next)
                      ∙ sym (clock_pass-step x n i c e))
                    ends)
          ])
