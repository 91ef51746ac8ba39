-- ===== src/Cpu/Clock/Replacement.antt =====
-- cpu/memory/cache.go: what AddEntryCacheClock replaces. The hand and the `Use` bits are what its
-- rounds change; the pages, their owners, contents and `Modified` bits are what the cache stores.
use mathlib.Core.Option.{some-injective}
use tp_ssoo_1c.Cpu.Clock.{
  add_entry_cache_clock-some, hand_from-lt, next_position-lt, length-move_on, clock_loop-pass,
  clock_loop-stop,
}
use tp_ssoo_1c.Prelude.{
  refl, zero, suc, none, some, inl, inr, set, List, false, ℕ, Bool, map, some, ◌<◌, ◌≡◌, Option,
  length, map-set, ◌∙◌, get_or, ap, sym, subst, get_or-map, length-map, set-get_or, ◌++◌, ◌∷◌, suc,
  [], arith, ◌≢◌, Bool-cases,
}
use tp_ssoo_1c.Cpu.Cache.{
  CacheEntry, Cache, Saved, Incoming, no_entry, next_position, place, move_on, put_hand, save_page,
  clock_loop, hand_from, add_entry_cache_clock, second_chance, clear_use,
}

-- What an entry stores.
pub record Stored : Type 0 where
  pub page : List ℕ
  pub content : List ℕ
  pub modified : Bool
  pub pid : Option ℕ

abbrev pub stored : CacheEntry → Stored
stored e = record { page = e.page; content = e.content; modified = e.modified; pid = e.pid }

abbrev pub stored_of : Cache → List Stored
stored_of c = map stored c.entries

-- A page that has just come.
abbrev pub arrived : Incoming → Stored
arrived x = record { page = x.page; content = x.content; modified = false; pid = some x.pid }

-- The content of an entry is sent to memory, if it has an owner.
abbrev pub send_stored : Stored → List Saved → List Saved
send_stored s saved = elim s.pid [
  | none ↦ saved
  | some pid ↦ saved ++ (record { owner = pid; page = s.page; content = s.content } ∷ [])
]

-- One entry of `old` is sent to memory and gives its place to the page that comes.
pub record Replaces (x : Incoming) (old : List Stored) (saved : List Saved) (new : Cache)
    : Type 0 where
  pub index : ℕ
  pub in_range : index < length old
  pub entries : stored_of new ≡ set old index (arrived x)
  pub sent : new.saved ≡ send_stored (get_or old index (stored no_entry)) saved

pub Replaces-along :
    (x : Incoming) (old old' : List Stored) (saved saved' : List Saved) (c : Cache)
    → old ≡ old'
    → saved ≡ saved'
    → Replaces x old saved c
    → Replaces x old' saved' c
Replaces-along x old old' saved saved' c p q r =
    subst (λ o. Replaces x o saved' c) p (subst (λ s. Replaces x old s c) q r)

stored-put_hand : (i : ℕ) (es : List CacheEntry) → map stored (put_hand i es) ≡ map stored es
stored-put_hand i es =
    map-set stored es i _
    ∙ ap (set (map stored es) i) (sym (get_or-map stored es i no_entry))
    ∙ set-get_or (map stored es) i (stored no_entry)

pub stored-move_on :
    (f : CacheEntry → CacheEntry) (i : ℕ) (es : List CacheEntry)
    → ((e : CacheEntry) → stored (f e) ≡ stored e)
    → map stored (move_on f i es) ≡ map stored es
stored-move_on f i es keeps =
    stored-put_hand (next_position i es) (set es i _)
    ∙ map-set stored es i _
    ∙ ap (set (map stored es) i)
        (keeps (get_or es i no_entry) ∙ sym (get_or-map stored es i no_entry))
    ∙ set-get_or (map stored es) i (stored no_entry)

-- The page is placed at an index, and what stood there is sent.
pub place-Replaces :
    (x : Incoming) (i : ℕ) (c : Cache)
    → i < length c.entries
    → Replaces x (stored_of c) c.saved (record {
      entries = place x.pid x.page x.content i c.entries;
      saved = save_page (get_or c.entries i no_entry) c.saved;
    })
unfolding place
place-Replaces x i c h = record {
  index = i;
  in_range = subst (λ n. i < n) (sym (length-map c.entries stored)) h;
  entries = stored-put_hand (next_position i c.entries) _ ∙ map-set stored c.entries i _;
  sent = ap (λ s. send_stored s c.saved) (sym (get_or-map stored c.entries i no_entry));
}

pub length-stored : (c : Cache) → length (stored_of c) ≡ length c.entries
length-stored c = length-map c.entries stored

no_fuel : (x : Incoming) (i : ℕ) (c c' : Cache) → clock_loop 0 x i c ≢ some c'
unfolding clock_loop
no_fuel x i c c' r = cc

clock_loop-Replaces :
    (fuel : ℕ) (x : Incoming) (i : ℕ) (c c' : Cache)
    → i < length c.entries
    → clock_loop fuel x i c ≡ some c'
    → Replaces x (stored_of c) c.saved c'
clock_loop-Replaces zero x i c c' h r = absurd (no_fuel x i c c' r)
clock_loop-Replaces (suc fuel) x i c c' h r =
    elim (Bool-cases (second_chance (get_or c.entries i no_entry))) [
      | inl e ↦
          let moved = move_on clear_use i c.entries in
          let j = next_position-lt i c.entries (omega (arith, h)) in
          let same = length-move_on clear_use i c.entries in
          subst (λ s. Replaces x s c.saved c') (stored-move_on clear_use i c.entries (λ e. refl))
            (clock_loop-Replaces fuel x (next_position i c.entries) (record c { entries = moved })
              c' (omega (arith, j, same)) (sym (clock_loop-pass fuel x i c e) ∙ r))
      | inr e ↦
          subst (Replaces x (stored_of c) c.saved)
            (some-injective _ _ (sym (clock_loop-stop fuel x i c e) ∙ r)) (place-Replaces x i c h)
    ]

pub hand_from-within : (es : List CacheEntry) → 0 < length es → hand_from 0 es < length es
hand_from-within [] h = elim h [ ]
hand_from-within (e ∷ es) h = omega (arith, hand_from-lt 0 e es)

-- On every cache that has an entry, with the hand anywhere, `AddEntryCacheClock` ends: a number
-- of rounds of its loop that is one more than the number of entries is enough. It replaces one
-- entry by the page that comes, sends to memory what that entry stored, if it had an owner, and
-- changes nothing of what the other entries store.
pub add_entry_cache_clock-Replaces :
    (x : Incoming) (c : Cache)
    → 0 < length c.entries
    → (c' : Cache) × (add_entry_cache_clock x c ≡ some c') × Replaces x (stored_of c) c.saved c'
unfolding add_entry_cache_clock
add_entry_cache_clock-Replaces x c h =
    let (c', r) = add_entry_cache_clock-some x c h in
    (
      c',
      r,
      clock_loop-Replaces (suc (length c.entries)) x (hand_from 0 c.entries) c c'
          (hand_from-within c.entries h) r,
    )
