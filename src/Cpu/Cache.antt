-- ===== src/Cpu/Cache.antt =====
-- cpu/memory/cache.go: the page cache and its replacement, CLOCK and CLOCK-M. A page that is written
-- back by `SavePageInMemory` is noted in `saved`.
use tp_ssoo_1c.Prelude.{
  ℕ, zero, suc, ◌+◌, ◌%◌, Bool, true, false, ◌&&◌, not, List, [], ◌∷◌, ◌++◌, Option, none, some,
  ◌==◌, if◌then◌else◌, length, get_or, set, replicate,
}
use tp_ssoo_1c.Cpu.Tlb.{are_slices_equal}

-- `pid` is `none` for the -1 of an empty entry.
pub record CacheEntry : Type 0 where
  pub page : List ℕ
  pub content : List ℕ
  pub use_bit : Bool
  pub modified : Bool
  pub position : Bool
  pub pid : Option ℕ

-- A page that is sent to memory.
pub record Saved : Type 0 where
  pub owner : ℕ
  pub page : List ℕ
  pub content : List ℕ

pub record Cache : Type 0 where
  pub entries : List CacheEntry
  pub saved : List Saved

abbrev pub empty_entry : ℕ → CacheEntry
empty_entry page_size = record {
  page = [];
  content = replicate page_size 0;
  use_bit = false;
  modified = false;
  position = false;
  pid = none;
}

abbrev mark_position : CacheEntry → CacheEntry
mark_position e = record e { position = true }

abbrev mark_first : List CacheEntry → List CacheEntry
mark_first [] = []
mark_first (e ∷ es) = mark_position e ∷ es

-- `InitCache`, for a count of entries that is not zero: else `Entries[0]` panics.
unfoldable pub init_cache : ℕ → ℕ → Cache
init_cache n page_size = record {
  entries = mark_first (replicate n (empty_entry page_size));
  saved = [];
}

-- `IsInCache`, and the search that `SearchPageInCache` makes: the PID is not compared.
unfoldable pub search_page : List ℕ → List CacheEntry → Option CacheEntry
search_page page [] = none
search_page page (e ∷ es) = if are_slices_equal e.page page then some e else search_page page es

-- `SearchPageInCache`: the `Use` bits that its loop sets are those of copies.
unfoldable pub search_page_in_cache : List ℕ → Cache → Option (List ℕ)
unfolding search_page
search_page_in_cache page c = elim (search_page page c.entries) [
  | none ↦ none
  | some e ↦ some e.content
]

unfoldable pub is_in_cache : List ℕ → Cache → Bool
unfolding search_page
is_in_cache page c = elim (search_page page c.entries) [ none ↦ false | some e ↦ true ]

-- The loops of `ModifyCache` and `UseCache`: the first entry of the page is changed.
unfoldable pub update_page : List ℕ → (CacheEntry → CacheEntry) → List CacheEntry → List CacheEntry
update_page page f [] = []
update_page page f (e ∷ es) =
    if are_slices_equal e.page page then f e ∷ es else e ∷ update_page page f es

unfoldable pub modify_cache : List ℕ → Cache → Cache
unfolding update_page
modify_cache page c = record c {
  entries = update_page page (λ e. record e { modified = true }) c.entries;
}

unfoldable pub use_cache : List ℕ → Cache → Cache
unfolding update_page
use_cache page c = record c {
  entries = update_page page (λ e. record e { use_bit = true }) c.entries;
}

-- The first entry with the hand, or entry 0.
unfoldable pub hand_from : ℕ → List CacheEntry → ℕ
hand_from i [] = 0
hand_from i (e ∷ es) = if e.position then i else hand_from (suc i) es

-- `SavePageInMemory`: an empty entry is not sent.
abbrev pub save_page : CacheEntry → List Saved → List Saved
save_page e saved = elim e.pid [
  | none ↦ saved
  | some pid ↦ saved ++ (record { owner = pid; page = e.page; content = e.content } ∷ [])
]

-- `(position + 1) % len(entries)`
abbrev pub next_position : ℕ → List CacheEntry → ℕ
next_position i es = (i + 1) % length es

abbrev pub no_entry : CacheEntry
no_entry = empty_entry 0

-- `entries[i].Position = true`
abbrev pub put_hand : ℕ → List CacheEntry → List CacheEntry
put_hand i es = set es i (mark_position (get_or es i no_entry))

-- The new entry at index `i`, and the hand on the next one.
unfoldable pub place : ℕ → List ℕ → List ℕ → ℕ → List CacheEntry → List CacheEntry
place pid page content i es = put_hand (next_position i es) (
    set es i (record {
      page = page;
      content = content;
      use_bit = true;
      modified = false;
      position = false;
      pid = some pid;
    }))

-- The hand moves on from index `i`, whose entry is changed.
abbrev pub move_on : (CacheEntry → CacheEntry) → ℕ → List CacheEntry → List CacheEntry
move_on f i es =
    put_hand (next_position i es)
      (set es i (record (f (get_or es i no_entry)) { position = false }))

abbrev pub clear_use : CacheEntry → CacheEntry
clear_use e = record e { use_bit = false }

-- A page that comes into the cache.
pub record Incoming : Type 0 where
  pub pid : ℕ
  pub page : List ℕ
  pub content : List ℕ

-- An entry that is taken and used: it is passed over. The others are replaced.
abbrev pub second_chance : CacheEntry → Bool
second_chance e = elim e.pid [ none ↦ false | some p ↦ e.use_bit ]

-- The loop of `AddEntryCacheClock`, on fuel: `none` means that the fuel ran out.
unfoldable pub clock_loop : ℕ → Incoming → ℕ → Cache → Option Cache
unfolding place
clock_loop zero x i c = none
clock_loop (suc fuel) x i c =
    let e = get_or c.entries i no_entry in
    let rest =
      clock_loop fuel x (next_position i c.entries)
        (record c { entries = move_on clear_use i c.entries }) in
    elim (second_chance e) [
      | true ↦ rest
      | false ↦ some (record {
        entries = place x.pid x.page x.content i c.entries;
        saved = save_page e c.saved;
      })
    ]

-- `AddEntryCacheClock`: the fuel is one more than there are entries.
unfoldable pub add_entry_cache_clock : Incoming → Cache → Option Cache
unfolding clock_loop hand_from
add_entry_cache_clock x c = clock_loop (suc (length c.entries)) x (hand_from 0 c.entries) c

-- A pass of `AddEntryCacheClockM` over `n` entries from the hand: `test` says which entry is
-- replaced, `pass` how one that is not is changed. Either the page is placed, or the hand comes
-- back.
pub data Pass : Type 0 where
  placed : Cache → Pass
  missed : ℕ → Cache → Pass

unfoldable pub clock_pass :
    (CacheEntry → Bool) → (CacheEntry → CacheEntry) → Incoming → ℕ → ℕ → Cache → Pass
unfolding place
clock_pass test pass x zero i c = missed i c
clock_pass test pass x (suc n) i c =
    let e = get_or c.entries i no_entry in
    let rest =
      clock_pass test pass x n (next_position i c.entries)
        (record c { entries = move_on pass i c.entries }) in
    if test e
    then placed
        (record { entries = place x.pid x.page x.content i c.entries; saved = save_page e c.saved })
    else rest

abbrev pub unused_clean : CacheEntry → Bool
unused_clean e = not e.modified && not e.use_bit

abbrev pub unused_modified : CacheEntry → Bool
unused_modified e = e.modified && not e.use_bit

abbrev pub keep : CacheEntry → CacheEntry
keep e = e

abbrev pub second_pass : Incoming → ℕ → Pass → Pass
second_pass x n (placed c) = placed c
second_pass x n (missed i c) = clock_pass unused_modified clear_use x n i c

-- One of the three rounds: first an entry that is neither used nor modified, then one that is
-- modified and not used.
unfoldable pub clock_m_round : Incoming → ℕ → ℕ → Cache → Pass
unfolding clock_pass
clock_m_round x n i c = second_pass x n (clock_pass unused_clean keep x n i c)

abbrev pub rounds : ℕ → Incoming → ℕ → Pass → Pass
rounds zero x n p = p
rounds (suc k) x n (placed c) = placed c
rounds (suc k) x n (missed i c) = rounds k x n (clock_m_round x n i c)

-- `AddEntryCacheClockM`: `missed` is its error, after which the page is not in the cache.
unfoldable pub add_entry_cache_clock_m : Incoming → Cache → Pass
unfolding clock_m_round hand_from
add_entry_cache_clock_m x c = rounds 3 x (length c.entries) (missed (hand_from 0 c.entries) c)

unfoldable pub no_used_and_no_modified_cache : List CacheEntry → Bool
no_used_and_no_modified_cache [] = true
no_used_and_no_modified_cache (e ∷ es) =
    if e.use_bit && e.modified then false else no_used_and_no_modified_cache es

abbrev pub is_owner : Option ℕ → ℕ → Bool
is_owner none pid = false
is_owner (some p) pid = p == pid

abbrev pub freed_entry : CacheEntry
freed_entry = record {
  page = [];
  content = [];
  use_bit = false;
  modified = false;
  position = false;
  pid = none;
}
