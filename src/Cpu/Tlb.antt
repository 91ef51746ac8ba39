-- ===== src/Cpu/Tlb.antt =====
-- cpu/memory/tlb.go, and Traducir of cpu/memory/mmu.go. The clock is an argument; what the memory
-- server answers to a request for a frame is an argument too.
pub mod Eviction
pub mod Transparent
pub mod Oldest
use tp_ssoo_1c.Prelude.{
  ℕ, zero, suc, Bool, true, false, ◌&&◌, List, [], ◌∷◌, ◌++◌, Option, none, some, ◌==◌, ltb, leb,
  if◌then◌else◌, length,
}

pub record TlbEntry : Type 0 where
  pub page : List ℕ
  pub frame : ℕ
  pub last_used : ℕ
  pub pid : ℕ

-- `other` stands for every text but "FIFO" and "LRU".
pub data Replacement : Type 0 where
  fifo lru other : Replacement

pub record Tlb : Type 0 where
  pub entries : List TlbEntry
  pub capacity : ℕ
  pub replacement_alg : Replacement

-- `areSlicesEqual`
abbrev pub are_slices_equal : List ℕ → List ℕ → Bool
are_slices_equal [] [] = true
are_slices_equal [] (b ∷ bs) = false
are_slices_equal (a ∷ as') [] = false
are_slices_equal (a ∷ as') (b ∷ bs) = (a == b) && are_slices_equal as' bs

abbrev pub is_entry : List ℕ → ℕ → TlbEntry → Bool
is_entry page pid e = are_slices_equal e.page page && (e.pid == pid)

abbrev pub is_lru : Replacement → Bool
is_lru lru = true
is_lru fifo = false
is_lru other = false

-- The loop of `findFrame`: the frame of the first entry of the page, and the entries with the time
-- of its use, which is kept under LRU only.
unfoldable pub find_entry : List ℕ → ℕ → Bool → ℕ → List TlbEntry → Option ℕ × List TlbEntry
find_entry page pid stamp now [] = (none, [])
find_entry page pid stamp now (e ∷ es) =
    let rest = find_entry page pid stamp now es in
    if is_entry page pid e
    then (some e.frame, (if stamp then record e { last_used = now } else e) ∷ es)
    else (rest.0, e ∷ rest.1)

unfoldable pub find_frame : List ℕ → ℕ → ℕ → Tlb → Option ℕ × Tlb
find_frame page pid now t =
    let (frame, es) = find_entry page pid (is_lru t.replacement_alg) now t.entries in
    (frame, record t { entries = es })

-- The loop that finds `lruIndex`, from the entry at index `i` on.
unfoldable pub lru_index : ℕ → ℕ → ℕ → List TlbEntry → ℕ
lru_index best oldest i [] = best
lru_index best oldest i (e ∷ es) =
    lru_index (if ltb e.last_used oldest then i else best)
      (if ltb e.last_used oldest then e.last_used else oldest) (suc i) es

-- `append(entries[:i], entries[i+1:]...)`
abbrev pub remove_at : ℕ → List TlbEntry → List TlbEntry
remove_at i [] = []
remove_at zero (e ∷ es) = es
remove_at (suc i) (e ∷ es) = e ∷ remove_at i es

-- The switch over the algorithm, on a TLB that is full.
unfoldable pub evict : Replacement → List TlbEntry → List TlbEntry
unfolding lru_index
evict fifo [] = []
evict fifo (e ∷ es) = es
evict lru [] = []
evict lru (e ∷ es) = remove_at (lru_index 0 e.last_used 0 (e ∷ es)) (e ∷ es)
evict other es = es

unfoldable pub add_entry_tlb : List ℕ → ℕ → ℕ → ℕ → Tlb → Tlb
unfolding evict
add_entry_tlb page frame pid now t =
    let es =
      if leb t.capacity (length t.entries) then evict t.replacement_alg t.entries else t.entries in
    if t.capacity == 0 then t else record t {
      entries = es ++ (record { page = page; frame = frame; last_used = now; pid = pid } ∷ []);
    }

unfoldable pub init_tlb : ℕ → Replacement → Tlb
init_tlb capacity alg = record { entries = []; capacity = capacity; replacement_alg = alg }

-- `findFrameInMemory` is tried a second time; `ask` gives the answers of the two tries.
abbrev pub ask_twice : (Bool → List ℕ → ℕ → Option ℕ) → List ℕ → ℕ → Option ℕ
ask_twice ask page pid = elim (ask false page pid) [ none ↦ ask true page pid | some f ↦ some f ]

abbrev pub lookup_tlb : List ℕ → ℕ → ℕ → Tlb → Option ℕ × Tlb
lookup_tlb page pid now t = if t.capacity == 0 then (none, t) else find_frame page pid now t

-- `Traducir` of a page: the TLB first, then memory.
unfoldable pub translate_page :
    (Bool → List ℕ → ℕ → Option ℕ) → List ℕ → ℕ → ℕ → Tlb → Option ℕ × Tlb
translate_page ask page pid now t =
    let (hit, t') = lookup_tlb page pid now t in
    elim hit [
      | some frame ↦ (some frame, t')
      | none ↦ elim (ask_twice ask page pid) [
        | none ↦ (none, t')
        | some frame ↦ (some frame, add_entry_tlb page frame pid now t')
      ]
    ]
