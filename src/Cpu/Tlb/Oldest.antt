-- ===== src/Cpu/Tlb/Oldest.antt =====
-- cpu/memory/tlb.go: under LRU, AddEntryTLB takes out the entry whose last use is the longest ago.
use tp_ssoo_1c.Prelude.{ℕ, ◌+◌, ◌≤◌, ◌≡◌, ◌⊎◌, List, [], ◌∷◌, some, get_elem?}
use tp_ssoo_1c.Cpu.Tlb.{TlbEntry, remove_at}

-- Every entry was used at the time `t` or later.
abbrev pub AllSince : ℕ → List TlbEntry → Type 0
AllSince t [] = Unit {0}
AllSince t (e ∷ es) = (t ≤ e.last_used) × AllSince t es

-- The index that the search gives, from index `i` on.
record Searched (best oldest i : ℕ) (es : List TlbEntry) (result : ℕ) : Type 0 where
  since : ℕ
  earlier : since ≤ oldest
  all : AllSince since es
  at :
      ((result ≡ best) × (since ≡ oldest))
      ⊎ ((n : ℕ) × ((result ≡ i + n)
            × ((e : TlbEntry) × ((get_elem? es n ≡ some e) × (e.last_used ≡ since)))))

-- `left` is `es` without an entry, and no entry was used before that one.
pub record Oldest (es left : List TlbEntry) : Type 0 where
  pub index : ℕ
  pub entry : TlbEntry
  pub found : get_elem? es index ≡ some entry
  pub removed : left ≡ remove_at index es
  pub oldest : AllSince entry.last_used es
