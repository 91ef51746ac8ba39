-- ===== src/Memory/Pages.antt =====
-- memoria/storage/storage.go: reading and writing bytes and pages of the user memory.
pub mod RoundTrip
pub mod Apart
use tp_ssoo_1c.Prelude.{
  ℕ, suc, ◌+◌, ◌-◌, Bool, false, ◌||◌, List, [], ◌∷◌, none, some, ltb, leb, ◌==◌, if◌then◌else◌,
  length, get_elem?, set, take, drop, not,
}
use tp_ssoo_1c.Prelude.Int.{ℤ, pos, negsuc}
use tp_ssoo_1c.Prelude.Exec.{
  ◌>>=◌, ◌>>◌, return, throw, crash, get_state, modify, fail_if, crash_if,
}
use tp_ssoo_1c.Memory.State.{
  M, get_data_by_pid, count_metric, could_not_find_process, page_not_assigned,
  out_of_bounds_page_memory_access, body_does_not_match_page_size, page_base_not_valid,
}

-- `slices.Contains`
abbrev pub contains : List ℕ → ℕ → Bool
contains [] b = false
contains (x ∷ xs) b = (x == b) || contains xs b

-- `none` for true, as the source's callers test the error: the page is the process's own.
unfoldable pub has_page : ℕ → ℕ → M (Unit {0})
has_page pid base = do
  m ← get_state
  elim (get_data_by_pid pid m) [
    | none ↦ throw could_not_find_process
    | some p ↦ fail_if (not (contains p.page_bases base)) page_not_assigned
  ]

-- `userMemory[i]`
abbrev pub byte_at : ℕ → M ℕ
byte_at i = do m ← get_state; elim (get_elem? m.user_memory i) [ none ↦ crash | some v ↦ return v ]

-- `userMemory[i] = value`
abbrev pub store_byte : ℕ → ℕ → M (Unit {0})
store_byte i value = do
  m ← get_state
  crash_if (leb (length m.user_memory) i)
  modify (λ m. record m { user_memory = set m.user_memory i value })

-- `userMemory[base : base+size]`: the bound panics past the end.
abbrev pub slice : ℕ → ℕ → M (List ℕ)
slice base size = do
  m ← get_state
  crash_if (ltb (length m.user_memory) (base + size))
  return (take size (drop base m.user_memory))

abbrev pub count_reads : ℕ → ℕ → M (Unit {0})
count_reads pid n = count_metric pid (λ k. record k { reads = k.reads + n })

abbrev pub count_write : ℕ → M (Unit {0})
count_write pid = count_metric pid (λ k. record k { writes = suc k.writes })

abbrev pub read_at : ℕ → ℕ → ℤ → M ℕ
read_at pid base (negsuc n) = throw out_of_bounds_page_memory_access
read_at pid base (pos delta) = do
  m ← get_state
  fail_if (ltb m.memory_size (base + delta) || leb m.pagination.page_size delta)
      out_of_bounds_page_memory_access
  count_reads pid 1
  byte_at (base + delta)

unfoldable pub get_from_memory : ℕ → ℕ → ℤ → M ℕ
get_from_memory pid base delta = do has_page pid base; read_at pid base delta

-- `base + delta` of the source, where delta may be negative: an index below zero panics.
abbrev pub write_at : ℕ → ℤ → ℕ → M (Unit {0})
write_at base (pos delta) value = store_byte (base + delta) value
write_at base (negsuc n) value = if ltb n base then store_byte (base - suc n) value else crash

unfoldable pub write_to_memory : ℕ → ℕ → ℤ → ℕ → M (Unit {0})
write_to_memory pid base delta value = do
  has_page pid base
  write_at base delta value
  count_write pid

unfoldable pub get_page : ℕ → ℕ → M (List ℕ)
get_page pid base = do
  has_page pid base
  m ← get_state
  count_reads pid m.values.page_size
  slice base m.pagination.page_size

-- The loop of `WritePage` over the bytes that are left.
unfoldable pub write_bytes : ℕ → ℕ → ℕ → List ℕ → M (Unit {0})
write_bytes pid base delta [] = return tt
write_bytes pid base delta (c ∷ cs) = do
  write_to_memory pid base (pos delta) c
  write_bytes pid base (suc delta) cs

unfoldable pub write_page : ℕ → ℕ → List ℕ → M (Unit {0})
write_page pid base value = do
  m ← get_state
  fail_if (not (length value == m.pagination.page_size)) body_does_not_match_page_size
  has_page pid base
  write_bytes pid base 0 value

-- `pageToByteArray`
unfoldable pub page_to_byte_array : ℕ → M (List ℕ)
page_to_byte_array base = do
  m ← get_state
  fail_if (not (contains m.page_bases base)) page_base_not_valid
  slice base m.pagination.page_size
