-- ===== src/Memory/Address.antt =====
-- memoria/storage/storage.go: StringToLogicAddress and LogicAddressToFrame.
pub mod Walk
use tp_ssoo_1c.Prelude.{
  ℕ, suc, ◌+◌, ◌-◌, ◌*◌, ◌^◌, List, [], ◌∷◌, none, some, leb, ◌==◌, length, get_elem?, not, map,
}
use tp_ssoo_1c.Prelude.Int.{ℤ, pos, negsuc}
use tp_ssoo_1c.Prelude.Exec.{◌>>=◌, ◌>>◌, return, throw, get_state, fail_if}
use tp_ssoo_1c.Utils.Text.{Text, split, atoi_or_zero}
use tp_ssoo_1c.Memory.State
use tp_ssoo_1c.Memory.State.{
  Memory, Metrics, ProcessData, Error, M, get_data_by_pid, count_metric, could_not_find_process,
  address_not_matching_pagination, out_of_bounds_page_table_access,
  out_of_bounds_process_memory_access,
}

unfoldable pub string_to_logic_address : Text → List ℤ
unfolding split atoi_or_zero
string_to_logic_address str = map atoi_or_zero (split b'|' str)

abbrev pub count_table_access : ℕ → M (Unit {0})
count_table_access pid =
    count_metric pid (λ k. record k { page_table_accesses = suc k.page_table_accesses })

-- The loop over the address: `i` is the level, `index` the sum so far. `math.Pow` is exact for the
-- powers that fit in an `int` below 2 ^ 53.
unfoldable pub page_index : ℕ → ℕ → ℕ → ℕ → ℕ → List ℤ → M ℕ
page_index pid entries levels i index [] = return index
page_index pid entries levels i index (negsuc n ∷ rest) = throw out_of_bounds_page_table_access
page_index pid entries levels i index (pos num ∷ rest) = do
  fail_if (leb entries num) out_of_bounds_page_table_access
  count_table_access pid
  page_index pid entries levels (suc i) (index + num * entries ^ (levels - 1 - i)) rest

-- `processPageBases[processPageIndex]`, with the test above it.
abbrev pub base_at : List ℕ → ℕ → M ℕ
base_at bases i = elim (get_elem? bases i) [
  | none ↦ throw out_of_bounds_process_memory_access
  | some base ↦ return base
]

abbrev pub walk_table : ℕ → ProcessData → List ℤ → M ℕ
walk_table pid p address = do
  m ← get_state
  index ← page_index pid m.pagination.entries_per_page m.pagination.levels 0 0 address
  base_at p.page_bases index

unfoldable pub logic_address_to_frame : ℕ → List ℤ → M ℕ
logic_address_to_frame pid address = do
  m ← get_state
  fail_if (not (length address == m.pagination.levels)) address_not_matching_pagination
  elim (get_data_by_pid pid m) [
    | none ↦ throw could_not_find_process
    | some p ↦ walk_table pid p address
  ]
