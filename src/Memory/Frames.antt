-- ===== src/Memory/Frames.antt =====
-- memoria/storage/storage.go: InitializeUserMemory, allocateMemory and deallocateMemory.
pub mod Bits
pub mod Reserve
pub mod Release
pub mod Allocate
pub mod Setup
pub mod Deallocate
use tp_ssoo_1c.Prelude.{
  ℕ, zero, suc, ◌+◌, ◌-◌, ◌*◌, ◌/◌, Bool, true, false, List, [], ◌∷◌, none, some, ltb, ◌==◌,
  if◌then◌else◌, length, replicate, set,
}
use tp_ssoo_1c.Prelude.Int.{ℤ, pos, negsuc, pos_part, sub_ℕ, ◌+ℤ◌, ◌-ℤ◌, ltb_ℤ}
use tp_ssoo_1c.Prelude.Exec.{
  Exec, Outcome, ok, err, panic, ◌>>=◌, ◌>>◌, return, throw, get_state, modify, fail_if, crash_if,
}
use tp_ssoo_1c.Memory.State.{
  Memory, Values, Error, M, get_data_by_pid, not_enough_memory, something_wrong_on_allocation,
  could_not_find_process,
}

-- `pageBases[i] = i * pSize` for the next `n` indices from `i`.
unfoldable pub bases_from : ℕ → ℕ → ℕ → List ℕ
bases_from zero i page_size = []
bases_from (suc n) i page_size = i * page_size ∷ bases_from n (suc i) page_size

-- The storage before `InitializeUserMemory`: the zero values of the package's variables.
abbrev pub zero_memory : Values → Memory
zero_memory v = record {
  values = v;
  pagination = record { page_size = 0; entries_per_page = 0; levels = 0 };
  system_memory = [];
  memory_size = 0;
  remaining_memory = pos 0;
  user_memory = [];
  n_pages = 0;
  page_bases = [];
  reservation_bits = [];
  swap_file = none;
}

abbrev set_pagination : M (Unit {0})
set_pagination = modify (λ m. record m {
  pagination = record {
    page_size = m.values.page_size;
    entries_per_page = m.values.entries_per_page;
    levels = m.values.number_of_levels;
  };
})

abbrev set_sizes : M (Unit {0})
set_sizes = modify (λ m. record m {
  user_memory = replicate m.values.memory_size 0;
  remaining_memory = pos m.values.memory_size;
  memory_size = m.values.memory_size;
  swap_file = none;
})

abbrev set_pages : M (Unit {0})
set_pages = modify (λ m. record m {
  n_pages = m.memory_size / m.values.page_size;
  page_bases = bases_from (m.memory_size / m.values.page_size) 0 m.values.page_size;
  reservation_bits = replicate (m.memory_size / m.values.page_size) false;
})

-- The part of `InitializeUserMemory` below the test of the levels. The division by a page size of
-- zero panics.
abbrev paginate : ℕ → M (Unit {0})
paginate page_size = do set_pagination; crash_if (page_size == 0); set_pages

unfoldable pub initialize_user_memory : M (Unit {0})
unfolding bases_from
initialize_user_memory = do
  set_sizes
  m ← get_state
  if m.values.number_of_levels == 0 then return tt else paginate m.values.page_size

-- `int(math.Ceil(float64(size) / float64(pageSize)))` for a page size that is not zero: exact as
-- long as the size is below 2 ^ 52.
unfoldable pub ceil_div : ℤ → ℕ → ℤ
ceil_div (pos n) d = pos ((n + d - 1) / d)
ceil_div (negsuc n) d = sub_ℕ 0 ((n + 1) / d)

-- `pageSize * required`
abbrev pub scale : ℕ → ℤ → ℤ
scale d (pos n) = pos (d * n)
scale d (negsuc n) = sub_ℕ 0 (d * (n + 1))

abbrev pub with_base : ℕ → Outcome Error (List ℕ) → Outcome Error (List ℕ)
with_base b (ok bases) = ok (b ∷ bases)
with_base b (err e) = err e
with_base b panic = panic

-- The loop of `allocateMemory` over the frames that are left; `left` is `requiredPages - i`, so
-- that a frame taken with nothing left is the write past the end of `processPageBases`.
unfoldable pub reserve_pages : List ℕ → ℕ → Exec (List Bool) Error (List ℕ)
reserve_pages [] left bits = (err something_wrong_on_allocation, bits)
reserve_pages (b ∷ bs) left [] = (panic, [])
reserve_pages (b ∷ bs) zero (false ∷ bits) = (panic, true ∷ bits)
reserve_pages (b ∷ bs) zero (true ∷ bits) = (ok [], true ∷ bits)
reserve_pages (b ∷ bs) (suc left) (true ∷ bits) =
    let (taken, bits') = reserve_pages bs (suc left) bits in (taken, true ∷ bits')
reserve_pages (b ∷ bs) (suc zero) (false ∷ bits) = (ok (b ∷ []), true ∷ bits)
reserve_pages (b ∷ bs) (suc (suc left)) (false ∷ bits) =
    let (taken, bits') = reserve_pages bs (suc left) bits in (with_base b taken, true ∷ bits')

-- Runs code that mutates `reservationBits` alone.
abbrev pub on_bits : {A : Type 0} → Exec (List Bool) Error A → M A
on_bits f m =
    let (result, bits) = f m.reservation_bits in (result, record m { reservation_bits = bits })

unfoldable pub allocate_memory : ℤ → M (List ℕ)
unfolding ceil_div ◌-ℤ◌
allocate_memory size = do
  m ← get_state
  fail_if (ltb_ℤ m.remaining_memory size) not_enough_memory
  crash_if (m.pagination.page_size == 0)
  let required = ceil_div size m.pagination.page_size
  let left = m.remaining_memory -ℤ scale m.pagination.page_size required
  modify (λ m. record m { remaining_memory = left })
  crash_if (ltb_ℤ left (pos 0))
  crash_if (ltb_ℤ required (pos 0))
  on_bits (reserve_pages m.page_bases (pos_part required))

-- The loop of `deallocateMemory`: a division by zero and an index out of range panic.
unfoldable pub clear_bits : ℕ → List ℕ → Exec (List Bool) Error (Unit {0})
clear_bits page_size [] bits = (ok tt, bits)
clear_bits page_size (b ∷ bs) bits =
    let rest = clear_bits page_size bs (set bits (b / page_size) false) in
    if page_size == 0
    then (panic, bits)
    else if ltb (b / page_size) (length bits)
    then rest
    else (panic, bits)

-- The part of `deallocateMemory` below the test for no pages.
abbrev pub release_pages : List ℕ → M (Unit {0})
release_pages bases = do
  m ← get_state
  on_bits (clear_bits m.pagination.page_size bases)
  modify (λ m. record m {
    remaining_memory = m.remaining_memory +ℤ pos (length bases * m.pagination.page_size);
  })

unfoldable pub deallocate_memory : ℕ → M (Unit {0})
unfolding ◌+ℤ◌
deallocate_memory pid = do
  m ← get_state
  elim (get_data_by_pid pid m) [
    | none ↦ throw could_not_find_process
    | some p ↦ if length p.page_bases == 0 then return tt else release_pages p.page_bases
  ]
