-- ===== src/Cpu/Address.antt =====
-- cpu/memory/mmu.go: the digits of a logical address, `sum` and `FromIntToLogicalAddres`.
pub mod Digits
pub mod Split
use tp_ssoo_1c.Prelude.{
  ℕ, zero, suc, ◌/◌, ◌%◌, List, [], ◌∷◌, ◌++◌, ◌==◌, if◌then◌else◌, length, get_or, set, replicate,
}

-- `MemoryConf`, as the memory server sends it.
pub record MemoryConf : Type 0 where
  pub page_size : ℕ
  pub entries_per_page : ℕ
  pub levels : ℕ

-- The loop of `sum`: `n` is `len(val) - i + 1`, the count of the digits up to the one that is
-- incremented; with none left the address has wrapped around.
unfoldable pub sum_loop : ℕ → ℕ → List ℕ → List ℕ
sum_loop modulo zero val = val
sum_loop modulo (suc p) val =
    let carry = sum_loop modulo p (set val p 0) in
    if suc (get_or val p 0) == modulo then carry else set val p (suc (get_or val p 0))

-- `sum(val, mod)`, for an address of at least one level.
unfoldable pub sum : List ℕ → ℕ → List ℕ
unfolding sum_loop
sum val modulo = sum_loop modulo (length val) val

-- `for range nroPagina { sum(niveles, entradasPorTabla) }`
unfoldable pub sum_times : ℕ → List ℕ → ℕ → List ℕ
unfolding sum
sum_times zero val modulo = val
sum_times (suc n) val modulo = sum_times n (sum val modulo) modulo

-- The digits of the page number, for an address that is not negative.
unfoldable pub page_digits : MemoryConf → ℕ → List ℕ
unfolding sum_times
page_digits c page = sum_times page (replicate c.levels 0) c.entries_per_page

unfoldable pub from_int_to_logical_addres : MemoryConf → ℕ → List ℕ
unfolding page_digits
from_int_to_logical_addres c direccion =
    page_digits c (direccion / c.page_size) ++ ((direccion % c.page_size) ∷ [])
