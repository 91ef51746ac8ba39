-- ===== src/Cpu/Address/Split.antt =====
-- cpu/memory/mmu.go: what FromIntToLogicalAddres returns, against division by powers.
use native.Mathlib.Nat.{mod-eq_of_lt, zero-add}
use tp_ssoo_1c.Prelude.{ℕ, ◌%◌, ◌^◌, ◌<◌, ◌≡◌, sym, ◌∙◌, length, replicate, length-replicate, arith}
use tp_ssoo_1c.Cpu.Address.{MemoryConf, page_digits}
use tp_ssoo_1c.Cpu.Address.Digits.{
  value, AllBelow, length-sum_times, sum_times-AllBelow, value-sum_times, value-lt, value-replicate,
  replicate-AllBelow,
}

module _ (c : MemoryConf) (page : ℕ) where
  pub length-page_digits : length (page_digits c page) ≡ c.levels
  unfolding page_digits
  length-page_digits =
      length-sum_times page c.entries_per_page (replicate c.levels 0) ∙ length-replicate c.levels 0

  pub page_digits-AllBelow :
      0 < c.entries_per_page → AllBelow c.entries_per_page (page_digits c page)
  unfolding page_digits
  page_digits-AllBelow h =
      sum_times-AllBelow page c.entries_per_page (replicate c.levels 0)
        (replicate-AllBelow c.entries_per_page c.levels h)

  value_mod :
      value c.entries_per_page (page_digits c page) c.levels % c.entries_per_page ^ c.levels
      ≡ page % c.entries_per_page ^ c.levels
  unfolding page_digits
  value_mod =
      rw (length-replicate {A = ℕ} c.levels 0, value-replicate, zero-add) at
        (value-sum_times page c.entries_per_page (replicate c.levels 0))

  -- If there is at least one entry per table, the digits that `FromIntToLogicalAddres` finds by
  -- counting up, read as a number in base `entries_per_page`, are the page number modulo
  -- `entries_per_page ^ levels`.
  pub value-page_digits :
      0 < c.entries_per_page
      → value c.entries_per_page (page_digits c page) c.levels
        ≡ page % c.entries_per_page ^ c.levels
  value-page_digits h =
      sym (
        mod-eq_of_lt (
          value-lt c.entries_per_page (page_digits c page) c.levels (page_digits-AllBelow h)
            (omega (arith, length-page_digits))))
      ∙ value_mod
