-- ===== src/Translation.antt =====
-- Where the CPU and the memory server meet: an integer address of a program, split by the CPU
-- (cpu/memory/mmu.go, FromIntToLogicalAddres) and looked up by the server (memoria/storage/storage.go,
-- LogicAddressToFrame).
pub mod Texts
pub mod Server
pub mod Pages
pub mod Faithful
mod Tests
use native.Mathlib.Nat.{mod-eq_of_lt, zero-add}
use tp_ssoo_1c.Prelude.{
  ℕ, ◌+◌, ◌*◌, ◌/◌, ◌%◌, ◌^◌, ◌<◌, ◌≡◌, refl, sym, ap, ◌∙◌, List, ◌++◌, map, length, get_elem?,
  Option, none, some, arith, ==_refl, length-map, subst,
}
use tp_ssoo_1c.Prelude.Int.{ℤ, pos}
use tp_ssoo_1c.Prelude.Exec.{◌>>=◌, Outcome, ok, err}
use tp_ssoo_1c.Cpu.Address.{MemoryConf, page_digits, from_int_to_logical_addres}
use tp_ssoo_1c.Cpu.Address.Digits.{value}
use tp_ssoo_1c.Cpu.Address.Split.{length-page_digits, page_digits-AllBelow, value-page_digits}
use tp_ssoo_1c.Memory.State.{
  Memory, ProcessData, Error, get_data_by_pid, out_of_bounds_process_memory_access,
}
use tp_ssoo_1c.Memory.Address.{page_index, base_at, walk_table, logic_address_to_frame}
use tp_ssoo_1c.Memory.Address.Walk.{page_index-value}

-- The CPU has the server's pagination.
pub record Agrees (c : MemoryConf) (m : Memory) : Type 0 where
  pub entries : m.pagination.entries_per_page ≡ c.entries_per_page
  pub levels : m.pagination.levels ≡ c.levels

-- The frame of a page number, in the table of a process.
abbrev pub frame_of_page : ProcessData → ℕ → Outcome Error ℕ
frame_of_page p page = elim (get_elem? p.page_bases page) [
  | none ↦ err out_of_bounds_process_memory_access
  | some base ↦ ok base
]

pub walk_outcome :
    (pid : ℕ) (p : ProcessData) (address : List ℤ) (m : Memory) (i : ℕ)
    → (page_index pid m.pagination.entries_per_page m.pagination.levels 0 0 address m).0 ≡ ok i
    → (walk_table pid p address m).0 ≡ frame_of_page p i
walk_outcome pid p address m i h = rw (h, walk_table, ◌>>=◌) (ground arith)

pub lookup_outcome :
    (pid : ℕ) (p : ProcessData) (address : List ℤ) (m : Memory)
    → length address ≡ m.pagination.levels
    → get_data_by_pid pid m ≡ some p
    → logic_address_to_frame pid address m ≡ walk_table pid p address m
unfolding logic_address_to_frame
lookup_outcome pid p address m l found = rw (==_refl _ _ l, found)

module _ (c : MemoryConf) (m : Memory) (pid : ℕ) (p : ProcessData) where
  page_index-Agrees :
      (page : ℕ)
      → Agrees c m
      → 0 < c.entries_per_page
      → (page_index pid m.pagination.entries_per_page m.pagination.levels 0 0
          (map pos (page_digits c page))
          m).0
        ≡ ok (value c.entries_per_page (page_digits c page) c.levels)
  page_index-Agrees page agrees h =
      let l = length-page_digits c page in
      subst
        (λ (e : ℕ).
          (page_index pid e m.pagination.levels 0 0 (map pos (page_digits c page)) m).0
          ≡ ok (value c.entries_per_page (page_digits c page) c.levels))
        (sym agrees.entries)
        (page_index-value pid c.entries_per_page m.pagination.levels 0 0 (page_digits c page) m
            (page_digits-AllBelow c page h) (omega (arith, l, agrees.levels))
          ∙ ap ok (rw l (zero-add _)))

  -- If the CPU has the server's pagination, there is at least one entry per table and the
  -- process is in memory, then the memory server finds, for the address that the CPU makes of
  -- page number `page`, the entry of the process's table with the index `page %
  -- entries_per_page ^ levels`, or answers that the access is out of bounds where the table has
  -- no such entry.
  pub frame-page_digits :
      (page : ℕ)
      → Agrees c m
      → 0 < c.entries_per_page
      → get_data_by_pid pid m ≡ some p
      → (logic_address_to_frame pid (map pos (page_digits c page)) m).0
        ≡ frame_of_page p (page % c.entries_per_page ^ c.levels)
  frame-page_digits page agrees h found =
      rw
        (
          lookup_outcome pid p _ m
              (length-map (page_digits c page) pos ∙ length-page_digits c page ∙ sym agrees.levels)
              found,
          ← value-page_digits c page h,
        )
        (walk_outcome pid p _ m _ (page_index-Agrees page agrees h))
