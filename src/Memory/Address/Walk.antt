-- ===== src/Memory/Address/Walk.antt =====
-- memoria/storage/storage.go: the page number that LogicAddressToFrame computes from an address
-- whose entries are in range.
use tp_ssoo_1c.Prelude.{
  ℕ, suc, ◌+◌, ◌*◌, ◌-◌, ◌^◌, ◌≡◌, ap, List, [], ◌∷◌, map, length, arith, ◌<◌, ◌∙◌, lt→leb,
}
use tp_ssoo_1c.Prelude.Int.{ℤ, pos}
use tp_ssoo_1c.Prelude.Exec.{Outcome, ok}
use tp_ssoo_1c.Cpu.Address.Digits.{AllBelow, value, value-cons}
use tp_ssoo_1c.Memory.State.{Memory, Error}
use tp_ssoo_1c.Memory.Address.{count_table_access, page_index}

pub page_index_step :
    (pid entries levels i index d : ℕ) (rest : List ℤ) (m : Memory)
    → d < entries
    → page_index pid entries levels i index (pos d ∷ rest) m
      ≡ page_index pid entries levels
          (suc i)
          (index + d * entries ^ (levels - 1 - i))
          rest
          (count_table_access pid m).1
unfolding page_index
page_index_step pid entries levels i index d rest m h = rw (lt→leb entries d h)

shift :
    (entries levels i index d : ℕ) (ds : List ℕ)
    → i + suc (length ds) ≡ levels
    → index + d * entries ^ (levels - 1 - i) + value entries ds (length ds)
      ≡ index + value entries (d ∷ ds) (suc (length ds))
shift entries levels i index d ds l =
    let e : levels - 1 - i ≡ length ds = omega arith in
    rw (e, value-cons entries d ds (length ds)) (omega arith)

-- The loop computes the number of the digits, with no error.
pub page_index-value :
    (pid entries levels i index : ℕ) (ds : List ℕ) (m : Memory)
    → AllBelow entries ds
    → i + length ds ≡ levels
    → (page_index pid entries levels i index (map pos ds) m).0
      ≡ ok (index + value entries ds (length ds))
unfolding page_index value
page_index-value pid entries levels i index [] m h l = ap ok (omega arith)
page_index-value pid entries levels i index (d ∷ ds) m h l =
    ap (λ (r : Outcome Error ℕ × Memory). r.0)
      (page_index_step pid entries levels i index d (map pos ds) m h.0)
    ∙ page_index-value pid entries levels (suc i) _ ds _ h.1 (omega arith)
    ∙ ap ok (shift entries levels i index d ds l)
