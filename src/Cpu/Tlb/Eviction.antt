-- ===== src/Cpu/Tlb/Eviction.antt =====
-- cpu/memory/tlb.go: AddEntryTLB takes one entry out of a full TLB.
use tp_ssoo_1c.Prelude.{
  ℕ, zero, suc, ◌+◌, ◌<◌, ◌≡◌, ◌≢◌, refl, ap, true, false, List, [], ◌∷◌, length, arith, ltb, ◌==◌,
  if◌then◌else◌, if-intro,
}
use tp_ssoo_1c.Cpu.Tlb.{
  TlbEntry, Replacement, fifo, lru, other, are_slices_equal, lru_index, remove_at, evict,
}

pub slices_eq : (a b : List ℕ) → are_slices_equal a b ≡ true → a ≡ b
slices_eq [] [] h = refl
slices_eq [] (y ∷ b) h = ground arith
slices_eq (x ∷ a) [] h = ground arith
slices_eq (x ∷ a) (y ∷ b) h = ground (arith, slices_eq a b)

lru_index-lt :
    (best oldest i : ℕ) (es : List TlbEntry)
    → best < i + length es
    → lru_index best oldest i es < i + length es
unfolding lru_index
lru_index-lt best oldest i [] h = h
lru_index-lt best oldest i (e ∷ es) h =
    let earlier = ltb e.last_used oldest in
    let bound = if-intro (λ b. b < suc i + length es) earlier i best (omega arith) (omega arith) in
    omega (
      arith,
      lru_index-lt (if earlier then i else best) (if earlier then e.last_used else oldest) (suc i)
          es bound,
    )

length-remove_at :
    (i : ℕ) (es : List TlbEntry) → i < length es → suc (length (remove_at i es)) ≡ length es
length-remove_at i [] h = elim h [ ]
length-remove_at zero (e ∷ es) h = refl
length-remove_at (suc i) (e ∷ es) h = ap suc (length-remove_at i es (omega arith))

pub length-evict :
    (alg : Replacement) (es : List TlbEntry)
    → alg ≢ other
    → 0 < length es
    → suc (length (evict alg es)) ≡ length es
unfolding evict
length-evict alg [] h l = elim l [ ]
length-evict fifo (e ∷ es) h l = refl
length-evict lru (e ∷ es) h l =
    length-remove_at (lru_index 0 e.last_used 0 (e ∷ es)) (e ∷ es)
      (omega (arith, lru_index-lt 0 e.last_used 0 (e ∷ es) (omega arith)))
length-evict other (e ∷ es) h l = absurd (h refl)

pub not_zero : (n : ℕ) → n ≢ 0 → (n == 0) ≡ false
not_zero n h = ground arith
