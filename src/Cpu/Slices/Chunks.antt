-- ===== src/Cpu/Slices/Chunks.antt =====
-- cpu/memory/: the pieces in which the loops of WriteMemory and WriteCache send a value.
use tp_ssoo_1c.Prelude.{
  ℕ, zero, suc, ◌-◌, ◌≤◌, ◌<◌, ◌≡◌, refl, sym, ap, ◌∙◌, List, [], ◌∷◌, ◌++◌, length, take, drop,
  arith, leb, ◌==◌, Bool-cases, inl, inr, take-append-drop, length-take, length-drop,
}
use tp_ssoo_1c.Cpu.Slices.{sizes, chunks}
use tp_ssoo_1c.Cpu.Writes.{rest_of}

abbrev pub concat : List (List ℕ) → List ℕ
concat [] = []
concat (c ∷ cs) = c ++ concat cs

-- No piece is empty or longer than a page.
abbrev pub AllPieces : ℕ → List (List ℕ) → Type 0
AllPieces page_size [] = Unit {0}
AllPieces page_size (c ∷ cs) = (0 < length c) × ((length c ≤ page_size) × AllPieces page_size cs)

abbrev Pieces : ℕ → List ℕ → List (List ℕ) → Type 0
Pieces page_size value cs = (concat cs ≡ value) × AllPieces page_size cs

take_all : (value : List ℕ) → take (length value) value ≡ value
take_all [] = refl
take_all (x ∷ xs) = ap (λ ys. x ∷ ys) (take_all xs)

empty_value : (value : List ℕ) → length value ≡ 0 → [] ≡ value
empty_value [] h = refl
empty_value (x ∷ xs) h = ground arith

append_none : (xs : List ℕ) → xs ++ [] ≡ xs
append_none [] = refl
append_none (x ∷ xs) = ap (λ ys. x ∷ ys) (append_none xs)

sizes-Pieces :
    (page_size fuel left : ℕ) (value : List ℕ)
    → 0 < page_size
    → left ≡ length value
    → left ≤ fuel
    → Pieces page_size value (chunks (sizes page_size fuel left) value)
unfolding sizes chunks
sizes-Pieces page_size zero left value p e l = (empty_value value (omega arith), tt)
sizes-Pieces page_size (suc fuel) left value p e l = elim (Bool-cases (left == 0)) [
  | inl z ↦ rw (z, sizes, chunks) (empty_value value (ground arith), tt)
  | inr z ↦ elim (Bool-cases (leb left page_size)) [
    | inl b ↦
        let whole : take left value ≡ value = ap (λ (n : ℕ). take n value) e ∙ take_all value in
        let some_left : 0 < length value = ground arith in
        let fits : length value ≤ page_size = ground arith in
        rw (z, b, sizes, chunks) (rw (whole) (append_none value, (some_left, (fits, tt))))
    | inr b ↦
        let long : page_size < left = ground arith in
        let rest =
          sizes-Pieces page_size fuel (left - page_size) (drop page_size value) p
            (omega (arith, length-drop page_size value)) (omega arith) in
        let full : length (take page_size value) ≡ page_size =
          omega (arith, length-take page_size value) in
        rw (z, b, sizes, chunks)
          (
            ap (λ ys. take page_size value ++ ys) rest.0 ∙ take-append-drop page_size value,
            (omega arith, (omega arith, rest.1)),
          )
  ]
]

-- With a page size that is not zero, the pieces in which the rest of a value is written page by
-- page make up that rest, and each has at least one byte and at most a page.
pub rest_of-AllPieces :
    (page_size n : ℕ) (value : List ℕ)
    → 0 < page_size
    → (concat (rest_of page_size n value) ≡ drop n value)
      × AllPieces page_size (rest_of page_size n value)
rest_of-AllPieces page_size n value p =
    sizes-Pieces page_size (length value - n) (length value - n) (drop n value) p
      (sym (length-drop n value)) (omega arith)
