-- ===== src/Kernel/Queues/Insertion.antt =====
-- An insertion sort: an implementation of what the queues of kernel/queues/queues.go need of
-- `sort.Slice`.
use tp_ssoo_1c.Prelude.{
  ℕ, ◌≡◌, refl, true, false, List, [], ◌∷◌, arith, count, if◌then◌else◌, Bool-cases, inl, inr, ◌∙◌,
}
use tp_ssoo_1c.Prelude.Int.{ℤ, ◌≤ℤ◌, ltb_ℤ}
use tp_ssoo_1c.Kernel.Queues.{Below, IsSorted, SortSlice}

unfoldable pub insert : (ℕ → ℤ) → ℕ → List ℕ → List ℕ
insert key x [] = x ∷ []
insert key x (y ∷ ys) = if ltb_ℤ (key y) (key x) then y ∷ insert key x ys else x ∷ y ∷ ys

unfoldable pub insertion_sort : (ℕ → ℤ) → List ℕ → List ℕ
insertion_sort key [] = []
insertion_sort key (x ∷ xs) = insert key x (insertion_sort key xs)

Below-weaken : (a b : ℤ) (key : ℕ → ℤ) (xs : List ℕ) → a ≤ℤ b → Below b key xs → Below a key xs
Below-weaken a b key [] l h = tt
Below-weaken a b key (x ∷ xs) l h = (omega (arith, h.0), Below-weaken a b key xs l h.1)

Below-insert :
    (n : ℤ) (key : ℕ → ℤ) (x : ℕ) (xs : List ℕ)
    → n ≤ℤ key x
    → Below n key xs
    → Below n key (insert key x xs)
unfolding insert
Below-insert n key x [] l h = (l, tt)
Below-insert n key x (y ∷ ys) l h = elim (Bool-cases (ltb_ℤ (key y) (key x))) [
  | inl e ↦ rw (e) (h.0, Below-insert n key x ys l h.1)
  | inr e ↦ rw (e) (l, h)
]

ltb_ℤ-le : (a b : ℤ) → ltb_ℤ a b ≡ true → a ≤ℤ b
ltb_ℤ-le a b h = ground arith

ltb_ℤ-ge : (a b : ℤ) → ltb_ℤ a b ≡ false → b ≤ℤ a
ltb_ℤ-ge a b h = ground arith

insert-IsSorted :
    (key : ℕ → ℤ) (x : ℕ) (xs : List ℕ) → IsSorted key xs → IsSorted key (insert key x xs)
unfolding insert
insert-IsSorted key x [] h = (tt, tt)
insert-IsSorted key x (y ∷ ys) h = elim (Bool-cases (ltb_ℤ (key y) (key x))) [
  | inl e ↦
      rw (e) (
        Below-insert (key y) key x ys (ltb_ℤ-le (key y) (key x) e) h.0,
        insert-IsSorted key x ys h.1,
      )
  | inr e ↦
      let l = ltb_ℤ-ge (key y) (key x) e in
      rw (e) ((l, Below-weaken (key x) (key y) key ys l h.0), h)
]

count-insert : (key : ℕ → ℤ) (x z : ℕ) (xs : List ℕ) → count z (insert key x xs) ≡ count z (x ∷ xs)
unfolding insert count
count-insert key x z [] = refl
count-insert key x z (y ∷ ys) = elim (Bool-cases (ltb_ℤ (key y) (key x))) [
  | inl e ↦ rw (e) (omega (arith, count-insert key x z ys))
  | inr e ↦ rw (e) refl
]

pub insertion_sort-IsSorted : (key : ℕ → ℤ) (xs : List ℕ) → IsSorted key (insertion_sort key xs)
unfolding insertion_sort
insertion_sort-IsSorted key [] = tt
insertion_sort-IsSorted key (x ∷ xs) =
    insert-IsSorted key x (insertion_sort key xs) (insertion_sort-IsSorted key xs)

pub count-insertion_sort :
    (key : ℕ → ℤ) (xs : List ℕ) (z : ℕ) → count z (insertion_sort key xs) ≡ count z xs
unfolding insertion_sort count
count-insertion_sort key [] z = refl
count-insertion_sort key (x ∷ xs) z =
    count-insert key x z (insertion_sort key xs) ∙ omega (arith, count-insertion_sort key xs z)

abbrev pub insertion : SortSlice
insertion = record {
  sort = insertion_sort;
  sort_sorted = insertion_sort-IsSorted;
  sort_count = count-insertion_sort;
}
