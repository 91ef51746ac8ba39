-- ===== src/Memory/Pages/Apart.antt =====
-- memoria/storage/storage.go: pages that are written to different frames do not touch each other.
use tp_ssoo_1c.Prelude.{
  ℕ, zero, suc, ◌+◌, ◌*◌, ◌≤◌, ◌<◌, ◌≡◌, ◌≢◌, ◌⊎◌, inl, inr, refl, sym, ap, ◌∙◌, List, [], ◌∷◌,
  Bool-cases, ltb, length, set, take, drop, arith, count,
}
use tp_ssoo_1c.Memory.Frames.Bits.{IsFrame, AllFrames}
use tp_ssoo_1c.Memory.Pages.RoundTrip.{write_list, length-write_list, read-write_list}

take-set : (n i c : ℕ) (xs : List ℕ) → n ≤ i → take n (set xs i c) ≡ take n xs
take-set zero i c xs h = refl
take-set (suc n) zero c xs h = elim h [ ]
take-set (suc n) (suc i) c [] h = refl
take-set (suc n) (suc i) c (x ∷ xs) h = ap (λ ys. x ∷ ys) (take-set n i c xs (omega (arith, h)))

-- A write outside of the `n` bytes from `b` on.
take-drop-set :
    (n b i c : ℕ) (xs : List ℕ)
    → (i < b) ⊎ (b + n ≤ i)
    → take n (drop b (set xs i c)) ≡ take n (drop b xs)
take-drop-set n zero i c xs (inl h) = elim h [ ]
take-drop-set n zero i c xs (inr h) = take-set n i c xs (omega (arith, h))
take-drop-set n (suc b) i c [] h = refl
take-drop-set n (suc b) zero c (x ∷ xs) h = refl
take-drop-set n (suc b) (suc i) c (x ∷ xs) (inl h) =
    take-drop-set n b i c xs (inl (omega (arith, h)))
take-drop-set n (suc b) (suc i) c (x ∷ xs) (inr h) =
    take-drop-set n b i c xs (inr (omega (arith, h)))

take-drop-write_list :
    (n b i : ℕ) (xs cs : List ℕ)
    → (i + length cs ≤ b) ⊎ (b + n ≤ i)
    → take n (drop b (write_list xs i cs)) ≡ take n (drop b xs)
unfolding write_list
take-drop-write_list n b i xs [] h = refl
take-drop-write_list n b i xs (c ∷ cs) (inl h) =
    take-drop-write_list n b (suc i) (set xs i c) cs (inl (omega (arith, h)))
    ∙ take-drop-set n b i c xs (inl (omega (arith, h)))
take-drop-write_list n b i xs (c ∷ cs) (inr h) =
    take-drop-write_list n b (suc i) (set xs i c) cs (inr (omega (arith, h)))
    ∙ take-drop-set n b i c xs (inr (omega (arith, h)))

-- Pages written one after another.
unfoldable pub write_lists : List ℕ → List ℕ → List (List ℕ) → List ℕ
write_lists xs [] pages = xs
write_lists xs (b ∷ bs) [] = xs
write_lists xs (b ∷ bs) (p ∷ ps) = write_lists (write_list xs b p) bs ps

-- Pages of `n` bytes.
abbrev pub Sizes : ℕ → List (List ℕ) → Type 0
Sizes n [] = Unit {0}
Sizes n (p ∷ ps) = (length p ≡ n) × Sizes n ps

abbrev pub Distinct : List ℕ → Type 0
Distinct [] = Unit {0}
Distinct (b ∷ bs) = (count b bs ≡ 0) × Distinct bs

-- A frame ends where the next one begins, or before.
next_frame : (n i j : ℕ) → i < j → i * n + n ≤ j * n
next_frame n i j h = grind arith

frame_apart : (n i j : ℕ) → i ≢ j → (j * n + n ≤ i * n) ⊎ (i * n + n ≤ j * n)
frame_apart n i j h = elim (Bool-cases (ltb i j)) [
  | inl e ↦ inr (next_frame n i j (ground arith))
  | inr e ↦ inl (next_frame n j i (ground arith))
]

frames_apart :
    (n lo hi b b' : ℕ)
    → IsFrame n lo hi b
    → IsFrame n lo hi b'
    → b ≢ b'
    → (b' + n ≤ b) ⊎ (b + n ≤ b')
frames_apart n lo hi b b' f f' h =
    elim (frame_apart n f.number f'.number
      (λ e. h (f.aligned ∙ ap (λ i. i * n) e ∙ sym f'.aligned))) [
        | inl l ↦ inl (omega (arith, l, f.aligned, f'.aligned))
        | inr l ↦ inr (omega (arith, l, f.aligned, f'.aligned))
      ]

not_counted : (b b' : ℕ) (bs : List ℕ) → count b (b' ∷ bs) ≡ 0 → (b ≢ b') × (count b bs ≡ 0)
unfolding count
not_counted b b' bs h = (λ e. absurd (ground arith), ground arith)

pub take-drop-write_lists :
    (n hi b : ℕ) (xs bs : List ℕ) (ps : List (List ℕ))
    → IsFrame n 0 hi b
    → AllFrames n 0 hi bs
    → count b bs ≡ 0
    → Sizes n ps
    → take n (drop b (write_lists xs bs ps)) ≡ take n (drop b xs)
unfolding write_lists
take-drop-write_lists n hi b xs [] ps f fs h s = refl
take-drop-write_lists n hi b xs (b' ∷ bs) [] f fs h s = refl
take-drop-write_lists n hi b xs (b' ∷ bs) (p ∷ ps) f fs h s =
    let (other, rest) = not_counted b b' bs h in
    let size : length p ≡ n = s.0 in
    let outside : (b' + length p ≤ b) ⊎ (b + n ≤ b') =
      elim (frames_apart n 0 hi b b' f fs.0 other) [
        | inl l ↦ inl (omega (arith, l, size))
        | inr l ↦ inr l
      ] in
    take-drop-write_lists n hi b (write_list xs b' p) bs ps f fs.1 rest s.1
    ∙ take-drop-write_list n b b' xs p outside

-- Every page is where it was written.
abbrev pub Reads : ℕ → List ℕ → List ℕ → List (List ℕ) → Type 0
Reads n xs [] ps = Unit {0}
Reads n xs (b ∷ bs) [] = Unit {0}
Reads n xs (b ∷ bs) (p ∷ ps) = (take n (drop b xs) ≡ p) × Reads n xs bs ps

pub frame_fits : (n hi b k : ℕ) → IsFrame n 0 hi b → hi * n ≤ k → b + n ≤ k
frame_fits n hi b k f h = omega (arith, f.aligned, next_frame n f.number hi f.below, h)

pub write_lists-Reads :
    (n hi : ℕ) (xs bs : List ℕ) (ps : List (List ℕ))
    → AllFrames n 0 hi bs
    → Distinct bs
    → Sizes n ps
    → hi * n ≤ length xs
    → Reads n (write_lists xs bs ps) bs ps
unfolding write_lists
write_lists-Reads n hi xs [] ps fs d s h = tt
write_lists-Reads n hi xs (b ∷ bs) [] fs d s h = tt
write_lists-Reads n hi xs (b ∷ bs) (p ∷ ps) fs d s h =
    let size : length p ≡ n = s.0 in
    let fits = frame_fits n hi b (length xs) fs.0 h in
    let same = length-write_list xs b p in
    (
      take-drop-write_lists n hi b (write_list xs b p) bs ps fs.0 fs.1 d.0 s.1
          ∙ ap (λ k. take k (drop b (write_list xs b p))) (sym size)
          ∙ read-write_list xs b p (omega (arith, fits, size)),
      write_lists-Reads n hi (write_list xs b p) bs ps fs.1 d.1 s.1 (omega (arith, h, same)),
    )

pub length-write_lists :
    (xs bs : List ℕ) (ps : List (List ℕ)) → length (write_lists xs bs ps) ≡ length xs
unfolding write_lists
length-write_lists xs [] ps = refl
length-write_lists xs (b ∷ bs) [] = refl
length-write_lists xs (b ∷ bs) (p ∷ ps) =
    length-write_lists (write_list xs b p) bs ps ∙ length-write_list xs b p
