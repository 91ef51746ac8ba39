-- ===== src/Utils/Text/RoundTrip.antt =====
-- Numbers and lists of numbers that are written as texts are read back.
use tp_ssoo_1c.Prelude.{
  ℕ, zero, suc, ◌+◌, ◌-◌, ◌*◌, ◌/◌, ◌%◌, ◌≤◌, ◌<◌, ◌≡◌, refl, sym, ap, ◌∙◌, true, false, List, [],
  ◌∷◌, ◌++◌, map, some, arith, length, ==_refl, subst, ltb, ◌==◌, Bool-cases, inl, inr, List-cases,
  ◌≢◌,
}
use tp_ssoo_1c.Prelude.Int.{pos, negsuc, ℤ}
use tp_ssoo_1c.Utils.Text.{
  Text, split, read_digits, atoi, atoi_or_zero, digits_of, itoa, join, is_digit, itoa_int,
}

digit :
    (n acc k : ℕ) (s : Text)
    → n < 10
    → k ≡ 10 * acc + n
    → read_digits acc ((b'0' + n) ∷ s) ≡ read_digits k s
unfolding read_digits
digit n acc k s h e =
    let yes : is_digit (b'0' + n) ≡ true = ground arith in
    let number : 10 * acc + (b'0' + n - b'0') ≡ k = omega arith in
    rw (yes) (ap (λ (j : ℕ). read_digits j s) number)

read_digits-digits_of :
    (fuel n : ℕ) (acc : Text) → n < fuel → read_digits 0 (digits_of fuel n acc) ≡ read_digits n acc
unfolding digits_of
read_digits-digits_of zero n acc h = elim h [ ]
read_digits-digits_of (suc fuel) n acc h = elim (Bool-cases (ltb n 10)) [
  | inl e ↦ rw (e, digits_of) (digit n 0 n acc (ground arith) (omega arith))
  | inr e ↦
      let less : n / 10 < fuel = grind (arith, e) in
      rw (e, digits_of)
        (read_digits-digits_of fuel (n / 10) ((b'0' + n % 10) ∷ acc) less
          ∙ digit (n % 10) (n / 10) n acc (omega arith) (omega arith))
]

-- A text of digits, with at least one.
abbrev pub AllDigits : Text → Type 0
AllDigits [] = Unit {0}
AllDigits (c ∷ s) = (is_digit c ≡ true) × AllDigits s

digit_code : (n : ℕ) → n < 10 → is_digit (b'0' + n) ≡ true
digit_code n h = ground arith

digits_of-AllDigits : (fuel n : ℕ) (acc : Text) → AllDigits acc → AllDigits (digits_of fuel n acc)
unfolding digits_of
digits_of-AllDigits zero n acc h = h
digits_of-AllDigits (suc fuel) n acc h = elim (Bool-cases (ltb n 10)) [
  | inl e ↦ rw (e, digits_of) (digit_code n (ground arith), h)
  | inr e ↦
      rw (e, digits_of)
        (digits_of-AllDigits fuel (n / 10) ((b'0' + n % 10) ∷ acc)
          (digit_code (n % 10) (omega arith), h))
]

pub itoa-AllDigits : (n : ℕ) → AllDigits (itoa n)
unfolding itoa
itoa-AllDigits n = digits_of-AllDigits (n + 1) n [] tt

longer : (fuel n : ℕ) (acc : Text) → length acc ≤ length (digits_of fuel n acc)
unfolding digits_of
longer zero n acc = omega arith
longer (suc fuel) n acc = elim (Bool-cases (ltb n 10)) [
  | inl e ↦ rw (e, digits_of) (omega arith)
  | inr e ↦ rw (e, digits_of) (omega (arith, longer fuel (n / 10) ((b'0' + n % 10) ∷ acc)))
]

itoa_longer : (fuel n : ℕ) (acc : Text) → length acc < length (digits_of (suc fuel) n acc)
unfolding digits_of
itoa_longer fuel n acc = elim (Bool-cases (ltb n 10)) [
  | inl e ↦ rw (e, digits_of) (omega arith)
  | inr e ↦ rw (e, digits_of) (omega (arith, longer fuel (n / 10) ((b'0' + n % 10) ∷ acc)))
]

atoi-AllDigits :
    (s : Text) (n : ℕ)
    → AllDigits s
    → 0 < length s
    → read_digits 0 s ≡ some n
    → atoi s ≡ some (pos n)
unfolding atoi
atoi-AllDigits [] n h l e = elim l [ ]
atoi-AllDigits (c ∷ []) n h l e = rw (e)
atoi-AllDigits (c ∷ d ∷ s) n h l e =
    let minus : (c == b'-') ≡ false = ground (arith, h.0) in
    let plus : (c == b'+') ≡ false = ground (arith, h.0) in rw (minus, plus, e)

pub atoi-itoa : (n : ℕ) → atoi (itoa n) ≡ some (pos n)
unfolding itoa read_digits
atoi-itoa n =
    let more : n + 1 ≡ suc n = omega arith in
    atoi-AllDigits (digits_of (n + 1) n []) n (itoa-AllDigits n)
      (subst (λ (k : ℕ). 0 < length (digits_of k n [])) (sym more) (itoa_longer n n []))
      (read_digits-digits_of (n + 1) n [] (omega arith))

pub atoi_or_zero-itoa : (n : ℕ) → atoi_or_zero (itoa n) ≡ pos n
unfolding atoi_or_zero
atoi_or_zero-itoa n = rw (atoi_or_zero, atoi-itoa n)

-- Splitting behind a text of digits.
split-AllDigits : (sep : ℕ) (s : Text) → is_digit sep ≡ false → AllDigits s → split sep s ≡ s ∷ []
unfolding split
split-AllDigits sep [] sep_ok h = refl
split-AllDigits sep (c ∷ s) sep_ok h =
    let other : (c == sep) ≡ false = ground (arith, h.0, sep_ok) in
    rw (other, split-AllDigits sep s sep_ok h.1)

split-join_digits :
    (sep : ℕ) (s rest : Text)
    → is_digit sep ≡ false
    → AllDigits s
    → split sep (s ++ (sep ∷ rest)) ≡ s ∷ split sep rest
unfolding split
split-join_digits sep [] rest sep_ok h = rw (==_refl sep sep refl)
split-join_digits sep (c ∷ s) rest sep_ok h =
    let other : (c == sep) ≡ false = ground (arith, h.0, sep_ok) in
    rw (other, split-join_digits sep s rest sep_ok h.1)

pub split-join :
    (sep n : ℕ) (ns : List ℕ)
    → is_digit sep ≡ false
    → split sep (join sep (map itoa (n ∷ ns))) ≡ map itoa (n ∷ ns)
unfolding join
split-join sep n [] sep_ok = split-AllDigits sep (itoa n) sep_ok (itoa-AllDigits n)
split-join sep n (k ∷ ns) sep_ok =
    split-join_digits sep (itoa n) (join sep (map itoa (k ∷ ns))) sep_ok (itoa-AllDigits n)
    ∙ ap (λ ws. itoa n ∷ ws) (split-join sep k ns sep_ok)

read_digits-itoa : (n : ℕ) → read_digits 0 (itoa n) ≡ some n
unfolding itoa read_digits
read_digits-itoa n = read_digits-digits_of (n + 1) n [] (omega arith)

itoa-length : (n : ℕ) → 0 < length (itoa n)
unfolding itoa
itoa-length n =
    let more : n + 1 ≡ suc n = omega arith in
    subst (λ (k : ℕ). 0 < length (digits_of k n [])) (sym more) (itoa_longer n n [])

atoi-minus :
    (s : Text) (n : ℕ)
    → 0 < length s
    → read_digits 0 s ≡ some (suc n)
    → atoi (b'-' ∷ s) ≡ some (negsuc n)
unfolding atoi
atoi-minus [] n l e = elim l [ ]
atoi-minus (c ∷ s) n l e = rw e (ground arith)

pub atoi-itoa_int : (z : ℤ) → atoi (itoa_int z) ≡ some z
unfolding itoa_int
atoi-itoa_int (pos n) = atoi-itoa n
atoi-itoa_int (negsuc n) =
    atoi-minus (itoa (suc n)) n (itoa-length (suc n)) (read_digits-itoa (suc n))

pub atoi_or_zero-itoa_int : (z : ℤ) → atoi_or_zero (itoa_int z) ≡ z
unfolding atoi_or_zero
atoi_or_zero-itoa_int z = rw (atoi_or_zero, atoi-itoa_int z)

-- A number is never written as the empty text.
pub itoa_int-some : (z : ℤ) → (c : ℕ) × (s : Text) × (itoa_int z ≡ c ∷ s)
unfolding itoa_int
itoa_int-some (pos n) = elim (List-cases (itoa n)) [
  | inl e ↦ absurd (omega (arith, itoa-length n, ap length e))
  | inr f ↦ f
]
itoa_int-some (negsuc n) = (b'-', itoa (suc n), refl)

split-itoa_int :
    (sep : ℕ) (z : ℤ) → is_digit sep ≡ false → sep ≢ b'-' → split sep (itoa_int z) ≡ itoa_int z ∷ []
unfolding itoa_int split
split-itoa_int sep (pos n) h g = split-AllDigits sep (itoa n) h (itoa-AllDigits n)
split-itoa_int sep (negsuc n) h g =
    let other : (b'-' == sep) ≡ false = ground arith in
    rw (other, split-AllDigits sep (itoa (suc n)) h (itoa-AllDigits (suc n)))

-- Two numbers with a separator between them, of which the first is not negative.
pub split-pair :
    (sep n : ℕ) (z : ℤ)
    → is_digit sep ≡ false
    → sep ≢ b'-'
    → split sep (itoa n ++ (sep ∷ itoa_int z)) ≡ itoa n ∷ (itoa_int z ∷ [])
split-pair sep n z h g =
    split-join_digits sep (itoa n) (itoa_int z) h (itoa-AllDigits n)
    ∙ ap (λ ws. itoa n ∷ ws) (split-itoa_int sep z h g)
