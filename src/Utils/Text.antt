-- ===== src/Utils/Text.antt =====
-- Go's byte strings and the parts of `strings`, `strconv` and `fmt` that the program calls:
-- `strings.Split` by one byte, `strconv.Atoi` and `fmt.Sprint` of a number.
pub mod RoundTrip
pub mod Delimited
use Prim.Native.Char.{code}
use Prim.Native.String.{String}
use tp_ssoo_1c.Prelude.{
  ℕ, zero, suc, ◌+◌, ◌-◌, ◌*◌, ◌/◌, ◌%◌, ◌&&◌, Bool, true, false, List, [], ◌∷◌, ◌++◌, Option, none,
  some, leb, ltb, ◌==◌, if◌then◌else◌,
}
use tp_ssoo_1c.Prelude.Int.{ℤ, pos, sub_ℕ, negsuc}

abbrev pub Text : Type 0
Text = List ℕ

-- The bytes of an ASCII literal.
abbrev pub codes : String → Text
codes String.[] = []
codes (String.◌∷◌ c s) = code c ∷ codes s

abbrev pub text_eq : Text → Text → Bool
text_eq [] [] = true
text_eq [] (y ∷ ys) = false
text_eq (x ∷ xs) [] = false
text_eq (x ∷ xs) (y ∷ ys) = (x == y) && text_eq xs ys

abbrev prepend : ℕ → List Text → List Text
prepend c [] = (c ∷ []) ∷ []
prepend c (w ∷ ws) = (c ∷ w) ∷ ws

-- `strings.Split(s, sep)` for a separator of one byte: never empty.
unfoldable pub split : ℕ → Text → List Text
split sep [] = [] ∷ []
split sep (c ∷ s) = if c == sep then [] ∷ split sep s else prepend c (split sep s)

abbrev pub is_digit : ℕ → Bool
is_digit c = leb b'0' c && leb c b'9'

-- The digits of a number, most significant first, and their value.
unfoldable pub read_digits : ℕ → Text → Option ℕ
read_digits acc [] = some acc
read_digits acc (c ∷ s) =
    let rest = read_digits (10 * acc + (c - b'0')) s in if is_digit c then rest else none

abbrev negate : Option ℕ → Option ℤ
negate none = none
negate (some n) = some (sub_ℕ 0 n)

abbrev positive : Option ℕ → Option ℤ
positive none = none
positive (some n) = some (pos n)

-- `strconv.Atoi`, where the number fits in an `int`; `none` is its error.
unfoldable pub atoi : Text → Option ℤ
unfolding read_digits
atoi [] = none
atoi (c ∷ []) = positive (read_digits 0 (c ∷ []))
atoi (c ∷ d ∷ s) =
    if c == b'-'
    then negate (read_digits 0 (d ∷ s))
    else if c == b'+'
    then positive (read_digits 0 (d ∷ s))
    else positive (read_digits 0 (c ∷ d ∷ s))

-- `v, _ := strconv.Atoi(s)`: zero where the text is no number.
unfoldable pub atoi_or_zero : Text → ℤ
unfolding atoi
atoi_or_zero s = elim (atoi s) [ none ↦ pos 0 | some n ↦ n ]

-- Decimal digits, on fuel; `n + 1` rounds are more than there are digits.
unfoldable pub digits_of : ℕ → ℕ → Text → Text
digits_of zero n acc = acc
digits_of (suc fuel) n acc =
    let rest = digits_of fuel (n / 10) ((b'0' + n % 10) ∷ acc) in
    if ltb n 10 then (b'0' + n) ∷ acc else rest

-- `fmt.Sprint(n)` of a number that is not negative.
unfoldable pub itoa : ℕ → Text
unfolding digits_of
itoa n = digits_of (n + 1) n []

-- `%d` of an `int`, or `fmt.Sprint` of it.
unfoldable pub itoa_int : ℤ → Text
unfolding itoa
itoa_int (pos n) = itoa n
itoa_int (negsuc n) = b'-' ∷ itoa (suc n)

-- `strings.Join(parts, sep)` for a separator of one byte.
unfoldable pub join : ℕ → List Text → Text
join sep [] = []
join sep (w ∷ []) = w
join sep (w ∷ v ∷ ws) = w ++ (sep ∷ join sep (v ∷ ws))
