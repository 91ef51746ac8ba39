-- ===== src/Utils/Text/Delimited.antt =====
-- Texts that end at a delimiter which they do not hold.
use tp_ssoo_1c.Prelude.{map, ℕ, ◌≡◌, refl, false, [], ◌∷◌, ◌++◌, arith, ◌==◌, ==_refl, List}
use tp_ssoo_1c.Utils.Text.{Text, join, split, itoa, is_digit}
use tp_ssoo_1c.Utils.Text.RoundTrip.{AllDigits, itoa-AllDigits}

abbrev pub Lacks : ℕ → Text → Type 0
Lacks c [] = Unit {0}
Lacks c (x ∷ s) = ((x == c) ≡ false) × Lacks c s

AllDigits-Lacks : (c : ℕ) (s : Text) → is_digit c ≡ false → AllDigits s → Lacks c s
AllDigits-Lacks c [] e h = tt
AllDigits-Lacks c (x ∷ s) e h = let d = h.0 in (ground arith, AllDigits-Lacks c s e h.1)

pub itoa-Lacks : (c n : ℕ) → is_digit c ≡ false → Lacks c (itoa n)
itoa-Lacks c n e = AllDigits-Lacks c (itoa n) e (itoa-AllDigits n)

pub Lacks-append : (c : ℕ) (s t : Text) → Lacks c s → Lacks c t → Lacks c (s ++ t)
Lacks-append c [] t h g = g
Lacks-append c (x ∷ s) t h g = (h.0, Lacks-append c s t h.1 g)

pub split-delimited :
    (sep : ℕ) (s rest : Text) → Lacks sep s → split sep (s ++ (sep ∷ rest)) ≡ s ∷ split sep rest
unfolding split
split-delimited sep [] rest h = rw (==_refl sep sep refl)
split-delimited sep (c ∷ s) rest h = rw (h.0, split-delimited sep s rest h.1)

pub split-whole : (sep : ℕ) (s : Text) → Lacks sep s → split sep s ≡ s ∷ []
unfolding split
split-whole sep [] h = refl
split-whole sep (c ∷ s) h = rw (h.0, split-whole sep s h.1)

-- Numbers with spaces between them.
pub join-Lacks :
    (c : ℕ) (ns : List ℕ)
    → is_digit c ≡ false
    → (b' ' == c) ≡ false
    → Lacks c (join b' ' (map itoa ns))
unfolding join
join-Lacks c [] e f = tt
join-Lacks c (n ∷ []) e f = itoa-Lacks c n e
join-Lacks c (n ∷ k ∷ ns) e f =
    Lacks-append c (itoa n) _ (itoa-Lacks c n e) (f, join-Lacks c (k ∷ ns) e f)
