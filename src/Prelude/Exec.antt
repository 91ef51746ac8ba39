-- ===== src/Prelude/Exec.antt =====
-- Go code that mutates a state, returns an error or panics. A panic inside an HTTP handler is
-- recovered by the server, so what was written before it stays: the state is always returned.
use mathlib.Core.Bool.{Bool, true, false}

pub data Outcome (E A : Type 0) : Type 0 where
  ok : A → Outcome E A
  err : E → Outcome E A
  panic : Outcome E A

abbrev pub Exec : Type 0 → Type 0 → Type 0 → Type 0
Exec S E A = S → Outcome E A × S

infixl 5 ◌>>=◌ ◌>>◌
abbrev pub ◌>>=◌ : {S E A B : Type 0} → Exec S E A → (A → Exec S E B) → Exec S E B
◌>>=◌ m f s = elim (m s).0 [
  | ok a ↦ f a (m s).1
  | err e ↦ (err e, (m s).1)
  | panic ↦ (panic, (m s).1)
]

abbrev pub ◌>>◌ : {S E B : Type 0} → Exec S E (Unit {0}) → Exec S E B → Exec S E B
m >> k = m >>= λ _. k

abbrev pub return : {S E A : Type 0} → A → Exec S E A
return a s = (ok a, s)

abbrev pub throw : {S E A : Type 0} → E → Exec S E A
throw e s = (err e, s)

abbrev pub crash : {S E A : Type 0} → Exec S E A
crash s = (panic, s)

abbrev pub get_state : {S E : Type 0} → Exec S E S
get_state s = (ok s, s)

abbrev pub modify : {S E : Type 0} → (S → S) → Exec S E (Unit {0})
modify f s = (ok tt, f s)

-- `if cond { return err }`
abbrev pub fail_if : {S E : Type 0} → Bool → E → Exec S E (Unit {0})
fail_if true e = throw e
fail_if false e = return tt

abbrev pub crash_if : {S E : Type 0} → Bool → Exec S E (Unit {0})
crash_if true = crash
crash_if false = return tt
