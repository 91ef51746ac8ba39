-- ===== src/Prelude/Keeps.antt =====
-- A predicate of the state that code keeps, whatever it returns.
use mathlib.Core.Bool.{Bool, true, false}
use mathlib.Core.Option.{Option, none, some}
use tp_ssoo_1c.Prelude.Exec.{
  Exec, Outcome, ok, err, panic, ◌>>=◌, get_state, modify, fail_if, crash_if,
}

module _ {S : Type 0} (E : Type 0) (P : S → Type 0) where
  abbrev pub Keeps : {A : Type 0} → Exec S E A → Type 0
  Keeps f = (s : S) → P s → P (f s).1

  Keeps-outcome :
      {A B : Type 0} (f : A → Exec S E B)
      → ((a : A) → Keeps (f a))
      → (o : Outcome E A) (s : S) → P s
      → P (◌>>=◌ (λ s. (o, s)) f s).1
  Keeps-outcome f h (ok a) s p = h a s p
  Keeps-outcome f h (err e) s p = p
  Keeps-outcome f h panic s p = p

  pub Keeps-bind :
      {A B : Type 0} (m : Exec S E A) (f : A → Exec S E B)
      → Keeps m
      → ((a : A) → Keeps (f a))
      → Keeps (m >>= f)
  Keeps-bind m f k h s p = Keeps-outcome f h (m s).0 (m s).1 (k s p)

  -- A read of the state, of which the code that follows may rely on the predicate.
  pub Keeps-read :
      {B : Type 0} (f : S → Exec S E B) → ((s : S) → P s → P (f s s).1) → Keeps (get_state >>= f)
  Keeps-read f h s p = h s p

  pub Keeps-modify : (f : S → S) → ((s : S) → P s → P (f s)) → Keeps (modify f)
  Keeps-modify f h = h

  pub Keeps-fail_if : (b : Bool) (e : E) → Keeps (fail_if b e)
  Keeps-fail_if true e s p = p
  Keeps-fail_if false e s p = p

  pub Keeps-crash_if : (b : Bool) → Keeps (crash_if b)
  Keeps-crash_if true s p = p
  Keeps-crash_if false s p = p

  pub Keeps-option :
      {A B : Type 0} (o : Option A) (x : Exec S E B) (f : A → Exec S E B)
      → Keeps x
      → ((a : A) → Keeps (f a))
      → Keeps (elim o [ none ↦ x | some a ↦ f a ])
  Keeps-option none x f hx hf = hx
  Keeps-option (some a) x f hx hf = hf a
