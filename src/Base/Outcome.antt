-- ===== src/Base/Outcome.antt =====
-- What the calls of the program and of other components return.
use mathlib.Core.Path.{◌≡◌, refl}
use mathlib.Core.Logic.{◌⊎◌, inl, inr}

-- What a Go call can do: return a value, return an error, or panic (a nil dereference or an
-- index out of range). Nothing in this program recovers from a panic.
pub data Result (E A : Type 0) : Type 0 where
  ok : A → Result E A
  err : E → Result E A
  panic : Result E A

-- What a call of another component returns: a value or an error.
pub data Reply (E A : Type 0) : Type 0 where
  success : A → Reply E A
  failure : E → Reply E A

infixl 5 ◌>>=◌ ◌>>◌
abbrev pub ◌>>=◌ : {E A B : Type 0} → Result E A → (A → Result E B) → Result E B
ok a >>= f = f a
err e >>= f = err e
panic >>= f = panic

abbrev pub ◌>>◌ : {E B : Type 0} → Result E (Unit {0}) → Result E B → Result E B
m >> k = m >>= λ _. k

-- `return err`, of a call whose reply the caller passes on
abbrev pub pass_on : {E A : Type 0} → Reply E A → Result E A
pass_on (success a) = ok a
pass_on (failure e) = err e

-- What follows a call that returned no error.
abbrev pub and_then : {E A B : Type 0} → Reply E A → (A → Reply E B) → Reply E B
and_then (success a) f = f a
and_then (failure e) f = failure e

pub Reply-cases :
    {E A : Type 0} (r : Reply E A) → ((e : E) × (r ≡ failure e)) ⊎ ((a : A) × (r ≡ success a))
Reply-cases (success a) = inr (a, refl)
Reply-cases (failure e) = inl (e, refl)
