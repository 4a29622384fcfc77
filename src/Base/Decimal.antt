-- ===== src/Base/Decimal.antt =====
-- `strconv.ParseInt` in base 10 for 32 bits, and the verb `%d`, on Go's `int`.
use persistent_pod_state.Base.Tests.{Text, ◌==◌, nat_eq, ltb, leb, if◌then◌else◌, Bool-cases}
use persistent_pod_state.Base.Int.{ℤ, pos, negsuc}
use Prim.Native.Nat.{ℕ, zero, suc, ◌+◌, ◌-◌, ◌*◌, ◌/◌, ◌%◌, ◌^◌, ◌≤◌, ◌<◌}
use mathlib.Core.Path.{◌≡◌, refl, ap, ◌∙◌}
use mathlib.Core.Logic.{inl, inr}
use mathlib.Core.Bool.{true, ◌||◌}
use mathlib.Core.Option.{Option, none, some}
use mathlib.Core.List.{[], ◌∷◌}
use native.Mathlib.Omega.{arith}

-- The digits, after a number that was read.
unfoldable pub parse_digits : Text → ℕ → Option ℕ
parse_digits [] n = some n
parse_digits (c ∷ s) n =
    let rest = parse_digits s (10 * n + (c - b'0')) in
    if ltb c b'0' || ltb b'9' c then none else rest

unfoldable pub parse_unsigned : Text → Option ℕ
unfolding parse_digits
parse_unsigned [] = none
parse_unsigned (c ∷ s) = parse_digits (c ∷ s) 0

abbrev negated : ℕ → ℤ
negated zero = pos 0
negated (suc n) = negsuc n

-- The bounds of 32 bits; `none` is an error.
unfoldable pub positive32 : Option ℕ → Option ℤ
positive32 none = none
positive32 (some n) = if ltb n (2 ^ 31) then some (pos n) else none

unfoldable pub negative32 : Option ℕ → Option ℤ
negative32 none = none
negative32 (some n) = if leb n (2 ^ 31) then some (negated n) else none

-- `strconv.ParseInt(s, 10, 32)`
unfoldable pub parse_int32 : Text → Option ℤ
unfolding parse_unsigned positive32 negative32
parse_int32 [] = none
parse_int32 (c ∷ s) =
    if c == b'-'
    then negative32 (parse_unsigned s)
    else if c == b'+'
    then positive32 (parse_unsigned s)
    else positive32 (parse_unsigned (c ∷ s))

-- The digits of a number, before others; at most one more than the fuel.
unfoldable pub digits : ℕ → ℕ → Text → Text
digits zero n acc = (b'0' + n) ∷ acc
digits (suc fuel) n acc =
    let more = digits fuel (n / 10) ((b'0' + n % 10) ∷ acc) in
    if ltb n 10 then (b'0' + n) ∷ acc else more

-- Ten digits are enough for 32 bits.
unfoldable pub print_nat : ℕ → Text
unfolding digits
print_nat n = digits 9 n []

unfoldable pub print_int : ℤ → Text
unfolding print_nat
print_int (pos n) = print_nat n
print_int (negsuc n) = b'-' ∷ print_nat (suc n)

-- The numbers of 32 bits.
abbrev pub IsInt32 : ℤ → Type 0
IsInt32 (pos n) = n < 2 ^ 31
IsInt32 (negsuc n) = n < 2 ^ 31

-- One more digit than the fuel is enough for numbers below.
abbrev ten_to : ℕ → ℕ
ten_to zero = 10
ten_to (suc k) = 10 * ten_to k

parse_digits-digits :
    (fuel n : ℕ) (acc : Text)
    → n < ten_to fuel
    → parse_digits (digits fuel n acc) 0 ≡ parse_digits acc n
unfolding parse_digits digits
parse_digits-digits zero n acc h = ground arith
parse_digits-digits (suc fuel) n acc h =
    ground (arith, parse_digits-digits fuel (n / 10) ((b'0' + n % 10) ∷ acc))

-- What is printed starts with a digit.
abbrev StartsWithDigit : Text → Type 0
StartsWithDigit [] = ⊥
StartsWithDigit (c ∷ s) = (b'0' ≤ c) × (c ≤ b'9')

digits-StartsWithDigit :
    (fuel n : ℕ) (acc : Text) → n < ten_to fuel → StartsWithDigit (digits fuel n acc)
unfolding digits
digits-StartsWithDigit zero n acc h = (omega arith, omega arith)
digits-StartsWithDigit (suc fuel) n acc h = elim (Bool-cases (ltb n 10)) [
  | inl e ↦ rw e (ground arith, ground arith)
  | inr e ↦ rw e (digits-StartsWithDigit fuel (n / 10) ((b'0' + n % 10) ∷ acc) (ground arith))
]

parse_unsigned-starts : (s : Text) → StartsWithDigit s → parse_unsigned s ≡ parse_digits s 0
unfolding parse_unsigned
parse_unsigned-starts [] h = absurd h
parse_unsigned-starts (c ∷ s) h = refl

parse_int32-starts : (s : Text) → StartsWithDigit s → parse_int32 s ≡ positive32 (parse_unsigned s)
unfolding parse_int32
parse_int32-starts [] h = absurd h
parse_int32-starts (c ∷ s) h = ground arith

print_nat_digits :
    (n : ℕ) → n ≤ 2 ^ 31 → StartsWithDigit (print_nat n) × (parse_unsigned (print_nat n) ≡ some n)
unfolding print_nat parse_digits
print_nat_digits n h =
    let starts = digits-StartsWithDigit 9 n [] (omega arith) in
    (starts, parse_unsigned-starts _ starts ∙ parse_digits-digits 9 n [] (omega arith))

-- A number of 32 bits that is printed is read back.
pub parse_int32-print_int : (z : ℤ) → IsInt32 z → parse_int32 (print_int z) ≡ some z
unfolding print_int positive32 negative32 nat_eq
parse_int32-print_int (pos n) h =
    let p = print_nat_digits n (omega arith) in
    parse_int32-starts _ p.0 ∙ ap positive32 p.1 ∙ ground arith
parse_int32-print_int (negsuc n) h =
    unfold parse_int32 in ap negative32 (print_nat_digits (suc n) (omega arith)).1 ∙ ground arith

-- A number that was read, if there is one, is one of 32 bits.
abbrev pub IsInRange : Option ℤ → Type 0
IsInRange none = Unit
IsInRange (some z) = IsInt32 z

negated-IsInt32 : (n : ℕ) → leb n (2 ^ 31) ≡ true → IsInt32 (negated n)
negated-IsInt32 zero h = omega arith
negated-IsInt32 (suc n) h = ground arith

positive32-IsInRange : (o : Option ℕ) → IsInRange (positive32 o)
unfolding positive32
positive32-IsInRange none = tt
positive32-IsInRange (some n) = elim (Bool-cases (ltb n (2 ^ 31))) [
  | inl e ↦ rw e (ground arith)
  | inr e ↦ rw e tt
]

negative32-IsInRange : (o : Option ℕ) → IsInRange (negative32 o)
unfolding negative32
negative32-IsInRange none = tt
negative32-IsInRange (some n) = elim (Bool-cases (leb n (2 ^ 31))) [
  | inl e ↦ rw e (negated-IsInt32 n e)
  | inr e ↦ rw e tt
]

pub parse_int32-IsInRange : (s : Text) → IsInRange (parse_int32 s)
unfolding parse_int32
parse_int32-IsInRange [] = tt
parse_int32-IsInRange (c ∷ s) = elim (Bool-cases (c == b'-')) [
  | inl e ↦ rw e (negative32-IsInRange (parse_unsigned s))
  | inr e ↦ rw e (elim (Bool-cases (c == b'+')) [
    | inl f ↦ rw f (positive32-IsInRange (parse_unsigned s))
    | inr f ↦ rw f (positive32-IsInRange (parse_unsigned (c ∷ s)))
  ])
]
