-- ===== src/Base/Strings.antt =====
-- What the program uses of Go's package `strings`, on byte sequences, and its laws.
use persistent_pod_state.Base.Tests.{Text, ◌==◌, nat_eq, if◌then◌else◌, Option-cases, Bool-cases}
use persistent_pod_state.Base.Lists.{length, take, drop, All}
use Prim.Native.Nat.{ℕ, suc}
use mathlib.Core.Path.{◌≡◌, refl, ap, subst}
use mathlib.Core.Logic.{◌≢◌, inl, inr}
use mathlib.Core.Bool.{Bool, true, false, ◌&&◌, ◌||◌}
use mathlib.Core.Option
use mathlib.Core.Option.{Option, none, some}
use mathlib.Core.List.{List, [], ◌∷◌, ◌++◌, append_assoc}
use native.Mathlib.Omega.{arith}

-- `len(s) == 0`, `s == ""`
abbrev pub is_empty : Text → Bool
is_empty [] = true
is_empty (c ∷ s) = false

-- `strings.HasPrefix(s, p)`
unfoldable pub has_prefix : Text → Text → Bool
has_prefix s [] = true
has_prefix [] (c ∷ p) = false
has_prefix (x ∷ s) (c ∷ p) = x == c && has_prefix s p

-- `strings.Contains(s, p)`
unfoldable pub contains : Text → Text → Bool
unfolding has_prefix
contains [] p = has_prefix [] p
contains (x ∷ s) p = has_prefix (x ∷ s) p || contains s p

cons_head : ℕ → List Text → List Text
cons_head c [] = (c ∷ []) ∷ []
cons_head c (w ∷ ws) = (c ∷ w) ∷ ws

-- `strings.Split(s, c)` at a separator of one byte
unfoldable pub split : ℕ → Text → List Text
unfolding cons_head
split c [] = [] ∷ []
split c (x ∷ s) = let rest = split c s in if x == c then [] ∷ rest else cons_head x rest

-- `strings.Index(s, c)` at one byte; `none` for -1
unfoldable pub index : ℕ → Text → Option ℕ
index c [] = none
index c (x ∷ s) = let rest = Option.map suc (index c s) in if x == c then some 0 else rest

-- `strings.LastIndex(s, c)` at one byte
unfoldable pub last_index : ℕ → Text → Option ℕ
last_index c [] = none
last_index c (x ∷ s) = elim (last_index c s) [
  | some i ↦ some (suc i)
  | none ↦ if x == c then some 0 else none
]

-- The byte does not occur.
abbrev pub Free : ℕ → Text → Type 0
Free c = All (λ x. x ≢ c)

pub has_prefix-append : (p s : Text) → has_prefix (p ++ s) p ≡ true
unfolding has_prefix
has_prefix-append [] s = refl
has_prefix-append (c ∷ p) s = ground (arith, has_prefix-append p s)

pub last_index-Free : (c : ℕ) (s : Text) → Free c s → last_index c s ≡ none
unfolding last_index
last_index-Free c [] h = refl
last_index-Free c (x ∷ s) h = ground (arith, last_index-Free c s h.1)

pub last_index-append :
    (c : ℕ) (a b : Text) → Free c b → last_index c (a ++ c ∷ b) ≡ some (length a)
unfolding last_index
last_index-append c [] b h = ground (arith, last_index-Free c b h)
last_index-append c (x ∷ a) b h = ground (arith, last_index-append c a b h)

-- What `LastIndex` finds is the separator, with no other one behind it.
abbrev pub IsLastCut : ℕ → Text → ℕ → Type 0
IsLastCut c s i = (s ≡ take i s ++ c ∷ drop (suc i) s) × Free c (drop (suc i) s)

pub Free-of_none : (c : ℕ) (s : Text) → last_index c s ≡ none → Free c s
unfolding last_index
Free-of_none c [] h = tt
Free-of_none c (x ∷ s) h = ground (arith, Free-of_none c s)

pub last_index_sound : (c : ℕ) (s : Text) {i : ℕ} → last_index c s ≡ some i → IsLastCut c s i
unfolding last_index
last_index_sound c [] h = ground arith
last_index_sound c (x ∷ s) {i} h = elim (Option-cases (last_index c s)) [
  | inl e ↦
      let p : (x ≡ c) × (0 ≡ i) = ground arith in
      subst (IsLastCut c (x ∷ s)) p.1 (ap (λ y. y ∷ s) p.0, Free-of_none c s e)
  | inr (j, e) ↦
      let ih = last_index_sound c s e in
      let p : suc j ≡ i = ground arith in subst (IsLastCut c (x ∷ s)) p (ap (λ r. x ∷ r) ih.0, ih.1)
]

pub split-Free : (c : ℕ) (s : Text) → Free c s → split c s ≡ s ∷ []
unfolding split
split-Free c [] h = refl
split-Free c (x ∷ s) h = ground (arith, split-Free c s h.1)

pub split-append : (c : ℕ) (a b : Text) → Free c a → split c (a ++ c ∷ b) ≡ a ∷ split c b
unfolding split
split-append c [] b h = ground arith
split-append c (x ∷ a) b h = ground (arith, split-append c a b h.1)

pub append_regroup : (a b c : Text) (m : ℕ) → a ++ (m ∷ (b ++ (m ∷ c))) ≡ (a ++ (m ∷ b)) ++ (m ∷ c)
append_regroup a b c m = simp append_assoc

has_prefix-Free : (c : ℕ) (s p : Text) → has_prefix s p ≡ true → Free c s → Free c p
unfolding has_prefix
has_prefix-Free c s [] h f = tt
has_prefix-Free c [] (y ∷ p) h f = cc
has_prefix-Free c (x ∷ s) (y ∷ p) h f = ground (arith, has_prefix-Free c s p)

contains-Free : (c : ℕ) (s p : Text) → contains s p ≡ true → Free c s → Free c p
unfolding contains
contains-Free c [] p h f = has_prefix-Free c [] p h f
contains-Free c (x ∷ s) p h f = elim (Bool-cases (has_prefix (x ∷ s) p)) [
  | inl e ↦ has_prefix-Free c (x ∷ s) p e f
  | inr e ↦ contains-Free c s p (ground arith) f.1
]

-- A text without the byte contains no text with it.
pub contains_not-Free : (c : ℕ) (s p : Text) → Free c s → ¬ Free c p → contains s p ≡ false
contains_not-Free c s p f n = elim (Bool-cases (contains s p)) [
  | inl e ↦ absurd (n (contains-Free c s p e f))
  | inr e ↦ e
]

pub eq_nil_of_is_empty : (s : Text) → is_empty s ≡ true → s ≡ []
eq_nil_of_is_empty [] h = refl
eq_nil_of_is_empty (c ∷ s) h = cc
