-- ===== src/Base/GoMap.antt =====
-- Go maps keyed by strings: an association list, or nil. The order of the list is the order in
-- which one `range` loop meets the entries.
pub mod Swapped
use persistent_pod_state.Base.Tests.{Text, ◌==◌, text_eq, nat_eq, if◌then◌else◌}
use persistent_pod_state.Base.Lists.{length, All}
use Prim.Native.Nat.{◌≤◌}
use mathlib.Core.Path.{◌≡◌, refl}
use mathlib.Core.Bool.{Bool, true, false, ◌&&◌}
use mathlib.Core.Option.{Option, none, some}
use mathlib.Core.List.{List, [], ◌∷◌}
use native.Mathlib.Omega.{arith}
use mathlib.Core.Logic.{◌≢◌}

abbrev pub Dict : Type 0 → Type 0
Dict V = List (Text × V)

-- `map[string]V`: nil, or a table
abbrev pub GoMap : Type 0 → Type 0
GoMap V = Option (Dict V)

module _ {V : Type 0} where
  unfoldable pub lookup : Text → Dict V → Option V
  lookup k [] = none
  lookup k ((j, v) ∷ d) = if j == k then some v else lookup k d

  -- `m[k] = v`
  unfoldable pub insert : Text → V → Dict V → Dict V
  insert k v [] = (k, v) ∷ []
  insert k v ((j, w) ∷ d) = if j == k then (k, v) ∷ d else (j, w) ∷ insert k v d

  -- `delete(m, k)`
  unfoldable pub erase : Text → Dict V → Dict V
  erase k [] = []
  erase k ((j, w) ∷ d) = let rest = erase k d in if j == k then rest else (j, w) ∷ rest

  -- No key is listed twice.
  abbrev pub NodupKeys : Dict V → Type 0
  NodupKeys [] = Unit
  NodupKeys ((k, v) ∷ d) = (lookup k d ≡ none) × NodupKeys d

  -- The entries, those of nil too.
  abbrev pub entries : GoMap V → Dict V
  entries none = []
  entries (some d) = d

  -- `v, ok := m[k]`, which also reads nil
  abbrev pub get : GoMap V → Text → Option V
  get m k = lookup k (entries m)

  -- `m[k]`, which is the zero value where the key is missing
  abbrev pub get_or : GoMap V → Text → V → V
  get_or m k zero_value = elim (get m k) [ some v ↦ v | none ↦ zero_value ]

  pub lookup-nil : (k : Text) → lookup k [] ≡ none
  unfolding lookup
  lookup-nil k = refl

  pub lookup-insert :
      (k j : Text) (v : V) (d : Dict V)
      → lookup j (insert k v d) ≡ (if k == j then some v else lookup j d)
  unfolding lookup insert
  lookup-insert k j v [] = refl
  lookup-insert k j v ((i, w) ∷ d) = ground (arith, lookup-insert k j v d)

  pub lookup-insert_self : (k : Text) (v : V) (d : Dict V) → lookup k (insert k v d) ≡ some v
  lookup-insert_self k v d = rw lookup-insert (ground arith)

  pub lookup-insert_ne :
      (k j : Text) (v : V) (d : Dict V) → k ≢ j → lookup j (insert k v d) ≡ lookup j d
  lookup-insert_ne k j v d h = rw lookup-insert (ground arith)

  pub insert_idem : (k : Text) (v : V) (d : Dict V) → insert k v (insert k v d) ≡ insert k v d
  unfolding insert
  insert_idem k v [] = ground arith
  insert_idem k v ((j, w) ∷ d) = ground (arith, insert_idem k v d)

  pub lookup-erase :
      (k j : Text) (d : Dict V) → lookup j (erase k d) ≡ (if k == j then none else lookup j d)
  unfolding lookup erase
  lookup-erase k j [] = ground arith
  lookup-erase k j ((i, w) ∷ d) = ground (arith, lookup-erase k j d)

  pub erase_missing : (k : Text) (d : Dict V) → lookup k d ≡ none → erase k d ≡ d
  unfolding lookup erase
  erase_missing k [] h = refl
  erase_missing k ((j, w) ∷ d) h = ground (arith, erase_missing k d)

  pub insert-NodupKeys : (k : Text) (v : V) (d : Dict V) → NodupKeys d → NodupKeys (insert k v d)
  unfolding insert lookup
  insert-NodupKeys k v [] h = (refl, tt)
  insert-NodupKeys k v ((j, w) ∷ d) h =
      ground (arith, insert-NodupKeys k v d h.1, lookup-insert k j v d)

  pub length-le-insert : (k : Text) (v : V) (d : Dict V) → length d ≤ length (insert k v d)
  unfolding insert
  length-le-insert k v [] = omega arith
  length-le-insert k v ((j, w) ∷ d) = ground (arith, length-le-insert k v d)

-- `reflect.DeepEqual` on maps, by that of the values: both nil or neither, as many entries, and
-- each entry of the first has an equal one in the second.
module _ {V : Type 0} (equal : V → V → Bool) where
  unfoldable pub has_entry : Dict V → Text × V → Bool
  has_entry d (k, v) = elim (lookup k d) [ some w ↦ equal v w | none ↦ false ]

  unfoldable pub entries_within : Dict V → Dict V → Bool
  unfolding has_entry
  entries_within [] b = true
  entries_within (e ∷ a) b = has_entry b e && entries_within a b

  unfoldable pub map_equal : GoMap V → GoMap V → Bool
  unfolding entries_within
  map_equal none none = true
  map_equal none (some b) = false
  map_equal (some a) none = false
  map_equal (some a) (some b) = length a == length b && entries_within a b

  entries_within-cons :
      (a b : Dict V) (k : Text) (v : V)
      → lookup k a ≡ none
      → entries_within a b ≡ true
      → entries_within a ((k, v) ∷ b) ≡ true
  unfolding entries_within lookup
  entries_within-cons [] b k v fresh h = refl
  entries_within-cons ((j, w) ∷ a) b k v fresh h = ground (arith, entries_within-cons a b k v)

  -- The values equal themselves.
  abbrev pub SelfEqual : Dict V → Type 0
  SelfEqual = All (λ e. equal e.1 e.1 ≡ true)

  entries_within_refl : (d : Dict V) → NodupKeys d → SelfEqual d → entries_within d d ≡ true
  unfolding entries_within lookup
  entries_within_refl [] h e = refl
  entries_within_refl ((k, v) ∷ d) h e =
      ground (arith, entries_within-cons d d k v h.0, entries_within_refl d h.1 e.1)

  pub map_equal_refl :
      (m : GoMap V) → NodupKeys (entries m) → SelfEqual (entries m) → map_equal m m ≡ true
  unfolding map_equal
  map_equal_refl none h e = refl
  map_equal_refl (some d) h e = ground (arith, entries_within_refl d h e)

  has_entry_sound :
      (d : Dict V) (k : Text) (v : V)
      → has_entry d (k, v) ≡ true
      → (w : V) × (lookup k d ≡ some w) × (equal v w ≡ true)
  unfolding has_entry
  has_entry_sound d k v h = ground arith

  lookup-entries_within :
      (a b : Dict V) (k : Text) (v : V)
      → entries_within a b ≡ true
      → lookup k a ≡ some v
      → has_entry b (k, v) ≡ true
  unfolding entries_within lookup
  lookup-entries_within [] b k v h e = ground arith
  lookup-entries_within ((j, w) ∷ a) b k v h e = ground (arith, lookup-entries_within a b k v)

  -- Equal maps agree at every key, up to the equality of the values.
  pub get-map_equal :
      (a b : GoMap V) (k : Text) (v : V)
      → map_equal a b ≡ true
      → get a k ≡ some v
      → (w : V) × (get b k ≡ some w) × (equal v w ≡ true)
  unfolding map_equal
  get-map_equal none b k v h e = absurd (unfold lookup in ground arith)
  get-map_equal (some a) none k v h e = ground arith
  get-map_equal (some a) (some b) k v h e =
      has_entry_sound b k v (lookup-entries_within a b k v (ground arith) e)
