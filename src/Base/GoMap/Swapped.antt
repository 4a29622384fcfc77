-- ===== src/Base/GoMap/Swapped.antt =====
-- `reflect.DeepEqual` on maps, from the right: an entry of the second has an equal one in the first.
use persistent_pod_state.Base.Tests.{Text, ◌==◌, text_eq, Bool-cases}
use persistent_pod_state.Base.Lists.{length, All}
use persistent_pod_state.Base.GoMap.{
  Dict, GoMap, NodupKeys, entries, get, lookup, erase, lookup-erase, map_equal, entries_within,
  has_entry, get-map_equal,
}
use Prim.Native.Nat.{◌≤◌, ◌<◌}
use mathlib.Core.Path.{◌≡◌, refl}
use mathlib.Core.Logic.{◌≢◌, inl, inr}
use mathlib.Core.Bool.{Bool, true}
use mathlib.Core.Option.{none, some}
use mathlib.Core.List.{[], ◌∷◌}
use native.Mathlib.Omega.{arith}

module _ {V : Type 0} where
  -- The keys of the first are keys of the second.
  abbrev Within : Dict V → Dict V → Type 0
  Within a b = All (λ e. (v : V) × (lookup e.0 b ≡ some v)) a

  lookup-erase_other :
      (k j : Text) (v : V) (d : Dict V)
      → lookup j d ≡ some v
      → k ≢ j
      → lookup j (erase k d) ≡ some v
  lookup-erase_other k j v d h ne = ground (arith, lookup-erase k j d)

  lookup-ne : (k j : Text) (v w : V) (d : Dict V) → lookup k ((j, w) ∷ d) ≡ none → j ≢ k
  unfolding lookup
  lookup-ne k j v w d h = ground arith

  length-erase-le : (k : Text) (d : Dict V) → length (erase k d) ≤ length d
  unfolding erase
  length-erase-le k [] = omega arith
  length-erase-le k ((j, w) ∷ d) = ground (arith, length-erase-le k d)

  length-erase-lt :
      (k : Text) (v : V) (d : Dict V) → lookup k d ≡ some v → length (erase k d) < length d
  unfolding lookup erase
  length-erase-lt k v [] h = ground arith
  length-erase-lt k v ((j, w) ∷ d) h = ground (arith, length-erase-le k d, length-erase-lt k v d)

  Within-erase : (k : Text) (a b : Dict V) → lookup k a ≡ none → Within a b → Within a (erase k b)
  unfolding lookup
  Within-erase k [] b h w = tt
  Within-erase k ((j, u) ∷ a) b h w = (
    ((w.0).0, lookup-erase_other k j _ b (w.0).1 (ground arith)),
    Within-erase k a b (ground arith) w.1,
  )

  -- Where the second has no more keys, its keys are keys of the first.
  lookup-Within :
      (a b : Dict V) (k : Text) (w : V)
      → NodupKeys a
      → Within a b
      → length b ≤ length a
      → lookup k b ≡ some w
      → (v : V) × (lookup k a ≡ some v)
  unfolding lookup
  lookup-Within [] [] k w m h l e = ground arith
  lookup-Within [] (x ∷ b) k w m h l e = absurd (omega arith)
  lookup-Within ((j, u) ∷ a) b k w m h l e = elim (Bool-cases (j == k)) [
    | inl same ↦ (u, rw same refl)
    | inr other ↦
        let fewer = length-erase-lt j (h.0).0 b (h.0).1 in
        let (v, found) =
          lookup-Within a (erase j b) k w m.1 (Within-erase j a b m.0 h.1) (omega arith)
            (lookup-erase_other j k w b e (ground arith)) in
        (v, rw other found)
  ]

module _ {V : Type 0} (equal : V → V → Bool) where
  has_entry-lookup :
      (b : Dict V) (k : Text) (v : V)
      → has_entry equal b (k, v) ≡ true
      → (w : V) × (lookup k b ≡ some w)
  unfolding has_entry
  has_entry-lookup b k v h = ground arith

  Within-entries : (a b : Dict V) → entries_within equal a b ≡ true → Within a b
  unfolding entries_within
  Within-entries [] b h = tt
  Within-entries ((k, v) ∷ a) b h =
      (has_entry-lookup b k v (ground arith), Within-entries a b (ground arith))

  -- Equal maps, the first of which lists no key twice, agree at every key of the second.
  pub get-map_equal_swapped :
      (a b : GoMap V) (k : Text) (w : V)
      → map_equal equal a b ≡ true
      → NodupKeys (entries a)
      → get b k ≡ some w
      → (v : V) × (get a k ≡ some v) × (equal v w ≡ true)
  unfolding map_equal
  get-map_equal_swapped none none k w h m e = absurd (unfold lookup in ground arith)
  get-map_equal_swapped none (some b) k w h m e = ground arith
  get-map_equal_swapped (some a) none k w h m e = ground arith
  get-map_equal_swapped (some a) (some b) k w h m e =
      let (v, found) =
        lookup-Within a b k w m (Within-entries a b (ground arith)) (ground arith) e in
      let (w', there, same) = get-map_equal equal (some a) (some b) k v h found in
      (v, found, ground arith)
