-- ===== src/Webhook/SetName/Laws.antt =====
-- Which StatefulSet a pod is counted to.
use persistent_pod_state.Base.{
  ℕ, zero, suc, Text, ◌≢◌, ◌≡◌, true, none, some, [], ◌∷◌, ◌++◌, arith, inl, inr, ap, refl, ◌∙◌,
  Option-cases, Bool-cases, subst, sym, ◌≤◌,
}
use persistent_pod_state.Base.Lists.{length, drop, take-append_length, drop-append_cons, All}
use persistent_pod_state.Base.Strings.{
  Free, last_index, last_index-append, last_index_sound, IsLastCut,
}
use persistent_pod_state.Api.{Pod}
use persistent_pod_state.Webhook.SetName.{
  owner_set_name, is_numeric, name_before, name_before_ordinal, get_stateful_set_name,
}

-- A digit from 0 to 9.
abbrev pub IsDigit : ℕ → Type 0
IsDigit c = (48 ≤ c) × (c ≤ 57)

-- Digits have no dash among them.
numeric-Free : (s : Text) → is_numeric s ≡ true → Free b'-' s
unfolding is_numeric
numeric-Free [] h = tt
numeric-Free (c ∷ s) h = ground (arith, numeric-Free s)

numeric-All : (s : Text) → is_numeric s ≡ true → All IsDigit s
unfolding is_numeric
numeric-All [] h = tt
numeric-All (c ∷ s) h = ((ground arith, ground arith), numeric-All s (ground arith))

All-numeric : (s : Text) → All IsDigit s → is_numeric s ≡ true
unfolding is_numeric
All-numeric [] h = refl
All-numeric (c ∷ s) ((low, high), h) = ground (arith, All-numeric s h)

name_before-length :
    (c : ℕ) (name digits : Text)
    → is_numeric digits ≡ true
    → name_before (c ∷ name ++ b'-' ∷ digits) (some (suc (length name))) ≡ c ∷ name
unfolding name_before
name_before-length c name digits h =
    rw (drop-append_cons name b'-' digits)
      (rw h (ap (λ r. c ∷ r) (take-append_length name (b'-' ∷ digits))))

name_before_ordinal-append :
    (c : ℕ) (name digits : Text)
    → is_numeric digits ≡ true
    → name_before_ordinal (c ∷ name ++ b'-' ∷ digits) ≡ c ∷ name
unfolding name_before_ordinal
name_before_ordinal-append c name digits h =
    ap (name_before (c ∷ name ++ b'-' ∷ digits))
      (last_index-append b'-' (c ∷ name) digits (numeric-Free digits h))
    ∙ name_before-length c name digits h

-- What was cut off is a dash and what consists of digits, if of anything.
abbrev pub IsCutFrom : Text → Text → Type 0
IsCutFrom name r = (suffix : Text) × (name ≡ r ++ b'-' ∷ suffix) × All IsDigit suffix

name_before_sound :
    (name : Text) (i : ℕ)
    → IsLastCut b'-' name i
    → name_before name (some i) ≢ []
    → IsCutFrom name (name_before name (some i))
unfolding name_before
name_before_sound name zero cut h = absurd (h refl)
name_before_sound name (suc i) cut h = elim (Bool-cases (is_numeric (drop (suc (suc i)) name))) [
  | inl e ↦ (drop (suc (suc i)) name, rw e cut.0, numeric-All _ e)
  | inr e ↦ absurd (h (rw e refl))
]

name_before_ordinal_sound :
    (name : Text) → name_before_ordinal name ≢ [] → IsCutFrom name (name_before_ordinal name)
unfolding name_before_ordinal
name_before_ordinal_sound name h = elim (Option-cases (last_index b'-' name)) [
  | inl e ↦ absurd (h (rw e refl))
  | inr (i, e) ↦
      let eq : name_before_ordinal name ≡ name_before name (some i) = ap (name_before name) e in
      let cut = last_index_sound b'-' name e in
      subst (IsCutFrom name) (sym eq) (name_before_sound name i cut (λ z. h (eq ∙ z)))
]

module _ (pod : Pod) where
  get_stateful_set_name_lem :
      owner_set_name pod.meta.owner_references ≡ none
      → get_stateful_set_name pod ≡ name_before_ordinal pod.meta.name
  unfolding get_stateful_set_name
  get_stateful_set_name_lem h = rw (h, get_stateful_set_name)

  -- A pod with no StatefulSet among its owners belongs to a StatefulSet if it is named by that
  -- one's name, which is not empty, a dash and digits from 0 to 9, be it none.
  pub get_stateful_set_name-ordinal :
      (sts digits : Text)
      → owner_set_name pod.meta.owner_references ≡ none
      → sts ≢ []
      → All IsDigit digits
      → pod.meta.name ≡ sts ++ b'-' ∷ digits
      → get_stateful_set_name pod ≡ sts
  get_stateful_set_name-ordinal [] digits no_owner nonempty numeric e = absurd (nonempty refl)
  get_stateful_set_name-ordinal (c ∷ sts) digits no_owner nonempty numeric e =
      get_stateful_set_name_lem no_owner
      ∙ ap name_before_ordinal e
      ∙ name_before_ordinal-append c sts digits (All-numeric digits numeric)

  -- A pod with no StatefulSet among its owners that is counted to a StatefulSet is named by that
  -- one's name, a dash and a suffix in which there is nothing but digits from 0 to 9. The suffix
  -- may be empty.
  pub get_stateful_set_name_sound :
      owner_set_name pod.meta.owner_references ≡ none
      → get_stateful_set_name pod ≢ []
      → IsCutFrom pod.meta.name (get_stateful_set_name pod)
  get_stateful_set_name_sound no_owner h =
      let e = get_stateful_set_name_lem no_owner in
      subst (IsCutFrom pod.meta.name) (sym e)
        (name_before_ordinal_sound pod.meta.name (λ z. h (e ∙ z)))
