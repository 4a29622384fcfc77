-- ===== src/Atomic/Steps/Filled.antt =====
-- A payload is written file by file.
use persistent_pod_state.Base.{
  Text, none, [], ◌∷◌, ◌++◌, Reply, success, failure, and_then, ◌≡◌, refl, sym, subst, ◌≢◌, ◌∙◌,
  text_eq, arith,
}
use persistent_pod_state.Base.GoMap.{Dict, NodupKeys, lookup, insert, insert-NodupKeys}
use persistent_pod_state.Atomic.{FileProjection, validate_payload, validate_path, clean}

-- The files that there are after the ones of a payload.
unfoldable pub filled : Dict FileProjection → Dict FileProjection → Dict FileProjection
filled [] files = files
filled ((path, file) ∷ payload) files = filled payload (insert path file files)

module _ {V : Type 0} where
  lookup-append_self : (k : Text) (v : V) (d e : Dict V) → lookup k (d ++ (k, v) ∷ e) ≢ none
  unfolding lookup
  lookup-append_self k v [] e h = ground arith
  lookup-append_self k v ((j, w) ∷ d) e h = ground (arith, lookup-append_self k v d e)

  insert-append :
      (k : Text) (v : V) (d e : Dict V)
      → NodupKeys (d ++ (k, v) ∷ e)
      → insert k v d ++ e ≡ d ++ (k, v) ∷ e
  unfolding insert lookup
  insert-append k v [] e h = refl
  insert-append k v ((j, w) ∷ d) e h = elim (text_eq.dec j k) [
    | yes same ↦
        absurd
          (lookup-append_self k v d e (subst (λ i. lookup i (d ++ (k, v) ∷ e) ≡ none) same h.0))
    | no other ↦ ground (arith, insert-append k v d e h.1)
  ]

  append_nil : (d : Dict V) → d ++ [] ≡ d
  append_nil [] = refl
  append_nil (x ∷ d) = rw (append_nil d)

filled-append :
    (payload files : Dict FileProjection)
    → NodupKeys (files ++ payload)
    → filled payload files ≡ files ++ payload
unfolding filled
filled-append [] files h = sym (append_nil files)
filled-append ((path, file) ∷ payload) files h =
    let e = insert-append path file files payload h in
    filled-append payload (insert path file files) (subst NodupKeys (sym e) h) ∙ e

pub filled-nil : (payload : Dict FileProjection) → NodupKeys payload → filled payload [] ≡ payload
filled-nil payload h = filled-append payload [] h

-- What `validate_payload` returns, if it returns one, lists each path once.
abbrev AreNodup : Reply Text (Dict FileProjection) → Type 0
AreNodup (success cleaned) = NodupKeys cleaned
AreNodup (failure e) = Unit

and_then-AreNodup :
    (checked : Reply Text (Unit {0})) (path : Text) (file : FileProjection)
    (rest : Reply Text (Dict FileProjection))
    → AreNodup rest
    → AreNodup (and_then checked λ _. and_then rest λ cleaned. success (insert path file cleaned))
and_then-AreNodup (success u) path file (success cleaned) h = insert-NodupKeys path file cleaned h
and_then-AreNodup (success u) path file (failure e) h = tt
and_then-AreNodup (failure e) path file rest h = tt

validate_payload-AreNodup : (payload : Dict FileProjection) → AreNodup (validate_payload payload)
unfolding validate_payload
validate_payload-AreNodup [] = tt
validate_payload-AreNodup ((path, file) ∷ payload) =
    and_then-AreNodup (validate_path path) (clean path) file (validate_payload payload)
      (validate_payload-AreNodup payload)

pub validate_payload-NodupKeys :
    (payload cleaned : Dict FileProjection)
    → validate_payload payload ≡ success cleaned
    → NodupKeys cleaned
validate_payload-NodupKeys payload cleaned h = subst AreNodup h (validate_payload-AreNodup payload)
