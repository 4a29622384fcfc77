-- ===== src/Webhook/SetName.antt =====
-- `getStatefulSetNameFromPod` (internal/webhook/pod/mutating/mutating_handler.go).
pub mod Laws
use persistent_pod_state.Base.{
  ℕ, zero, suc, Text, codes, leb, ◌==◌, text_eq, if◌then◌else◌, Bool, true, ◌&&◌, Option, none,
  some, List, [], ◌∷◌,
}
use persistent_pod_state.Base.Lists.{take, drop}
use persistent_pod_state.Base.Strings.{last_index}
use persistent_pod_state.Api.{OwnerReference, Pod}

-- The loop over the owners: the name of the first one that is a StatefulSet.
unfoldable pub owner_set_name : List OwnerReference → Option Text
owner_set_name [] = none
owner_set_name (owner ∷ owners) =
    let rest = owner_set_name owners in
    if owner.kind == codes "StatefulSet" then some owner.name else rest

-- The loop over the suffix, which passes where there is nothing to loop over.
unfoldable pub is_numeric : Text → Bool
is_numeric [] = true
is_numeric (c ∷ s) = (leb b'0' c && leb c b'9') && is_numeric s

-- The part of the name before the dash at the index, if digits stand behind it.
unfoldable pub name_before : Text → Option ℕ → Text
name_before name none = []
name_before name (some zero) = []
name_before name (some (suc i)) =
    if is_numeric (drop (suc (suc i)) name) then take (suc i) name else []

-- The name that stands before the last dash.
unfoldable pub name_before_ordinal : Text → Text
unfolding name_before
name_before_ordinal name = name_before name (last_index b'-' name)

unfoldable pub get_stateful_set_name : Pod → Text
unfolding owner_set_name name_before_ordinal
get_stateful_set_name pod = elim (owner_set_name pod.meta.owner_references) [
  | some name ↦ name
  | none ↦ name_before_ordinal pod.meta.name
]
