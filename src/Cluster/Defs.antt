-- ===== src/Cluster/Defs.antt =====
-- The calls of `client.Client` that the program makes.
use persistent_pod_state.Base.{Text, Bool, true, false, List, Reply}
use persistent_pod_state.Base.GoMap.{GoMap}
use persistent_pod_state.Api.{
  NamespacedName, VirtualMachineInstance, StatefulSet, Pod, IpReservation, PersistentPodState,
}

-- The errors that the program tells apart by `errors.IsNotFound` and `errors.IsAlreadyExists`, and
-- the one on which `RetryOnConflict` tries again.
pub data ApiError : Type 0 where
  not_found already_exists conflict : ApiError
  other : Text → ApiError

abbrev pub is_not_found : ApiError → Bool
is_not_found not_found = true
is_not_found _ = false

abbrev pub is_already_exists : ApiError → Bool
is_already_exists already_exists = true
is_already_exists _ = false

-- A write returns its reply and the cluster after it.
abbrev pub Write : Type 0 → Type 0
Write S = S → Reply ApiError (Unit {0}) × S

pub record Client : Type 1 where
  pub State : Type 0
  pub get_vmi : State → NamespacedName → Reply ApiError VirtualMachineInstance
  pub get_stateful_set : State → NamespacedName → Reply ApiError StatefulSet
  pub list_pods : State → Text → GoMap Text → Reply ApiError (List Pod)
  pub get_reservation : State → Text → Reply ApiError IpReservation
  pub create_reservation : IpReservation → Write State
  pub update_reservation : IpReservation → Write State
  pub get_state : State → NamespacedName → Reply ApiError PersistentPodState
  pub create_state : PersistentPodState → Write State
  pub update_status : PersistentPodState → Write State
  pub retry_on_conflict : Write State → Write State
