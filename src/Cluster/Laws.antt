-- ===== src/Cluster/Laws.antt =====
-- What is documented of the API server and of `RetryOnConflict`, in a cluster that answers each
-- call and in which nobody else writes meanwhile.
use persistent_pod_state.Base.{Text, List, [], ◌∷◌, none, some, ◌≡◌, ◌⊎◌}
use persistent_pod_state.Base.{Reply, success, failure}
use persistent_pod_state.Base.Lists.{All}
use persistent_pod_state.Base.GoMap.{GoMap, entries}
use persistent_pod_state.Api.{
  NamespacedName, ObjectMeta, IpReservation, PodState, PersistentPodStateStatus,
  PersistentPodStateSpec, PersistentPodState, zero_status,
}
use persistent_pod_state.Cluster.Defs.{Client, ApiError, not_found}

-- The key under which an object is stored.
abbrev pub key_of : ObjectMeta → NamespacedName
key_of m = record { namespace = m.namespace; name = m.name }

-- A map that is present has an entry: the fields are `omitempty`, so an empty map is read back as
-- nil.
abbrev pub IsNotEmpty : {V : Type 0} → GoMap V → Type 0
IsNotEmpty none = Unit
IsNotEmpty (some []) = ⊥
IsNotEmpty (some (e ∷ d)) = Unit

abbrev pub IsPlainState : Text × PodState → Type 0
IsPlainState (k, p) = IsNotEmpty p.node_topology_labels × IsNotEmpty p.annotations

-- The status is read back as it was written.
abbrev pub IsPlain : PersistentPodStateStatus → Type 0
IsPlain st = IsNotEmpty st.pod_states × All IsPlainState (entries st.pod_states)

-- An object is read, or it is not there.
abbrev pub Answered : {E A : Type 0} → E → Reply E A → Type 0
Answered {A} e r = (r ≡ failure e) ⊎ ((a : A) × (r ≡ success a))

pub record IsQuiet (C : Client) : Type 0 where
  -- Reads of reservations.
  pub get_reservation_answered :
      (s : C.State) (n : Text) → Answered not_found (C.get_reservation s n)
  pub get_reservation_name :
      (s : C.State) (n : Text) (x : IpReservation) → C.get_reservation s n ≡ success x → x.name ≡ n
  -- Writes of reservations.
  pub create_reservation_done :
      (s : C.State) (r : IpReservation)
      → C.get_reservation s r.name ≡ failure not_found
      → (C.create_reservation r s).0 ≡ success tt
  pub get-create_reservation :
      (s : C.State) (r : IpReservation)
      → C.get_reservation s r.name ≡ failure not_found
      → (x : IpReservation) × (C.get_reservation (C.create_reservation r s).1 r.name ≡ success x)
        × (x.reserved_cidrs ≡ r.reserved_cidrs)
  pub update_reservation_done :
      (s : C.State) (x : IpReservation) (cidrs : List Text)
      → C.get_reservation s x.name ≡ success x
      → (C.update_reservation (record x { reserved_cidrs = cidrs }) s).0 ≡ success tt
  pub get-update_reservation :
      (s : C.State) (x : IpReservation) (cidrs : List Text)
      → C.get_reservation s x.name ≡ success x
      → (y : IpReservation) × (C.get_reservation
            (C.update_reservation (record x { reserved_cidrs = cidrs }) s).1
            x.name
          ≡ success y)
        × (y.reserved_cidrs ≡ cidrs)
  -- A write of a reservation leaves the PersistentPodStates alone, and the other way round.
  pub get_state-create_reservation :
      (s : C.State) (r : IpReservation) (k : NamespacedName)
      → C.get_state (C.create_reservation r s).1 k ≡ C.get_state s k
  pub get_state-update_reservation :
      (s : C.State) (r : IpReservation) (k : NamespacedName)
      → C.get_state (C.update_reservation r s).1 k ≡ C.get_state s k
  pub get_reservation-create_state :
      (s : C.State) (p : PersistentPodState) (n : Text)
      → C.get_reservation (C.create_state p s).1 n ≡ C.get_reservation s n
  pub get_reservation-update_status :
      (s : C.State) (p : PersistentPodState) (n : Text)
      → C.get_reservation (C.update_status p s).1 n ≡ C.get_reservation s n
  -- PersistentPodStates. The status is a subresource: a create ignores it, and an update of it
  -- ignores all else.
  pub get_state_answered : (s : C.State) (k : NamespacedName) → Answered not_found (C.get_state s k)
  pub get_state_key :
      (s : C.State) (k : NamespacedName) (p : PersistentPodState)
      → C.get_state s k ≡ success p
      → key_of p.meta ≡ k
  pub create_state_done :
      (s : C.State) (p : PersistentPodState)
      → C.get_state s (key_of p.meta) ≡ failure not_found
      → (C.create_state p s).0 ≡ success tt
  pub get-create_state :
      (s : C.State) (p : PersistentPodState)
      → C.get_state s (key_of p.meta) ≡ failure not_found
      → (q : PersistentPodState) × (C.get_state (C.create_state p s).1 (key_of p.meta) ≡ success q)
        × (q.spec ≡ p.spec)
        × (q.status ≡ zero_status)
  pub update_status_done :
      (s : C.State) (q : PersistentPodState) (sp : PersistentPodStateSpec)
      (st : PersistentPodStateStatus)
      → C.get_state s (key_of q.meta) ≡ success q
      → (C.update_status (record q { spec = sp; status = st }) s).0 ≡ success tt
  pub get-update_status :
      (s : C.State) (q : PersistentPodState) (sp : PersistentPodStateSpec)
      (st : PersistentPodStateStatus)
      → C.get_state s (key_of q.meta) ≡ success q
      → IsPlain st
      → (p : PersistentPodState) × (C.get_state
            (C.update_status (record q { spec = sp; status = st }) s).1
            (key_of q.meta)
          ≡ success p)
        × (p.spec ≡ q.spec)
        × (p.status ≡ st)
  -- The function is called again only after a conflict.
  pub retry_success :
      (f : C.State → Reply ApiError (Unit {0}) × C.State) (s : C.State)
      → (f s).0 ≡ success tt
      → C.retry_on_conflict f s ≡ f s

-- Documented of each write: it leaves the pods alone.
pub record KeepsPods (C : Client) : Type 0 where
  pub list_pods-create_reservation :
      (s : C.State) (r : IpReservation) (ns : Text) (labels : GoMap Text)
      → C.list_pods (C.create_reservation r s).1 ns labels ≡ C.list_pods s ns labels
  pub list_pods-update_reservation :
      (s : C.State) (r : IpReservation) (ns : Text) (labels : GoMap Text)
      → C.list_pods (C.update_reservation r s).1 ns labels ≡ C.list_pods s ns labels
  pub list_pods-create_state :
      (s : C.State) (p : PersistentPodState) (ns : Text) (labels : GoMap Text)
      → C.list_pods (C.create_state p s).1 ns labels ≡ C.list_pods s ns labels
  pub list_pods-update_status :
      (s : C.State) (p : PersistentPodState) (ns : Text) (labels : GoMap Text)
      → C.list_pods (C.update_status p s).1 ns labels ≡ C.list_pods s ns labels
