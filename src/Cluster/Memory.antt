-- ===== src/Cluster/Memory.antt =====
-- An API server in memory, for the laws and the examples. It numbers no versions.
use persistent_pod_state.Base.{
  Text, ◌==◌, text_eq, Bool, ◌&&◌, if◌then◌else◌, List, Option, none, some, Option-cases, ◌≡◌, refl,
  ap, inl, inr, arith,
}
use persistent_pod_state.Base.{Reply, success, failure}
use mathlib.Core.Option
use persistent_pod_state.Api.{
  NamespacedName, VirtualMachineInstance, StatefulSet, Pod, IpReservation, PersistentPodState,
  PersistentPodStateSpec, PersistentPodStateStatus, zero_status,
}
use persistent_pod_state.Cluster.Defs.{ApiError, not_found, already_exists, Write, Client}
use persistent_pod_state.Cluster.Laws.{IsQuiet, KeepsPods, Answered, key_of}

pub record Store : Type 0 where
  pub vmis : NamespacedName → Option VirtualMachineInstance
  pub stateful_sets : NamespacedName → Option StatefulSet
  pub pods : Text → List Pod
  pub reservations : Text → Option IpReservation
  pub states : NamespacedName → Option PersistentPodState

abbrev answer : {A : Type 0} → Option A → Reply ApiError A
answer none = failure not_found
answer (some a) = success a

abbrev name_reservation : Text → IpReservation → IpReservation
name_reservation n x = record x { name = n }

abbrev reservation_at : Store → Text → Reply ApiError IpReservation
reservation_at s n = answer (Option.map (name_reservation n) (s.reservations n))

abbrev name_state : NamespacedName → PersistentPodState → PersistentPodState
name_state k p = record p { meta = record (p.meta) { namespace = k.namespace; name = k.name } }

abbrev state_at : Store → NamespacedName → Reply ApiError PersistentPodState
state_at s k = answer (Option.map (name_state k) (s.states k))

abbrev same_key : NamespacedName → NamespacedName → Bool
same_key a b = a.namespace == b.namespace && a.name == b.name

abbrev put_reservation : IpReservation → Store → Store
put_reservation r s = record s {
  reservations = λ n. if n == r.name then some r else s.reservations n;
}

abbrev put_state : PersistentPodState → Store → Store
put_state p s = record s { states = λ k. if same_key k (key_of p.meta) then some p else s.states k }

-- Each write goes by what is stored under the object's key.
abbrev create_reservation_over : Option IpReservation → IpReservation → Write Store
create_reservation_over (some x) r s = (failure already_exists, s)
create_reservation_over none r s = (success tt, put_reservation r s)

abbrev create_reservation : IpReservation → Write Store
create_reservation r s = create_reservation_over (s.reservations r.name) r s

abbrev update_reservation_over : Option IpReservation → IpReservation → Write Store
update_reservation_over (some x) r s = (success tt, put_reservation r s)
update_reservation_over none r s = (failure not_found, s)

abbrev update_reservation : IpReservation → Write Store
update_reservation r s = update_reservation_over (s.reservations r.name) r s

abbrev create_state_over : Option PersistentPodState → PersistentPodState → Write Store
create_state_over (some x) p s = (failure already_exists, s)
create_state_over none p s = (success tt, put_state (record p { status = zero_status }) s)

abbrev create_state : PersistentPodState → Write Store
create_state p s = create_state_over (s.states (key_of p.meta)) p s

abbrev update_status_over : Option PersistentPodState → PersistentPodState → Write Store
update_status_over (some x) p s =
    (success tt, put_state (record (name_state (key_of p.meta) x) { status = p.status }) s)
update_status_over none p s = (failure not_found, s)

abbrev update_status : PersistentPodState → Write Store
update_status p s = update_status_over (s.states (key_of p.meta)) p s

abbrev pub memory : Client
memory = record {
  State = Store;
  get_vmi = λ s k. answer (s.vmis k);
  get_stateful_set = λ s k. answer (s.stateful_sets k);
  list_pods = λ s ns labels. success (s.pods ns);
  get_reservation = reservation_at;
  create_reservation = create_reservation;
  update_reservation = update_reservation;
  get_state = state_at;
  create_state = create_state;
  update_status = update_status;
  retry_on_conflict = λ f. f;
}

abbrev pub empty : Store
empty = record {
  vmis = λ k. none;
  stateful_sets = λ k. none;
  pods = λ ns. List.[];
  reservations = λ n. none;
  states = λ k. none;
}

answered : {A : Type 0} (o : Option A) → Answered not_found (answer o)
answered none = inl refl
answered (some a) = inr (a, refl)

reservation_at_name :
    (s : Store) (n : Text) (x : IpReservation) → reservation_at s n ≡ success x → x.name ≡ n
reservation_at_name s n x h = ground arith

state_at_key :
    (s : Store) (k : NamespacedName) (p : PersistentPodState)
    → state_at s k ≡ success p
    → key_of p.meta ≡ k
state_at_key s k p h = ground arith

module _ (s : Store) where
  module _ (r : IpReservation) where
    create_reservation_lem :
        reservation_at s r.name ≡ failure not_found
        → create_reservation r s ≡ (success tt, put_reservation r s)
    create_reservation_lem h = elim (Option-cases (s.reservations r.name)) [
      | inl e ↦ rw e
      | inr (x, e) ↦ ground arith
    ]

    reservation_at-put : reservation_at (put_reservation r s) r.name ≡ success r
    reservation_at-put = ground arith

    update_reservation_lem :
        (x : IpReservation)
        → reservation_at s r.name ≡ success x
        → update_reservation r s ≡ (success tt, put_reservation r s)
    update_reservation_lem x h = elim (Option-cases (s.reservations r.name)) [
      | inl e ↦ ground arith
      | inr (x, e) ↦ rw e
    ]

  module _ (p : PersistentPodState) where
    create_state_lem :
        state_at s (key_of p.meta) ≡ failure not_found
        → create_state p s ≡ (success tt, put_state (record p { status = zero_status }) s)
    create_state_lem h = elim (Option-cases (s.states (key_of p.meta))) [
      | inl e ↦ rw e
      | inr (x, e) ↦ ground arith
    ]

    state_at-put : state_at (put_state p s) (key_of p.meta) ≡ success p
    state_at-put = ground arith

    update_status_lem :
        (sp : PersistentPodStateSpec) (st : PersistentPodStateStatus)
        → state_at s (key_of p.meta) ≡ success p
        → update_status (record p { spec = sp; status = st }) s
          ≡ (success tt, put_state (record p { status = st }) s)
    update_status_lem sp st h = elim (Option-cases (s.states (key_of p.meta))) [
      | inl e ↦ ground arith
      | inr (x, e) ↦
          let same : name_state (key_of p.meta) x ≡ p = ground arith in
          rw e (
            ap (λ (y : PersistentPodState). (success tt, put_state (record y { status = st }) s))
              same)
    ]

module _ (s : Store) where
  state_at-create_reservation :
      (o : Option IpReservation) (r : IpReservation) (k : NamespacedName)
      → state_at (create_reservation_over o r s).1 k ≡ state_at s k
  state_at-create_reservation none r k = refl
  state_at-create_reservation (some x) r k = refl

  state_at-update_reservation :
      (o : Option IpReservation) (r : IpReservation) (k : NamespacedName)
      → state_at (update_reservation_over o r s).1 k ≡ state_at s k
  state_at-update_reservation none r k = refl
  state_at-update_reservation (some x) r k = refl

  reservation_at-create_state :
      (o : Option PersistentPodState) (p : PersistentPodState) (n : Text)
      → reservation_at (create_state_over o p s).1 n ≡ reservation_at s n
  reservation_at-create_state none p n = refl
  reservation_at-create_state (some x) p n = refl

  reservation_at-update_status :
      (o : Option PersistentPodState) (p : PersistentPodState) (n : Text)
      → reservation_at (update_status_over o p s).1 n ≡ reservation_at s n
  reservation_at-update_status none p n = refl
  reservation_at-update_status (some x) p n = refl

module _ (s : Store) (ns : Text) where
  pods-create_reservation :
      (o : Option IpReservation) (r : IpReservation)
      → (create_reservation_over o r s).1.pods ns ≡ s.pods ns
  pods-create_reservation none r = refl
  pods-create_reservation (some x) r = refl

  pods-update_reservation :
      (o : Option IpReservation) (r : IpReservation)
      → (update_reservation_over o r s).1.pods ns ≡ s.pods ns
  pods-update_reservation none r = refl
  pods-update_reservation (some x) r = refl

  pods-create_state :
      (o : Option PersistentPodState) (p : PersistentPodState)
      → (create_state_over o p s).1.pods ns ≡ s.pods ns
  pods-create_state none p = refl
  pods-create_state (some x) p = refl

  pods-update_status :
      (o : Option PersistentPodState) (p : PersistentPodState)
      → (update_status_over o p s).1.pods ns ≡ s.pods ns
  pods-update_status none p = refl
  pods-update_status (some x) p = refl

pub memory-KeepsPods : KeepsPods memory
memory-KeepsPods = record {
  list_pods-create_reservation = λ s r ns l. ap success (pods-create_reservation s ns _ r);
  list_pods-update_reservation = λ s r ns l. ap success (pods-update_reservation s ns _ r);
  list_pods-create_state = λ s p ns l. ap success (pods-create_state s ns _ p);
  list_pods-update_status = λ s p ns l. ap success (pods-update_status s ns _ p);
}

pub memory-IsQuiet : IsQuiet memory
memory-IsQuiet = record {
  get_reservation_answered = λ s n. answered _;
  get_reservation_name = reservation_at_name;
  create_reservation_done = λ s r h. ap (λ t. t.0) (create_reservation_lem s r h);
  get-create_reservation =
      λ s r h. (r, rw (create_reservation_lem s r h) (reservation_at-put s r), refl);
  update_reservation_done = λ s x cidrs h.
      ap (λ t. t.0) (update_reservation_lem s (record x { reserved_cidrs = cidrs }) x h);
  get-update_reservation = λ s x cidrs h.
      let y : IpReservation = record x { reserved_cidrs = cidrs } in
      (y, rw (update_reservation_lem s y x h) (reservation_at-put s y), refl);
  get_state-create_reservation = λ s r k. state_at-create_reservation s _ r k;
  get_state-update_reservation = λ s r k. state_at-update_reservation s _ r k;
  get_reservation-create_state = λ s p n. reservation_at-create_state s _ p n;
  get_reservation-update_status = λ s p n. reservation_at-update_status s _ p n;
  get_state_answered = λ s k. answered _;
  get_state_key = state_at_key;
  create_state_done = λ s p h. ap (λ t. t.0) (create_state_lem s p h);
  get-create_state = λ s p h.
      let q : PersistentPodState = record p { status = zero_status } in
      (q, rw (create_state_lem s p h) (state_at-put s q), refl, refl);
  update_status_done = λ s q sp st h. ap (λ t. t.0) (update_status_lem s q sp st h);
  get-update_status = λ s q sp st h plain.
      let p : PersistentPodState = record q { status = st } in
      (p, rw (update_status_lem s q sp st h) (state_at-put s p), refl, refl);
  retry_success = λ f s h. refl;
}
