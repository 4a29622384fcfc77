-- ===== src/Controller/Reservations.antt =====
-- The Calico IPReservation of an address: `createOrUpdateIPReservation`
-- (internal/controller/apps/persistentpodstate_statefulset.go), and the same steps where
-- `VmiAutoGeneratePersistentPodState` takes them itself.
pub mod Laws
pub mod Names
use persistent_pod_state.Base.{
  Text, codes, ◌==◌, texts_eq, if◌then◌else◌, List, [], ◌∷◌, ◌++◌, Reply, success, failure, Result,
  ok, err, pass_on,
}
use persistent_pod_state.Base.Strings.{is_empty}
use persistent_pod_state.Api.{VirtualMachineInstance, Pod, IpReservation}
use persistent_pod_state.Cluster.{Client, ApiError, is_not_found}

-- `fmt.Sprintf("%s/32", ip)`
unfoldable pub host_cidr : Text → Text
host_cidr ip = ip ++ codes "/32"

-- `fmt.Sprintf("vmi-%s-%s", ns, name)` and `fmt.Sprintf("pod-%s-%s", ns, name)`
unfoldable pub reservation_name : Text → Text → Text → Text
reservation_name prefix namespace name = prefix ++ (codes "-" ++ (namespace ++ (codes "-" ++ name)))

unfoldable pub vmi_reservation : VirtualMachineInstance → Text → IpReservation
vmi_reservation vmi ip = record {
  name = reservation_name (codes "vmi") vmi.meta.namespace vmi.meta.name;
  resource_version = [];
  reserved_cidrs = host_cidr ip ∷ [];
}

unfoldable pub pod_reservation : Pod → IpReservation
pod_reservation pod = record {
  name = reservation_name (codes "pod") pod.meta.namespace pod.meta.name;
  resource_version = [];
  reserved_cidrs = host_cidr pod.pod_ip ∷ [];
}

-- What a function of the controller returns, and the cluster after it.
abbrev pub Outcome : Type 0 → Type 0
Outcome S = Result ApiError (Unit {0}) × S

-- `return err` behind a write
abbrev pub finish : {S : Type 0} → Reply ApiError (Unit {0}) × S → Outcome S
finish (r, s) = (pass_on r, s)

module _ (C : Client) where
  -- Create the reservation where there is none; update it where its addresses differ.
  unfoldable pub ensure_reservation : IpReservation → C.State → Outcome C.State
  ensure_reservation want s = elim (C.get_reservation s want.name) [
    | failure e ↦ if is_not_found e then finish (C.create_reservation want s) else (err e, s)
    | success found ↦
        if found.reserved_cidrs == want.reserved_cidrs
        then (ok tt, s)
        else finish (C.update_reservation (record found { reserved_cidrs = want.reserved_cidrs }) s)
  ]

  unfoldable pub create_or_update_reservation : Pod → C.State → Outcome C.State
  create_or_update_reservation pod s =
      if is_empty pod.pod_ip then (ok tt, s) else ensure_reservation (pod_reservation pod) s
