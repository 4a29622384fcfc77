-- ===== src/Controller/Vmi.antt =====
-- `VmiAutoGeneratePersistentPodState`
-- (internal/controller/apps/persistentpodstate_controller.go).
pub mod Laws
use persistent_pod_state.Base.{
  Text, codes, if◌then◌else◌, Option, none, some, List, [], ◌∷◌, Result, ok, err, panic,
}
use persistent_pod_state.Base.Strings.{is_empty}
use persistent_pod_state.Base.Int.{pos}
use persistent_pod_state.Api.{
  OwnerReference, ObjectMeta, VirtualMachineInstance, PodState, TargetReference,
  PersistentPodStateSpec, PersistentPodStateStatus, PersistentPodState,
}
use persistent_pod_state.Cluster.{Client}
use persistent_pod_state.Controller.Reservations.{Outcome, vmi_reservation, ensure_reservation}
use persistent_pod_state.Controller.Save.{save_vmi}

abbrev pub hostname_label : Text
hostname_label = codes "kubernetes.io/hostname"

-- The state of a pod on a node, as both controllers record it.
unfoldable pub pod_state : Text → Text → PodState
pod_state node ip = record {
  node_name = node;
  node_topology_labels = some ((hostname_label, node) ∷ []);
  annotations = none;
  pod_ip = ip;
}

unfoldable pub vmi_status : VirtualMachineInstance → Text → PersistentPodStateStatus
unfolding pod_state
vmi_status vmi ip = record {
  observed_generation = pos 0;
  pod_states = some ((vmi.meta.name, pod_state vmi.node_name ip) ∷ []);
}

-- The object for a VMI with the address, given its first owner.
abbrev pub vmi_state : VirtualMachineInstance → Text → OwnerReference → PersistentPodState
vmi_state vmi ip owner = record {
  meta = record {
    namespace = vmi.meta.namespace;
    name = vmi.meta.name;
    uid = [];
    annotations = none;
    owner_references = owner ∷ [];
  };
  spec = record {
    target_reference = record {
      api_version = codes "kubevirt.io/v1";
      kind = codes "VirtualMachineInstance";
      name = vmi.meta.name;
    };
    persistent_pod_annotations = [];
    required_persistent_topology = none;
  };
  status = vmi_status vmi ip;
}

module _ (C : Client) (vmi : VirtualMachineInstance) where
  -- Once the address is reserved. `OwnerReferences[0]` panics where there is no owner.
  unfoldable pub record_vmi : Text → List OwnerReference → C.State → Outcome C.State
  record_vmi ip [] s = (panic, s)
  record_vmi ip (owner ∷ owners) s = save_vmi C (vmi_state vmi ip owner) s

  -- What comes after the reservation, by how that ended.
  unfoldable pub after_reservation : Text → Outcome C.State → Outcome C.State
  unfolding record_vmi
  after_reservation ip (ok _, s) = record_vmi ip vmi.meta.owner_references s
  after_reservation ip (err e, s) = (err e, s)
  after_reservation ip (panic, s) = (panic, s)

  unfoldable pub generate_from : List Text → C.State → Outcome C.State
  unfolding after_reservation
  generate_from [] s = (ok tt, s)
  generate_from (ip ∷ more) s =
      if is_empty ip
      then (ok tt, s)
      else after_reservation ip (ensure_reservation C (vmi_reservation vmi ip) s)

  unfoldable pub vmi_auto_generate : C.State → Outcome C.State
  unfolding generate_from
  vmi_auto_generate s = generate_from vmi.interfaces s
