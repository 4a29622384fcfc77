-- ===== src/Api/Types.antt =====
-- api/apps/v1alpha1/persistentpodstate_types.go
use persistent_pod_state.Base.{Option, none, List, []}
use persistent_pod_state.Base.{Text, codes}
use persistent_pod_state.Base.Int.{ℤ, pos}
use persistent_pod_state.Base.GoMap.{GoMap}
use persistent_pod_state.Api.Kube.{ObjectMeta}

abbrev pub annotation_auto_generate : Text
annotation_auto_generate = codes "clay.io/auto-generate-persistent-pod-state"

abbrev pub annotation_required_topology : Text
annotation_required_topology = codes "clay.io/required-persistent-topology"

pub record TargetReference : Type 0 where
  pub api_version : Text
  pub kind : Text
  pub name : Text

pub record PersistentPodAnnotation : Type 0 where
  pub key : Text

pub record NodeTopologyTerm : Type 0 where
  pub node_topology_keys : List Text

pub record PersistentPodStateSpec : Type 0 where
  pub target_reference : TargetReference
  pub persistent_pod_annotations : List PersistentPodAnnotation
  pub required_persistent_topology : Option NodeTopologyTerm

pub record PodState : Type 0 where
  pub node_name : Text
  pub node_topology_labels : GoMap Text
  pub annotations : GoMap Text
  pub pod_ip : Text

pub record PersistentPodStateStatus : Type 0 where
  pub observed_generation : ℤ
  pub pod_states : GoMap PodState

pub record PersistentPodState : Type 0 where
  pub meta : ObjectMeta
  pub spec : PersistentPodStateSpec
  pub status : PersistentPodStateStatus

-- The zero value of `PodState`, which a read of a missing key gives.
abbrev pub zero_pod_state : PodState
zero_pod_state = record {
  node_name = [];
  node_topology_labels = none;
  annotations = none;
  pod_ip = [];
}

-- The zero value of `PersistentPodStateStatus`.
abbrev pub zero_status : PersistentPodStateStatus
zero_status = record { observed_generation = pos 0; pod_states = none }
