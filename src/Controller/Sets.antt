-- ===== src/Controller/Sets.antt =====
-- `StatefulSetAutoGeneratePersistentPodState`
-- (internal/controller/apps/persistentpodstate_statefulset.go).
pub mod Laws
pub mod Loop
pub mod Records
use persistent_pod_state.Base.{
  Text, codes, ◌||◌, if◌then◌else◌, Option, none, some, List, [], ◌∷◌, Reply, success, failure,
  Result, ok, err, panic,
}
use persistent_pod_state.Base.Strings.{is_empty}
use persistent_pod_state.Base.Int.{pos}
use persistent_pod_state.Base.GoMap.{Dict, GoMap, insert}
use persistent_pod_state.Api.{
  ObjectMeta, Pod, StatefulSet, PodState, PersistentPodStateSpec, PersistentPodStateStatus,
  PersistentPodState,
}
use persistent_pod_state.Cluster.{Client, ApiError}
use persistent_pod_state.Controller.Reservations.{Outcome, create_or_update_reservation}
use persistent_pod_state.Controller.Save.{save_set}
use persistent_pod_state.Controller.Vmi.{pod_state}

-- The object for a StatefulSet with the states of its pods.
abbrev pub set_state : StatefulSet → Dict PodState → PersistentPodState
set_state sts states = record {
  meta = record {
    namespace = sts.meta.namespace;
    name = sts.meta.name;
    uid = [];
    annotations = none;
    owner_references =
        record {
          api_version = codes "apps/v1";
          kind = codes "StatefulSet";
          name = sts.meta.name;
          uid = sts.meta.uid;
        }
        ∷ [];
  };
  spec = record {
    target_reference = record {
      api_version = codes "apps/v1";
      kind = codes "StatefulSet";
      name = sts.meta.name;
    };
    persistent_pod_annotations = [];
    required_persistent_topology = none;
  };
  status = record { observed_generation = pos 0; pod_states = some states };
}

module _ (C : Client) where
  -- One round of the loop, by how the reservation ended: a failure skips the pod.
  unfoldable pub add_pod_state : Pod → Outcome C.State → Dict PodState → Dict PodState × C.State
  add_pod_state pod (ok _, s) states =
      (insert pod.meta.name (pod_state pod.node_name pod.pod_ip) states, s)
  add_pod_state pod (err e, s) states = (states, s)
  add_pod_state pod (panic, s) states = (states, s)

  unfoldable pub visit_pod : Pod → Dict PodState × C.State → Dict PodState × C.State
  unfolding add_pod_state
  visit_pod pod (states, s) =
      if is_empty pod.pod_ip || is_empty pod.node_name
      then (states, s)
      else add_pod_state pod (create_or_update_reservation C pod s) states

  -- The loop over the pods.
  unfoldable pub collect_pods : List Pod → Dict PodState × C.State → Dict PodState × C.State
  unfolding visit_pod
  collect_pods [] acc = acc
  collect_pods (pod ∷ pods) acc = collect_pods pods (visit_pod pod acc)

  -- After the loop: a StatefulSet with no state to store is skipped.
  unfoldable pub save_collected : StatefulSet → Dict PodState × C.State → Outcome C.State
  save_collected sts ([], s) = (ok tt, s)
  save_collected sts (e ∷ states, s) = save_set C (set_state sts (e ∷ states)) s

  unfoldable pub generate_for : StatefulSet → Reply ApiError (List Pod) → C.State → Outcome C.State
  unfolding save_collected
  generate_for sts (failure e) s = (err e, s)
  generate_for sts (success []) s = (ok tt, s)
  generate_for sts (success (pod ∷ pods)) s = save_collected sts (collect_pods (pod ∷ pods) ([], s))

  -- `Spec.Selector.MatchLabels` panics where the selector is nil.
  unfoldable pub set_auto_generate : StatefulSet → C.State → Outcome C.State
  unfolding generate_for
  set_auto_generate sts s = elim sts.selector [
    | none ↦ (panic, s)
    | some labels ↦ generate_for sts (C.list_pods s sts.meta.namespace labels) s
  ]
