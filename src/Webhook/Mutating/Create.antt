-- ===== src/Webhook/Mutating/Create.antt =====
-- What `handlePodCreate` makes of a pod, branch by branch.
use persistent_pod_state.Base.{true, false, ◌≡◌, refl, success, failure, text_eq}
use persistent_pod_state.Base.Strings.{is_empty}
use persistent_pod_state.Api.{NamespacedName, Pod, PodState, PersistentPodState}
use persistent_pod_state.Cluster.{Client, ApiError}
use persistent_pod_state.Webhook.SetName.{get_stateful_set_name}
use persistent_pod_state.Webhook.Mutating.{
  with_annotations, pin_pod, stored_state, handle_pod_create,
}

pub set_name_pin :
    (state : PodState) (pod : Pod)
    → get_stateful_set_name (pin_pod state pod) ≡ get_stateful_set_name pod
unfolding get_stateful_set_name
set_name_pin state pod = refl

pub set_name_ready :
    (pod : Pod)
    → get_stateful_set_name (record pod { meta = with_annotations pod.meta })
      ≡ get_stateful_set_name pod
unfolding get_stateful_set_name
set_name_ready pod = refl

abbrev pub ready_pod : Pod → Pod
ready_pod pod = record pod { meta = with_annotations pod.meta }

-- The key under which a pod's state is looked up.
abbrev pub set_key : Pod → NamespacedName
set_key pod = record { namespace = pod.meta.namespace; name = get_stateful_set_name pod }

module _ (C : Client) (s : C.State) where
  module _ (pod : Pod) where
    pub create_unowned :
        is_empty (get_stateful_set_name pod) ≡ true
        → handle_pod_create C s pod ≡ success (ready_pod pod)
    unfolding handle_pod_create
    create_unowned h = rw (set_name_ready pod) (rw h refl)

    pub create_missing :
        (e : ApiError)
        → is_empty (get_stateful_set_name pod) ≡ false
        → C.get_state s (set_key pod) ≡ failure e
        → handle_pod_create C s pod ≡ success (ready_pod pod)
    unfolding handle_pod_create
    create_missing e h g = rw (set_name_ready pod) (rw h (rw g refl))

    pub create_found :
        (pps : PersistentPodState)
        → is_empty (get_stateful_set_name pod) ≡ false
        → C.get_state s (set_key pod) ≡ success pps
        → handle_pod_create C s pod ≡ success (pin_pod (stored_state pps pod.meta.name) pod)
    unfolding handle_pod_create
    create_found pps h g = rw (set_name_ready pod) (rw h (rw g refl))
