-- ===== src/Webhook/Mutating/Idempotence.antt =====
-- Mutating a pod again.
use persistent_pod_state.Base.{
  Text, false, ◌≡◌, inl, inr, refl, sym, ap, subst, ◌∙◌, Reply, success, failure, Bool-cases,
  text_eq,
}
use persistent_pod_state.Base.Strings.{is_empty}
use persistent_pod_state.Base.GoMap.{entries}
use persistent_pod_state.Api.{Pod, PodState, PersistentPodState}
use persistent_pod_state.Cluster.{Client, ApiError}
use persistent_pod_state.Webhook.SetName.{get_stateful_set_name}
use persistent_pod_state.Webhook.Pin.Laws.{pin_address_idem, pin_node_idem}
use persistent_pod_state.Webhook.Mutating.{pin_pod, stored_state, handle_pod_create}
use persistent_pod_state.Webhook.Mutating.Create.{
  set_name_pin, set_name_ready, ready_pod, set_key, create_unowned, create_missing, create_found,
}

-- Pinning twice is pinning once.
pin_pod_idem :
    (state : PodState) (pod : Pod) → pin_pod state (pin_pod state pod) ≡ pin_pod state pod
pin_pod_idem state pod =
    rw (pin_address_idem state (entries pod.meta.annotations), pin_node_idem state pod.affinity)
      refl

success_injective : {A : Type 0} {a b : A} → ◌≡◌ {A = Reply Text A} (success a) (success b) → a ≡ b
success_injective h = cc

module _ (C : Client) (s : C.State) where
  abbrev Settled : Pod → Type 0
  Settled made = handle_pod_create C s made ≡ success made

  module _ (pod made : Pod) (h : handle_pod_create C s pod ≡ success made) where
    settle : (m : Pod) → handle_pod_create C s pod ≡ success m → Settled m → Settled made
    settle m e = subst Settled (success_injective (sym e ∙ h))

    settle_ready :
        handle_pod_create C s pod ≡ success (ready_pod pod) → Settled (ready_pod pod) → Settled made
    settle_ready = settle (ready_pod pod)

    settle_found :
        is_empty (get_stateful_set_name pod) ≡ false
        → (r : Reply ApiError PersistentPodState) → C.get_state s (set_key pod) ≡ r
        → Settled made
    settle_found n (failure e) g = settle_ready (create_missing C s pod e n g) (
        create_missing C s (ready_pod pod) e (rw (set_name_ready pod) n)
          (rw (set_name_ready pod) g))
    settle_found n (success pps) g =
        let state = stored_state pps pod.meta.name in
        let pinned = pin_pod state pod in
        settle pinned (create_found C s pod pps n g) (
          create_found C s pinned pps (rw (set_name_pin state pod) n)
            (rw (set_name_pin state pod) g)
          ∙ ap success (pin_pod_idem state pod))

    -- Where the mutation of a created pod gives a pod, applied to that pod it gives the same
    -- again.
    pub handle_pod_create_idem : Settled made
    handle_pod_create_idem = elim (Bool-cases (is_empty (get_stateful_set_name pod))) [
      | inl n ↦
          settle_ready (create_unowned C s pod n)
            (create_unowned C s (ready_pod pod) (rw (set_name_ready pod) n))
      | inr n ↦ settle_found n _ refl
    ]
