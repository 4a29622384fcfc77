-- ===== src/Webhook/Mutating/Created.antt =====
-- The answer to the creation of an object whose state is stored: the object pinned to it.
use persistent_pod_state.Base.{
  Text, false, ◌≡◌, refl, sym, ap, subst, ◌∙◌, some, inl, inr, success, Bool-cases, arith,
  if◌then◌else◌,
}
use persistent_pod_state.Base.Strings.{is_empty}
use persistent_pod_state.Base.GoMap.{get}
use persistent_pod_state.Features.{PersistenceConfig}
use persistent_pod_state.Api.{
  NamespacedName, ObjectMeta, Pod, VirtualMachineInstance, PodState, PersistentPodState,
}
use persistent_pod_state.Cluster.{Client}
use persistent_pod_state.Webhook.SetName.{get_stateful_set_name}
use persistent_pod_state.Webhook.Mutating.{
  Request, Codec, pin_pod, pin_vmi, stored_state, handle_pod_create, handle_vmi_create,
  set_namespace, handle,
}
use persistent_pod_state.Webhook.Mutating.Create.{create_found, set_key}
use persistent_pod_state.Webhook.Mutating.Pinned.{
  IsPinned, IsComplete, pin-IsPinned, placed, handle_object_created, answer, of_pods, of_vmis,
  finish_pod, finish_vmi, IsPodCreate, IsVmiCreate, handle-pod, handle-vmi,
}

-- The namespace of an object is the request's where it has none of its own.
abbrev pub namespace_of : Request → ObjectMeta → Text
namespace_of req m = if is_empty m.namespace then req.namespace else m.namespace

-- What a map holds is what a read of it gives.
stored_state_lem :
    (pps : PersistentPodState) (name : Text) (state : PodState)
    → get pps.status.pod_states name ≡ some state
    → stored_state pps name ≡ state
stored_state_lem pps name state h = ground arith

set_name_place :
    (pod : Pod) (ns : Text)
    → get_stateful_set_name (record pod { meta = record (pod.meta) { namespace = ns } })
      ≡ get_stateful_set_name pod
unfolding get_stateful_set_name
set_name_place pod ns = refl

module _ (C : Client) (pods : Codec Pod) (vmis : Codec VirtualMachineInstance) (s : C.State)
    (cfg : PersistenceConfig) (req : Request) where
  abbrev placed_pod : Pod → Pod
  placed_pod = placed (of_pods C pods vmis s) req

  abbrev placed_vmi : VirtualMachineInstance → VirtualMachineInstance
  placed_vmi = placed (of_vmis C pods vmis s) req

  placed_pod_key :
      (pod : Pod)
      → set_key (placed_pod pod)
        ≡ record { namespace = namespace_of req pod.meta; name = get_stateful_set_name pod }
  unfolding set_namespace
  placed_pod_key pod = elim (Bool-cases (is_empty pod.meta.namespace)) [
    | inl e ↦ rw e (
        ap (λ n. record { namespace = req.namespace; name = n }) (set_name_place pod req.namespace))
    | inr e ↦ rw e refl
  ]

  placed_pod_name : (pod : Pod) → (placed_pod pod).meta.name ≡ pod.meta.name
  unfolding set_namespace
  placed_pod_name pod = elim (Bool-cases (is_empty pod.meta.namespace)) [
    | inl e ↦ rw e refl
    | inr e ↦ rw e refl
  ]

  -- For a request that creates a pod, with StatefulSets persisted, where the object of the
  -- StatefulSet that the pod is counted to lists the pod with an address and a node: the answer is
  -- the pod with that address as the one that may be assigned, with that node as the one that is
  -- required, and otherwise as it was.
  pub handle-pod-IsPinned :
      (pod : Pod) (pps : PersistentPodState) (state : PodState)
      → IsPodCreate pods cfg req pod
      → is_empty (get_stateful_set_name pod) ≡ false
      → C.get_state s
          (record { namespace = namespace_of req pod.meta; name = get_stateful_set_name pod })
        ≡ success pps
      → get pps.status.pod_states pod.meta.name ≡ some state
      → IsComplete state
      → let made = pin_pod state pod in
        (handle C pods vmis s cfg req ≡ answer (of_pods C pods vmis s) pod made)
        × IsPinned state pod.meta made.meta made.affinity
  handle-pod-IsPinned pod pps state w owned found listed complete =
      let key = placed_pod_key pod in
      let owned' = subst (λ n. is_empty n ≡ false) (sym (ap (λ k. k.name) key)) owned in
      let found' = ap (C.get_state s) key ∙ found in
      let read =
        ap (stored_state pps) (placed_pod_name pod) ∙ stored_state_lem pps _ state listed in
      let made : handle_pod_create C s (placed_pod pod) ≡ success (pin_pod state (placed_pod pod)) =
        create_found C s (placed_pod pod) pps owned' found'
        ∙ ap (λ st. success (pin_pod st (placed_pod pod))) read in
      (
        handle-pod C pods vmis s cfg req pod w
            ∙ handle_object_created (of_pods C pods vmis s) req pod _ w.decoded w.creates made
            ∙ finish_pod C pods vmis s req state pod,
        pin-IsPinned state pod.meta pod.affinity complete,
      )

  vmi_create_found :
      (vmi : VirtualMachineInstance) (pps : PersistentPodState)
      → C.get_state s (record { namespace = vmi.meta.namespace; name = vmi.meta.name })
        ≡ success pps
      → handle_vmi_create C s vmi ≡ success (pin_vmi (stored_state pps vmi.meta.name) vmi)
  unfolding handle_vmi_create
  vmi_create_found vmi pps g = rw (g, handle_vmi_create)

  placed_vmi_key :
      (vmi : VirtualMachineInstance)
      → ◌≡◌ {A = NamespacedName}
          (record {
            namespace = (placed_vmi vmi).meta.namespace;
            name = (placed_vmi vmi).meta.name;
          })
          (record { namespace = namespace_of req vmi.meta; name = vmi.meta.name })
  unfolding set_namespace
  placed_vmi_key vmi = elim (Bool-cases (is_empty vmi.meta.namespace)) [
    | inl e ↦ rw e refl
    | inr e ↦ rw e refl
  ]

  -- The same for a VMI, whose state is stored under its own name.
  pub handle-vmi-IsPinned :
      (vmi : VirtualMachineInstance) (pps : PersistentPodState) (state : PodState)
      → IsVmiCreate vmis cfg req vmi
      → C.get_state s (record { namespace = namespace_of req vmi.meta; name = vmi.meta.name })
        ≡ success pps
      → get pps.status.pod_states vmi.meta.name ≡ some state
      → IsComplete state
      → let made = pin_vmi state vmi in
        (handle C pods vmis s cfg req ≡ answer (of_vmis C pods vmis s) vmi made)
        × IsPinned state vmi.meta made.meta made.affinity
  handle-vmi-IsPinned vmi pps state w found listed complete =
      let key = placed_vmi_key vmi in
      let found' = ap (C.get_state s) key ∙ found in
      let read = ap (λ k. stored_state pps k.name) key ∙ stored_state_lem pps _ state listed in
      let made : handle_vmi_create C s (placed_vmi vmi) ≡ success (pin_vmi state (placed_vmi vmi)) =
        vmi_create_found (placed_vmi vmi) pps found'
        ∙ ap (λ st. success (pin_vmi st (placed_vmi vmi))) read in
      (
        handle-vmi C pods vmis s cfg req vmi w
            ∙ handle_object_created (of_vmis C pods vmis s) req vmi _ w.decoded w.creates made
            ∙ finish_vmi C pods vmis s req state vmi,
        pin-IsPinned state vmi.meta vmi.affinity complete,
      )
