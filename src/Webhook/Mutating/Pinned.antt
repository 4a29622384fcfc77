-- ===== src/Webhook/Mutating/Pinned.antt =====
-- What the webhook answers when an object is created whose state is stored.
use persistent_pod_state.Base.{
  Text, Bool, true, false, codes, ◌≡◌, ◌≢◌, refl, sym, ap, Option, some, List, [], ◌∷◌, inl, inr,
  subst, success, Bool-cases, ◌==◌, text_eq, if◌then◌else◌,
}
use persistent_pod_state.Base.Strings.{is_empty, eq_nil_of_is_empty}
use persistent_pod_state.Base.GoMap.{entries, get}
use persistent_pod_state.Features.{PersistenceConfig}
use persistent_pod_state.Api.{
  ObjectMeta, NodeSelectorTerm, Affinity, Pod, VirtualMachineInstance, PodState,
}
use persistent_pod_state.Cluster.{Client}
use persistent_pod_state.Webhook.Pin.{
  pin_address, pin_node, address_annotation, address_list, node_term, affinity_or_new,
  node_affinity_or_new, selector_or_new,
}
use persistent_pod_state.Webhook.Pin.Laws.{lookup-pin_address, lookup-pin_address_ne}
use persistent_pod_state.Webhook.Mutating.{
  create, Request, Response, allowed, Codec, Handling, pin_pod, pin_vmi, set_namespace,
  patch_response, finish_response, handle_object, pod_handling, vmi_handling, handle,
}

-- The terms that the scheduler must meet.
abbrev pub required_terms : Option Affinity → List NodeSelectorTerm
required_terms a =
    let n = node_affinity_or_new (affinity_or_new a).node_affinity in
    (selector_or_new n.required).node_selector_terms

-- The address is the only one that Calico may assign, the node the only one that is scheduled,
-- and the other annotations and the rest of the metadata are as they were.
pub record IsPinned (state : PodState) (m m' : ObjectMeta) (a' : Option Affinity) : Type 0 where
  pub address : get m'.annotations address_annotation ≡ some (address_list state.pod_ip)
  pub others : (k : Text) → address_annotation ≢ k → get m'.annotations k ≡ get m.annotations k
  pub node : required_terms a' ≡ node_term state.node_name ∷ []
  pub same_name : m'.name ≡ m.name
  pub same_namespace : m'.namespace ≡ m.namespace
  pub same_uid : m'.uid ≡ m.uid
  pub same_owners : m'.owner_references ≡ m.owner_references

-- The stored state has an address and a node.
abbrev pub IsComplete : PodState → Type 0
IsComplete state = (is_empty state.pod_ip ≡ false) × (is_empty state.node_name ≡ false)

required_terms-pin_node :
    (state : PodState) (a : Option Affinity)
    → is_empty state.node_name ≡ false
    → required_terms (pin_node state a) ≡ node_term state.node_name ∷ []
unfolding pin_node
required_terms-pin_node state a h = rw h refl

pub pin-IsPinned :
    (state : PodState) (m : ObjectMeta) (a : Option Affinity)
    → IsComplete state
    → IsPinned state m
        (record m { annotations = some (pin_address state (entries m.annotations)) })
        (pin_node state a)
pin-IsPinned state m a c = record {
  address = lookup-pin_address state (entries m.annotations) c.0;
  others = lookup-pin_address_ne state (entries m.annotations);
  node = required_terms-pin_node state a c.1;
  same_name = refl;
  same_namespace = refl;
  same_uid = refl;
  same_owners = refl;
}

-- The object as the mutation sees it.
abbrev pub placed : {A : Type 0} → Handling A → Request → A → A
placed h req obj =
    if is_empty (h.meta obj).namespace then set_namespace h req.namespace obj else obj

pub handle_object_created :
    {A : Type 0} (h : Handling A) (req : Request) (obj made : A)
    → h.codec.decode req.object ≡ success obj
    → req.operation ≡ create
    → h.on_create (placed h req obj) ≡ success made
    → handle_object h req ≡ finish_response h obj (success made)
unfolding handle_object
handle_object_created h req obj made decoded op done =
    rw (decoded, handle_object) (rw op (rw done refl))

-- What is answered for an object and what it has become.
abbrev pub answer : {A : Type 0} → Handling A → A → A → Response
answer h obj made = if h.equal made obj then allowed else patch_response h obj made

-- The request creates the pod, and StatefulSets are persisted.
pub record IsPodCreate (pods : Codec Pod) (cfg : PersistenceConfig) (req : Request) (pod : Pod)
    : Type 0 where
  pub resource : req.resource ≡ codes "pods"
  pub whole : req.sub_resource ≡ []
  pub enabled : cfg.enable_stateful_set_persistence ≡ true
  pub creates : req.operation ≡ create
  pub decoded : pods.decode req.object ≡ success pod

-- The request creates the VMI, and VMIs are persisted.
pub record IsVmiCreate (vmis : Codec VirtualMachineInstance) (cfg : PersistenceConfig)
    (req : Request) (vmi : VirtualMachineInstance) : Type 0 where
  pub resource : req.resource ≡ codes "virtualmachineinstances"
  pub whole : req.sub_resource ≡ []
  pub enabled : cfg.enable_vmi_persistence ≡ true
  pub creates : req.operation ≡ create
  pub decoded : vmis.decode req.object ≡ success vmi

module _ (C : Client) (pods : Codec Pod) (vmis : Codec VirtualMachineInstance) (s : C.State) where
  abbrev pub of_pods : Handling Pod
  of_pods = pod_handling C pods vmis s

  abbrev pub of_vmis : Handling VirtualMachineInstance
  of_vmis = vmi_handling C pods vmis s

  pub finish_pod :
      (req : Request) (state : PodState) (pod : Pod)
      → finish_response of_pods pod (success (pin_pod state (placed of_pods req pod)))
        ≡ answer of_pods pod (pin_pod state pod)
  unfolding finish_response
  finish_pod req state pod = elim (Bool-cases (is_empty pod.meta.namespace)) [
    | inl e ↦ rw e (
        ap (λ ns. answer of_pods pod (set_namespace of_pods ns (pin_pod state pod)))
          (sym (eq_nil_of_is_empty pod.meta.namespace e)))
    | inr e ↦ rw e refl
  ]

  pub finish_vmi :
      (req : Request) (state : PodState) (vmi : VirtualMachineInstance)
      → finish_response of_vmis vmi (success (pin_vmi state (placed of_vmis req vmi)))
        ≡ answer of_vmis vmi (pin_vmi state vmi)
  unfolding finish_response
  finish_vmi req state vmi = elim (Bool-cases (is_empty vmi.meta.namespace)) [
    | inl e ↦ rw e (
        ap (λ ns. answer of_vmis vmi (set_namespace of_vmis ns (pin_vmi state vmi)))
          (sym (eq_nil_of_is_empty vmi.meta.namespace e)))
    | inr e ↦ rw e refl
  ]

  module _ (cfg : PersistenceConfig) (req : Request) where
    -- A test of the resource, once that is known.
    is_resource :
        (r name : Text) (b : Bool) → req.resource ≡ r → (r == name) ≡ b → (req.resource == name) ≡ b
    is_resource r name b e = subst (λ x. (x == name) ≡ b) (sym e)

    pub handle-pod :
        (pod : Pod)
        → IsPodCreate pods cfg req pod
        → handle C pods vmis s cfg req ≡ handle_object of_pods req
    unfolding handle text_eq
    handle-pod pod w =
        let whole : is_empty req.sub_resource ≡ true = ap is_empty w.whole in
        let not_vmi = is_resource _ (codes "virtualmachineinstances") false w.resource refl in
        let is_pod = is_resource _ (codes "pods") true w.resource refl in
        rw whole (rw not_vmi (rw is_pod (rw w.enabled refl)))

    pub handle-vmi :
        (vmi : VirtualMachineInstance)
        → IsVmiCreate vmis cfg req vmi
        → handle C pods vmis s cfg req ≡ handle_object of_vmis req
    unfolding handle text_eq
    handle-vmi vmi w =
        let whole : is_empty req.sub_resource ≡ true = ap is_empty w.whole in
        let is_vmi = is_resource _ (codes "virtualmachineinstances") true w.resource refl in
        rw whole (rw is_vmi (rw w.enabled refl))
