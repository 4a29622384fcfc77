-- ===== src/Webhook/Mutating.antt =====
-- `PodMutatingHandler` (internal/webhook/pod/mutating/mutating_handler.go).
pub mod Equality
pub mod Create
pub mod Idempotence
pub mod Pinned
pub mod Created
pub mod Responses
use persistent_pod_state.Base.{
  ℕ, Text, codes, ◌==◌, text_eq, texts_eq, Eq, if◌then◌else◌, Bool, not, ◌&&◌, ◌||◌, Option, some,
  List, Reply, success, failure,
}
use persistent_pod_state.Base.Strings.{is_empty}
use persistent_pod_state.Base.GoMap.{entries, get_or, map_equal}
use persistent_pod_state.Features.{PersistenceConfig}
use persistent_pod_state.Api.{
  NamespacedName, OwnerReference, ObjectMeta, Affinity, Pod, VirtualMachineInstance, PodState,
  PersistentPodState, zero_pod_state,
}
use persistent_pod_state.Cluster.{Client}
use persistent_pod_state.Webhook.Pin.{pin_address, pin_node}
use persistent_pod_state.Webhook.SetName.{get_stateful_set_name}
use native.Mathlib.Decide.{ℕ_discrete}

-- `admissionv1.Operation`
pub data Operation : Type 0 where
  create update : Operation
  other : Text → Operation

-- `admission.Request`, with the object as it was sent
pub record Request : Type 0 where
  pub sub_resource : Text
  pub resource : Text
  pub operation : Operation
  pub namespace : Text
  pub object : Text

-- `admission.Response`: `Allowed`, `Errored` with its HTTP status, or a patch.
pub data Response : Type 0 where
  allowed : Response
  errored : ℕ → Text → Response
  patch : Text → Response

-- The decoder of controller-runtime and `json.Marshal`, at one type of objects, and the patch that
-- leads from one encoding to another.
pub record Codec (A : Type 0) : Type 0 where
  pub decode : Text → Reply Text A
  pub marshal : A → Reply Text Text
  pub create_patch : Text → Text → Reply Text Text

-- `reflect.DeepEqual` on the objects
unfoldable pub affinity_dec : Discrete (Option Affinity)
affinity_dec = hlevel ℕ_discrete

instance unfoldable pub affinity_eq : Eq (Option Affinity)
unfolding affinity_dec
affinity_eq = record { dec = affinity_dec }

unfoldable pub owners_dec : Discrete (List OwnerReference)
owners_dec = hlevel ℕ_discrete

instance unfoldable pub owners_eq : Eq (List OwnerReference)
unfolding owners_dec
owners_eq = record { dec = owners_dec }

abbrev pub text_equal : Text → Text → Bool
text_equal a b = a == b

unfoldable pub meta_equal : ObjectMeta → ObjectMeta → Bool
meta_equal a b =
    a.namespace == b.namespace
    && a.name == b.name
    && a.uid == b.uid
    && map_equal text_equal a.annotations b.annotations
    && a.owner_references == b.owner_references

unfoldable pub pod_equal : Pod → Pod → Bool
unfolding meta_equal
pod_equal a b =
    meta_equal a.meta b.meta
    && a.node_name == b.node_name
    && a.affinity == b.affinity
    && a.pod_ip == b.pod_ip

unfoldable pub vmi_equal : VirtualMachineInstance → VirtualMachineInstance → Bool
unfolding meta_equal
vmi_equal a b =
    meta_equal a.meta b.meta
    && a.affinity == b.affinity
    && a.phase == b.phase
    && a.node_name == b.node_name
    && a.interfaces == b.interfaces

-- `shouldIgnoreIfNotVMIOrPod`
unfoldable pub should_ignore : Request → Bool
should_ignore req =
    not (is_empty req.sub_resource)
    || (not (req.resource == codes "virtualmachineinstances") && not (req.resource == codes "pods"))

-- An absent map becomes an empty one.
abbrev pub with_annotations : ObjectMeta → ObjectMeta
with_annotations m = record m { annotations = some (entries m.annotations) }

-- The object with its annotations and affinity pinned to the stored state.
abbrev pub pin_vmi : PodState → VirtualMachineInstance → VirtualMachineInstance
pin_vmi state vmi = record vmi {
  meta = record (vmi.meta) {
    annotations = some (pin_address state (entries vmi.meta.annotations));
  };
  affinity = pin_node state vmi.affinity;
}

abbrev pub pin_pod : PodState → Pod → Pod
pin_pod state pod = record pod {
  meta = record (pod.meta) {
    annotations = some (pin_address state (entries pod.meta.annotations));
  };
  affinity = pin_node state pod.affinity;
}

-- `pps.Status.PodStates[name]`
abbrev pub stored_state : PersistentPodState → Text → PodState
stored_state pps name = get_or pps.status.pod_states name zero_pod_state

module _ (C : Client) (s : C.State) where
  -- Where the state cannot be read, the object is left as it is.
  unfoldable pub handle_vmi_create : VirtualMachineInstance → Reply Text VirtualMachineInstance
  handle_vmi_create vmi =
      let ready = record vmi { meta = with_annotations vmi.meta } in
      elim (C.get_state s (record { namespace = vmi.meta.namespace; name = vmi.meta.name })) [
        | failure e ↦ success ready
        | success pps ↦ success (pin_vmi (stored_state pps vmi.meta.name) ready)
      ]

  unfoldable pub handle_vmi_update : VirtualMachineInstance → Reply Text VirtualMachineInstance
  handle_vmi_update vmi = success vmi

  unfoldable pub handle_pod_create : Pod → Reply Text Pod
  handle_pod_create pod =
      let ready = record pod { meta = with_annotations pod.meta } in
      let set = get_stateful_set_name ready in
      if is_empty set
      then success ready
      else elim (C.get_state s (record { namespace = pod.meta.namespace; name = set })) [
        | failure e ↦ success ready
        | success pps ↦ success (pin_pod (stored_state pps pod.meta.name) ready)
      ]

  unfoldable pub handle_pod_update : Pod → Reply Text Pod
  handle_pod_update pod = success pod

-- What `handleVMI` and `handlePod` do alike, at the two types of objects.
pub record Handling (A : Type 0) : Type 0 where
  pub codec : Codec A
  pub meta : A → ObjectMeta
  pub set_meta : ObjectMeta → A → A
  pub equal : A → A → Bool
  pub on_create : A → Reply Text A
  pub on_update : A → Reply Text A

module _ {A : Type 0} (h : Handling A) where
  unfoldable pub set_namespace : Text → A → A
  set_namespace ns obj = h.set_meta (record (h.meta obj) { namespace = ns }) obj

  -- `PatchResponseFromRaw`
  abbrev pub patch_of : Reply Text Text → Response
  patch_of (failure e) = errored 500 e
  patch_of (success operations) = patch operations

  -- The patch between the two encodings, if both succeed.
  unfoldable pub patch_response : A → A → Response
  patch_response clone obj = elim (h.codec.marshal obj) [
    | failure e ↦ errored 500 e
    | success marshaled ↦ elim (h.codec.marshal clone) [
      | failure e ↦ errored 500 e
      | success original ↦ patch_of (h.codec.create_patch original marshaled)
    ]
  ]

  -- A namespace that was filled in is taken out again.
  abbrev pub restored : A → A → A
  restored clone mutated =
      if is_empty (h.meta clone).namespace then set_namespace List.[] mutated else mutated

  -- What follows the mutation.
  unfoldable pub finish_response : A → Reply Text A → Response
  unfolding patch_response set_namespace
  finish_response clone (failure e) = errored 500 e
  finish_response clone (success mutated) =
      let obj = restored clone mutated in
      if h.equal obj clone then allowed else patch_response clone obj

  -- The switch over the operations, on the object with its namespace.
  unfoldable pub mutate : Operation → A → A → Response
  unfolding finish_response
  mutate create clone obj = finish_response clone (h.on_create obj)
  mutate update clone obj = finish_response clone (h.on_update obj)
  mutate (other op) clone obj = allowed

  unfoldable pub handle_object : Request → Response
  unfolding mutate
  handle_object req = elim (h.codec.decode req.object) [
    | failure e ↦ errored 400 e
    | success obj ↦
        mutate req.operation obj
          (if is_empty (h.meta obj).namespace then set_namespace req.namespace obj else obj)
  ]

module _ (C : Client) (pods : Codec Pod) (vmis : Codec VirtualMachineInstance) (s : C.State) where
  abbrev pub vmi_handling : Handling VirtualMachineInstance
  vmi_handling = record {
    codec = vmis;
    meta = λ vmi. vmi.meta;
    set_meta = λ m vmi. record vmi { meta = m };
    equal = vmi_equal;
    on_create = handle_vmi_create C s;
    on_update = handle_vmi_update C s;
  }

  abbrev pub pod_handling : Handling Pod
  pod_handling = record {
    codec = pods;
    meta = λ pod. pod.meta;
    set_meta = λ m pod. record pod { meta = m };
    equal = pod_equal;
    on_create = handle_pod_create C s;
    on_update = handle_pod_update C s;
  }

  -- `handleVMI`
  unfoldable pub handle_vmi : Request → Response
  handle_vmi = handle_object vmi_handling

  -- `handlePod`
  unfoldable pub handle_pod : Request → Response
  handle_pod = handle_object pod_handling

  -- `Handle`
  unfoldable pub handle : PersistenceConfig → Request → Response
  unfolding should_ignore handle_vmi handle_pod
  handle cfg req =
      if should_ignore req
      then allowed
      else if req.resource == codes "virtualmachineinstances"
      then if cfg.enable_vmi_persistence then handle_vmi req else allowed
      else if req.resource == codes "pods"
      then if cfg.enable_stateful_set_persistence then handle_pod req else allowed
      else allowed
