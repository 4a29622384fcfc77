-- ===== src/Examples/Objects.antt =====
-- The objects of the examples.
use persistent_pod_state.Base.{Text, codes, List, none, some, [], ◌∷◌, success}
use persistent_pod_state.Api.{
  OwnerReference, ObjectMeta, Pod, VirtualMachineInstance, StatefulSet, PersistentPodState,
  PodState, annotation_auto_generate, annotation_required_topology,
}
use persistent_pod_state.Cluster.Memory.{Store, empty}
use persistent_pod_state.Controller.Vmi.{pod_state}
use persistent_pod_state.Controller.Sets.{set_state}
use persistent_pod_state.Webhook.Mutating.{Codec, Operation, Request}

abbrev pub address : Text
address = codes "10.0.0.7"

abbrev pub node : Text
node = codes "n1"

abbrev pub vm_owner : OwnerReference
vm_owner = record {
  api_version = codes "kubevirt.io/v1";
  kind = codes "VirtualMachine";
  name = codes "vm";
  uid = codes "u1";
}

abbrev pub set_owner : OwnerReference
set_owner = record {
  api_version = codes "apps/v1";
  kind = codes "StatefulSet";
  name = codes "web";
  uid = codes "u2";
}

abbrev pub meta_of : Text → List OwnerReference → ObjectMeta
meta_of name owners = record {
  namespace = codes "ns";
  name = name;
  uid = [];
  annotations = some (
      (annotation_auto_generate, codes "true")
      ∷ (annotation_required_topology, codes "kubernetes.io/hostname")
      ∷ []);
  owner_references = owners;
}

abbrev pub vmi : VirtualMachineInstance
vmi = record {
  meta = meta_of (codes "vm") (vm_owner ∷ []);
  affinity = none;
  phase = codes "Running";
  node_name = node;
  interfaces = address ∷ [];
}

-- The VMI as it is created again, with no address and no node.
abbrev pub vmi_again : VirtualMachineInstance
vmi_again = record vmi { phase = []; node_name = []; interfaces = [] }

abbrev pub vmi_unowned : VirtualMachineInstance
vmi_unowned = record vmi { meta = meta_of (codes "vm") [] }

abbrev pub pod : Pod
pod = record {
  meta = meta_of (codes "web-0") (set_owner ∷ []);
  node_name = node;
  affinity = none;
  pod_ip = address;
}

abbrev pub pod_again : Pod
pod_again = record pod { node_name = []; pod_ip = [] }

-- A pod that names no owner.
abbrev pub pod_unowned : Pod
pod_unowned = record pod { meta = meta_of (codes "web-0") [] }

abbrev pub stateful_set : StatefulSet
stateful_set = record {
  meta = meta_of (codes "web") [];
  selector = some (some ((codes "app", codes "web") ∷ []));
}

abbrev pub recorded : PodState
recorded = pod_state node address

abbrev pub web_state : PersistentPodState
web_state = set_state stateful_set ((codes "web-0", recorded) ∷ [])

-- A cluster in which the state of the pod is stored.
abbrev pub with_web_state : Store
with_web_state = record empty { states = λ k. some web_state }

-- A cluster in which the pod runs.
abbrev pub with_pod : Store
with_pod = record empty { pods = λ ns. pod ∷ [] }

-- Codecs for which every text stands for one object.
abbrev pub pods_as : Pod → Codec Pod
pods_as p = record {
  decode = λ t. success p;
  marshal = λ q. success q.meta.name;
  create_patch = λ t u. success u;
}

abbrev pub vmis_as : VirtualMachineInstance → Codec VirtualMachineInstance
vmis_as v = record {
  decode = λ t. success v;
  marshal = λ w. success w.meta.name;
  create_patch = λ t u. success u;
}

abbrev pub request : Text → Operation → Request
request resource operation = record {
  sub_resource = [];
  resource = resource;
  operation = operation;
  namespace = codes "ns";
  object = [];
}

abbrev pub vmi_creation : Request
vmi_creation = request (codes "virtualmachineinstances") Operation.create

abbrev pub pod_creation : Request
pod_creation = request (codes "pods") Operation.create
