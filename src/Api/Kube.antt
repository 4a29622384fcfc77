-- ===== src/Api/Kube.antt =====
-- The objects of Kubernetes, KubeVirt and Calico, with the fields that the program reads or
-- writes. All their other fields pass through the program unchanged.
use persistent_pod_state.Base.{Option, List}
use persistent_pod_state.Base.{Text}
use persistent_pod_state.Base.GoMap.{GoMap}

-- `types.NamespacedName`
pub record NamespacedName : Type 0 where
  pub namespace : Text
  pub name : Text

-- `metav1.OwnerReference`; `Controller` is a pointer to a Boolean, which is only set to true
pub record OwnerReference : Type 0 where
  pub api_version : Text
  pub kind : Text
  pub name : Text
  pub uid : Text

-- `metav1.ObjectMeta`
pub record ObjectMeta : Type 0 where
  pub namespace : Text
  pub name : Text
  pub uid : Text
  pub annotations : GoMap Text
  pub owner_references : List OwnerReference

-- `corev1.NodeSelectorRequirement`
pub record NodeSelectorRequirement : Type 0 where
  pub key : Text
  pub operator : Text
  pub values : List Text

-- `corev1.NodeSelectorTerm`
pub record NodeSelectorTerm : Type 0 where
  pub match_expressions : List NodeSelectorRequirement
  pub match_fields : List NodeSelectorRequirement

-- `corev1.NodeSelector`
pub record NodeSelector : Type 0 where
  pub node_selector_terms : List NodeSelectorTerm

-- `corev1.NodeAffinity`; the preferred terms by their encoding
pub record NodeAffinity : Type 0 where
  pub required : Option NodeSelector
  pub preferred : List Text

-- `corev1.Affinity`; the rules on pods by their encoding
pub record Affinity : Type 0 where
  pub node_affinity : Option NodeAffinity
  pub pod_affinity : Option Text
  pub pod_anti_affinity : Option Text

-- `corev1.Pod`
pub record Pod : Type 0 where
  pub meta : ObjectMeta
  pub node_name : Text
  pub affinity : Option Affinity
  pub pod_ip : Text

-- `kubevirtv1.VirtualMachineInstance`; `interfaces` holds the address of each interface
pub record VirtualMachineInstance : Type 0 where
  pub meta : ObjectMeta
  pub affinity : Option Affinity
  pub phase : Text
  pub node_name : Text
  pub interfaces : List Text

-- `appsv1.StatefulSet`; `selector` holds the labels of `Spec.Selector.MatchLabels`
pub record StatefulSet : Type 0 where
  pub meta : ObjectMeta
  pub selector : Option (GoMap Text)

-- `calicoapi.IPReservation`, which has no namespace
pub record IpReservation : Type 0 where
  pub name : Text
  pub resource_version : Text
  pub reserved_cidrs : List Text
