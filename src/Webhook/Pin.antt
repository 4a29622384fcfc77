-- ===== src/Webhook/Pin.antt =====
-- What `handleVMICreate` and `handlePodCreate`
-- (internal/webhook/pod/mutating/mutating_handler.go) write into an object from its stored state.
pub mod Laws
use persistent_pod_state.Base.{Text, codes, if◌then◌else◌, Option, none, some, List, [], ◌∷◌, ◌++◌}
use persistent_pod_state.Base.Strings.{is_empty}
use persistent_pod_state.Base.GoMap.{Dict, GoMap, entries, insert}
use persistent_pod_state.Api.{NodeSelectorTerm, NodeSelector, NodeAffinity, Affinity, PodState}

-- The annotation by which Calico assigns addresses.
abbrev pub address_annotation : Text
address_annotation = codes "cni.projectcalico.org/ipAddrs"

-- `fmt.Sprintf("[\"%s\"]", ip)`
unfoldable pub address_list : Text → Text
address_list ip = b'[' ∷ (b'"' ∷ (ip ++ (b'"' ∷ (b']' ∷ []))))

-- The annotations, of which nil has been made an empty map.
unfoldable pub pin_address : PodState → Dict Text → Dict Text
pin_address state annotations =
    if is_empty state.pod_ip
    then annotations
    else insert address_annotation (address_list state.pod_ip) annotations

abbrev pub hostname_key : Text
hostname_key = codes "kubernetes.io/hostname"

-- The term that asks for one node.
unfoldable pub node_term : Text → NodeSelectorTerm
node_term node = record {
  match_expressions = record { key = hostname_key; operator = codes "In"; values = node ∷ [] } ∷ [];
  match_fields = [];
}

-- `nil` replaced by a value with all fields zero.
abbrev pub affinity_or_new : Option Affinity → Affinity
affinity_or_new none = record {
  node_affinity = none;
  pod_affinity = none;
  pod_anti_affinity = none;
}
affinity_or_new (some a) = a

abbrev pub node_affinity_or_new : Option NodeAffinity → NodeAffinity
node_affinity_or_new none = record { required = none; preferred = [] }
node_affinity_or_new (some a) = a

abbrev pub selector_or_new : Option NodeSelector → NodeSelector
selector_or_new none = record { node_selector_terms = [] }
selector_or_new (some a) = a

-- The required terms become the one term for the node, whatever they were.
unfoldable pub require_node : Text → Option Affinity → Affinity
require_node node affinity =
    let a = affinity_or_new affinity in
    let n = node_affinity_or_new a.node_affinity in
    let r = selector_or_new n.required in
    record a {
      node_affinity =
          some
            (record n { required = some (record r { node_selector_terms = node_term node ∷ [] }) });
    }

unfoldable pub pin_node : PodState → Option Affinity → Option Affinity
unfolding require_node
pin_node state affinity =
    if is_empty state.node_name then affinity else some (require_node state.node_name affinity)
