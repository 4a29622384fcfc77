-- ===== src/Api/Equal.antt =====
-- `reflect.DeepEqual` on the status of a PersistentPodState.
use persistent_pod_state.Base.{Bool, true, ◌&&◌, ◌≡◌, ◌==◌, text_eq, Text, [], ◌∷◌, arith}
use persistent_pod_state.Base.Lists.{All, length}
use persistent_pod_state.Base.Int.{int_eq}
use persistent_pod_state.Base.GoMap.{Dict, entries, NodupKeys, SelfEqual, map_equal, map_equal_refl}
use persistent_pod_state.Api.Types.{PodState, PersistentPodStateStatus}

abbrev text_equal : Text → Text → Bool
text_equal a b = a == b

unfoldable pub pod_state_equal : PodState → PodState → Bool
pod_state_equal a b =
    a.node_name == b.node_name
    && map_equal text_equal a.node_topology_labels b.node_topology_labels
    && map_equal text_equal a.annotations b.annotations
    && a.pod_ip == b.pod_ip

unfoldable pub status_equal : PersistentPodStateStatus → PersistentPodStateStatus → Bool
status_equal a b =
    a.observed_generation == b.observed_generation
    && map_equal pod_state_equal a.pod_states b.pod_states

pub same_address :
    (a b : PodState)
    → pod_state_equal a b ≡ true
    → (a.pod_ip ≡ b.pod_ip) × (a.node_name ≡ b.node_name)
unfolding pod_state_equal
same_address a b h = ground arith

text_equal_refl : (a : Text) → text_equal a a ≡ true
text_equal_refl a = ground arith

texts_self : (d : Dict Text) → SelfEqual text_equal d
texts_self [] = tt
texts_self ((k, v) ∷ d) = (text_equal_refl v, texts_self d)

-- The maps of the state list no key twice.
abbrev pub IsSound : PodState → Type 0
IsSound p = NodupKeys (entries p.node_topology_labels) × NodupKeys (entries p.annotations)

pub pod_state_equal_refl : (p : PodState) → IsSound p → pod_state_equal p p ≡ true
unfolding pod_state_equal
pod_state_equal_refl p h = ground (
  arith,
  map_equal_refl text_equal p.node_topology_labels h.0 (texts_self _),
  map_equal_refl text_equal p.annotations h.1 (texts_self _),
)

states_self : (d : Dict PodState) → All (λ e. IsSound e.1) d → SelfEqual pod_state_equal d
states_self [] h = tt
states_self ((k, v) ∷ d) h = (pod_state_equal_refl v h.0, states_self d h.1)

-- A status whose maps list no key twice equals itself.
pub status_equal_refl :
    (st : PersistentPodStateStatus)
    → NodupKeys (entries st.pod_states)
    → All (λ e. IsSound e.1) (entries st.pod_states)
    → status_equal st st ≡ true
unfolding status_equal
status_equal_refl st h k =
    ground (arith, map_equal_refl pod_state_equal st.pod_states h (states_self _ k))

-- Equal statuses list as many pods.
pub status_equal-length :
    (a b : PersistentPodStateStatus)
    → status_equal a b ≡ true
    → length (entries a.pod_states) ≡ length (entries b.pod_states)
unfolding status_equal map_equal
status_equal-length a b h = ground arith

pub status_equal_maps :
    (a b : PersistentPodStateStatus)
    → status_equal a b ≡ true
    → map_equal pod_state_equal a.pod_states b.pod_states ≡ true
unfolding status_equal
status_equal_maps a b h = ground arith
