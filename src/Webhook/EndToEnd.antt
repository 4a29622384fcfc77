-- ===== src/Webhook/EndToEnd.antt =====
-- Controller and webhook together: the record of a VMI, and its creation again.
pub mod Sets
use persistent_pod_state.Base.{Text, true, false, ◌≡◌, ap, ◌∙◌, some, none, [], ◌∷◌, ok, arith}
use persistent_pod_state.Base.Strings.{is_empty}
use persistent_pod_state.Base.GoMap.{GoMap, get, lookup, entries_within, has_entry, map_equal}
use persistent_pod_state.Features.{PersistenceConfig}
use persistent_pod_state.Api.{
  NamespacedName, OwnerReference, Pod, VirtualMachineInstance, PodState, PersistentPodStateStatus,
}
use persistent_pod_state.Api.Equal.{pod_state_equal, status_equal, status_equal_maps, same_address}
use persistent_pod_state.Cluster.{Client}
use persistent_pod_state.Cluster.Laws.{IsQuiet}
use persistent_pod_state.Controller.Vmi.{pod_state, vmi_status, vmi_auto_generate}
use persistent_pod_state.Controller.Vmi.Laws.{IsOwned, IsPersisted, vmi_auto_generate_converges}
use persistent_pod_state.Webhook.Mutating.{Request, Codec, pin_vmi, handle}
use persistent_pod_state.Webhook.Mutating.Pinned.{IsPinned, IsVmiCreate, answer, of_vmis}
use persistent_pod_state.Webhook.Mutating.Created.{namespace_of, handle-vmi-IsPinned}

-- A status that equals that of a VMI lists it, with its address and its node.
listed :
    (vmi : VirtualMachineInstance) (ip : Text) (m : GoMap PodState)
    → map_equal pod_state_equal m (some ((vmi.meta.name, pod_state vmi.node_name ip) ∷ [])) ≡ true
    → (state : PodState) × (get m vmi.meta.name ≡ some state)
      × (pod_state_equal state (pod_state vmi.node_name ip) ≡ true)
unfolding map_equal entries_within has_entry lookup
listed vmi ip none h = ground arith
listed vmi ip (some []) h = ground arith
listed vmi ip (some ((k, v) ∷ [])) h = (v, ground arith, ground arith)
listed vmi ip (some (e ∷ f ∷ d)) h = ground arith

current_files :
    (vmi : VirtualMachineInstance) (ip : Text) (m : GoMap PodState)
    → map_equal pod_state_equal m (vmi_status vmi ip).pod_states ≡ true
    → map_equal pod_state_equal m (some ((vmi.meta.name, pod_state vmi.node_name ip) ∷ [])) ≡ true
unfolding vmi_status
current_files vmi ip m h = h

address :
    (vmi : VirtualMachineInstance) (ip : Text) (state : PodState)
    → pod_state_equal state (pod_state vmi.node_name ip) ≡ true
    → (state.pod_ip ≡ ip) × (state.node_name ≡ vmi.node_name)
unfolding pod_state
address vmi ip state h = same_address state _ h

module _ (C : Client) (Q : IsQuiet C) (pods : Codec Pod) (vmis : Codec VirtualMachineInstance)
    (cfg : PersistenceConfig) (req : Request) where
  -- The answer to a request that creates `vmi`: it is pinned to the address and the node.
  pub record IsPinnedTo (u : C.State) (vmi : VirtualMachineInstance) (ip node : Text) : Type 0 where
    pub state : PodState
    pub same_ip : state.pod_ip ≡ ip
    pub same_node : state.node_name ≡ node
    pub response :
        handle C pods vmis u cfg req ≡ answer (of_vmis C pods vmis u) vmi (pin_vmi state vmi)
    pub pinned : IsPinned state vmi.meta (pin_vmi state vmi).meta (pin_vmi state vmi).affinity

  pinned_at :
      (vmi again : VirtualMachineInstance) (ip : Text) (owner : OwnerReference) (u : C.State)
      → IsOwned vmi ip owner
      → is_empty vmi.node_name ≡ false
      → IsPersisted C vmi ip owner u
      → IsVmiCreate vmis cfg req again
      → again.meta.name ≡ vmi.meta.name
      → namespace_of req again.meta ≡ vmi.meta.namespace
      → IsPinnedTo u again ip vmi.node_name
  pinned_at vmi again ip owner u w node (reserved, (q, stored, same)) creates name namespace =
      let (state, found, equal) = listed vmi ip q.status.pod_states (
        current_files vmi ip q.status.pod_states
          (status_equal_maps q.status (vmi_status vmi ip) same)) in
      let (ip_path, node_path) = address vmi ip state equal in
      let key : ◌≡◌ {A = NamespacedName}
          (record { namespace = namespace_of req again.meta; name = again.meta.name })
          (record { namespace = vmi.meta.namespace; name = vmi.meta.name }) =
        λ i. record { namespace = namespace i; name = name i } in
      let result =
        handle-vmi-IsPinned C pods vmis u cfg req again q state creates
          (ap (C.get_state u) key ∙ stored) (ap (get q.status.pod_states) name ∙ found)
          (ap is_empty ip_path ∙ w.is_valid, ap is_empty node_path ∙ node) in
      record {
        state = state;
        same_ip = ip_path;
        same_node = node_path;
        response = result.0;
        pinned = result.1;
      }

  -- For a VMI with an address, a node and an owner, in a quiet cluster: two runs of the controller
  -- succeed, and a request after them that creates a VMI of the same name and namespace, with VMIs
  -- persisted, is answered by that VMI pinned to the same address and node.
  pub handle-vmi_auto_generate :
      (vmi again : VirtualMachineInstance) (ip : Text) (owner : OwnerReference) (s : C.State)
      → IsOwned vmi ip owner
      → is_empty vmi.node_name ≡ false
      → IsVmiCreate vmis cfg req again
      → again.meta.name ≡ vmi.meta.name
      → namespace_of req again.meta ≡ vmi.meta.namespace
      → (t u : C.State) × (vmi_auto_generate C vmi s ≡ (ok tt, t))
        × (vmi_auto_generate C vmi t ≡ (ok tt, u))
        × IsPinnedTo u again ip vmi.node_name
  handle-vmi_auto_generate vmi again ip owner s w node creates name namespace =
      let (t, u, first, second, done, third) = vmi_auto_generate_converges C vmi ip owner w Q s in
      (t, u, first, second, pinned_at vmi again ip owner u w node done creates name namespace)
