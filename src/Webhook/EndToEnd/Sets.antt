-- ===== src/Webhook/EndToEnd/Sets.antt =====
-- Controller and webhook together: the record of a StatefulSet's pods, and the creation of one of
-- them again.
use persistent_pod_state.Base.{
  Text, true, false, ◌≡◌, ◌≢◌, ap, sym, ◌∙◌, some, List, [], ◌∷◌, ◌++◌, success, ok, arith, refl,
  subst,
}
use persistent_pod_state.Base.Strings.{is_empty}
use persistent_pod_state.Base.Lists.{All}
use persistent_pod_state.Base.GoMap.{Dict, GoMap, get, lookup, NodupKeys, entries}
use persistent_pod_state.Base.GoMap.Swapped.{get-map_equal_swapped}
use persistent_pod_state.Features.{PersistenceConfig}
use persistent_pod_state.Api.{
  NamespacedName, Pod, VirtualMachineInstance, StatefulSet, PodState, PersistentPodStateStatus,
}
use persistent_pod_state.Api.Equal.{pod_state_equal, status_equal, status_equal_maps, same_address}
use persistent_pod_state.Cluster.{Client}
use persistent_pod_state.Cluster.Laws.{IsQuiet, KeepsPods}
use persistent_pod_state.Controller.Vmi.{pod_state}
use persistent_pod_state.Controller.Sets.{set_auto_generate, set_state}
use persistent_pod_state.Controller.Sets.Laws.{collected}
use persistent_pod_state.Controller.Sets.Loop.{collected-append, lookup-collected_self}
use persistent_pod_state.Controller.Sets.Records.{IsListed, Fits, set_auto_generate_records}
use persistent_pod_state.Webhook.SetName.{get_stateful_set_name}
use persistent_pod_state.Webhook.Mutating.{Request, Codec, pin_pod, handle}
use persistent_pod_state.Webhook.Mutating.Pinned.{IsPinned, IsPodCreate, answer, of_pods}
use persistent_pod_state.Webhook.Mutating.Created.{namespace_of, handle-pod-IsPinned}

-- A pod with an address and a node, whose name no later pod has.
pub record IsPlaced (pod : Pod) (after : List Pod) : Type 0 where
  pub has_address : is_empty pod.pod_ip ≡ false
  pub has_node : is_empty pod.node_name ≡ false
  pub is_last : All (λ p. p.meta.name ≢ pod.meta.name) after

lookup-collected :
    (before after : List Pod) (pod : Pod)
    → IsPlaced pod after
    → lookup pod.meta.name (collected (before ++ pod ∷ after) [])
      ≡ some (pod_state pod.node_name pod.pod_ip)
lookup-collected before after pod w =
    ap (lookup pod.meta.name) (collected-append before (pod ∷ after) [])
    ∙ lookup-collected_self pod after _ (rw w.has_address w.has_node) w.is_last

-- A list with an entry is its first one and the others.
cons_of :
    {A : Type 0} (before after : List A) (a : A)
    → (x : A) × (xs : List A) × (before ++ a ∷ after ≡ x ∷ xs)
cons_of [] after a = (a, after, refl)
cons_of (b ∷ before) after a = (b, before ++ a ∷ after, refl)

cons_of-lookup :
    (k : Text) (d : Dict PodState) (v : PodState)
    → lookup k d ≡ some v
    → (e : Text × PodState) × (es : Dict PodState) × (d ≡ e ∷ es)
unfolding lookup
cons_of-lookup k [] v h = ground arith
cons_of-lookup k (e ∷ es) v h = (e, es, refl)

current_files :
    (sts : StatefulSet) (states : Dict PodState) (k : Text) (v : PodState)
    (st : PersistentPodStateStatus)
    → status_equal st (set_state sts states).status ≡ true
    → NodupKeys (entries st.pod_states)
    → lookup k states ≡ some v
    → (w : PodState) × (get st.pod_states k ≡ some w) × (pod_state_equal w v ≡ true)
current_files sts states k v st h once found =
    get-map_equal_swapped pod_state_equal st.pod_states (some states) k v
      (status_equal_maps st (set_state sts states).status h) once found

address :
    (pod : Pod) (state : PodState)
    → pod_state_equal state (pod_state pod.node_name pod.pod_ip) ≡ true
    → (state.pod_ip ≡ pod.pod_ip) × (state.node_name ≡ pod.node_name)
unfolding pod_state
address pod state h = same_address state _ h

module _ (C : Client) (Q : IsQuiet C) (pods : Codec Pod) (vmis : Codec VirtualMachineInstance)
    (cfg : PersistenceConfig) (req : Request) where
  -- The answer to a request that creates `pod`: it is pinned to the address and the node.
  pub record IsPodPinnedTo (u : C.State) (pod : Pod) (ip node : Text) : Type 0 where
    pub state : PodState
    pub same_ip : state.pod_ip ≡ ip
    pub same_node : state.node_name ≡ node
    pub response :
        handle C pods vmis u cfg req ≡ answer (of_pods C pods vmis u) pod (pin_pod state pod)
    pub pinned : IsPinned state pod.meta (pin_pod state pod).meta (pin_pod state pod).affinity

  -- The pod is created again, in the StatefulSet.
  pub record IsCreatedAgain (sts : StatefulSet) (pod again : Pod) : Type 0 where
    pub creates : IsPodCreate pods cfg req again
    pub same_name : again.meta.name ≡ pod.meta.name
    pub same_namespace : namespace_of req again.meta ≡ sts.meta.namespace
    pub set_name : get_stateful_set_name again ≡ sts.meta.name
    pub named : is_empty sts.meta.name ≡ false

  pod_pinned :
      (sts : StatefulSet) (before after : List Pod) (pod again : Pod) (u : C.State)
      → IsPlaced pod after
      → IsCreatedAgain sts pod again
      → IsListed C sts (collected (before ++ pod ∷ after) []) u
      → IsPodPinnedTo u again pod.pod_ip pod.node_name
  pod_pinned sts before after pod again u w a (q, stored, same, once) =
      let (state, found, equal) =
        current_files sts (collected (before ++ pod ∷ after) []) pod.meta.name _ q.status same once
          (lookup-collected before after pod w) in
      let (ip_path, node_path) = address pod state equal in
      let key : ◌≡◌ {A = NamespacedName}
          (record { namespace = namespace_of req again.meta; name = get_stateful_set_name again })
          (record { namespace = sts.meta.namespace; name = sts.meta.name }) =
        λ i. record { namespace = a.same_namespace i; name = a.set_name i } in
      let result =
        handle-pod-IsPinned C pods vmis u cfg req again q state a.creates
          (ap is_empty a.set_name ∙ a.named) (ap (C.get_state u) key ∙ stored)
          (ap (get q.status.pod_states) a.same_name ∙ found)
          (ap is_empty ip_path ∙ w.has_address, ap is_empty node_path ∙ w.has_node) in
      record {
        state = state;
        same_ip = ip_path;
        same_node = node_path;
        response = result.0;
        pinned = result.1;
      }

  -- For a StatefulSet with a selector, whose pods are listed and whose stored object, if there is
  -- one, lists no pod twice and no more pods than have an address and a node, in a quiet cluster
  -- where writes leave the pods alone: two runs of the controller succeed, whereupon a request
  -- that creates one of these pods again, of a name that no later pod of the list has, counted to
  -- that StatefulSet, with StatefulSets persisted, is answered by the pod pinned to the address
  -- and the node that it had.
  pub handle-set_auto_generate :
      (sts : StatefulSet) (labels : GoMap Text) (before after : List Pod) (pod again : Pod)
      (s : C.State)
      → KeepsPods C
      → sts.selector ≡ some labels
      → C.list_pods s sts.meta.namespace labels ≡ success (before ++ pod ∷ after)
      → IsPlaced pod after
      → Fits C sts (collected (before ++ pod ∷ after) []) s
      → IsCreatedAgain sts pod again
      → (t u : C.State) × (set_auto_generate C sts s ≡ (ok tt, t))
        × (set_auto_generate C sts t ≡ (ok tt, u))
        × IsPodPinnedTo u again pod.pod_ip pod.node_name
  handle-set_auto_generate sts labels before after pod again s keeps selects lists w fits a =
      let (first, others, split) = cons_of before after pod in
      let (e, es, cut) = cons_of-lookup _ _ _ (lookup-collected before after pod w) in
      let collects : collected (first ∷ others) [] ≡ e ∷ es =
        ap (λ l. collected l []) (sym split) ∙ cut in
      let (t, u, run, again', listed) =
        set_auto_generate_records C Q keeps sts labels first others e es selects collects s
          (lists ∙ ap success split) (subst (λ d. Fits C sts d s) cut fits) in
      (
        t,
        u,
        run,
        again',
        pod_pinned sts before after pod again u w a
            (subst (λ d. IsListed C sts d u) (sym cut) listed),
      )
