-- ===== src/Controller/Sets/Laws.antt =====
-- What a run for a StatefulSet records, in a quiet cluster.
use persistent_pod_state.Base.{
  Text, ◌≤◌, ◌<◌, true, false, ◌||◌, ◌==◌, text_eq, some, List, [], ◌∷◌, ◌≡◌, ◌⊎◌, inl, inr, refl,
  sym, ap, subst, ◌∙◌, success, failure, ok, Bool-cases, arith, if◌then◌else◌,
}
use persistent_pod_state.Base.Strings.{is_empty}
use persistent_pod_state.Base.Lists.{All}
use persistent_pod_state.Base.GoMap.{
  Dict, GoMap, entries, insert, lookup-nil, NodupKeys, insert-NodupKeys,
}
use persistent_pod_state.Api.{NamespacedName, Pod, StatefulSet, PodState, PersistentPodState}
use persistent_pod_state.Api.Equal.{IsSound, status_equal, status_equal_refl}
use persistent_pod_state.Cluster.{Client, not_found}
use persistent_pod_state.Cluster.Laws.{IsQuiet, IsPlain, IsPlainState, key_of}
use persistent_pod_state.Controller.Reservations.{create_or_update_reservation, pod_reservation}
use persistent_pod_state.Controller.Reservations.Laws.{ensure_reservation_reserves}
use persistent_pod_state.Controller.Save.{count, save_set}
use persistent_pod_state.Controller.Save.Laws.{IsCreated, save_set_creates}
use persistent_pod_state.Controller.Save.Shrink.{save_set_keeps}
use persistent_pod_state.Controller.Vmi.{pod_state}
use persistent_pod_state.Controller.Sets.{
  set_state, add_pod_state, visit_pod, collect_pods, save_collected, generate_for,
  set_auto_generate,
}

-- The states that the loop should collect: of each pod with an address and a node, the last one of
-- a name counts.
unfoldable pub collected : List Pod → Dict PodState → Dict PodState
collected [] states = states
collected (pod ∷ pods) states = collected pods (
    if is_empty pod.pod_ip || is_empty pod.node_name
    then states
    else insert pod.meta.name (pod_state pod.node_name pod.pod_ip) states)

module _ (C : Client) (Q : IsQuiet C) where
  -- The same PersistentPodStates are stored.
  abbrev SameStates : C.State → C.State → Type 0
  SameStates s t = (k : NamespacedName) → C.get_state t k ≡ C.get_state s k

  -- A pod with an address is reserved and its state is added.
  reserved :
      (pod : Pod) (s : C.State)
      → is_empty pod.pod_ip ≡ false
      → (t : C.State) × (create_or_update_reservation C pod s ≡ (ok tt, t)) × SameStates s t
  unfolding create_or_update_reservation
  reserved pod s h =
      let (t, e) = ensure_reservation_reserves C Q (pod_reservation pod) s in (t, rw h e.0, e.2)

  visit_added :
      (pod : Pod) (states : Dict PodState) (s t : C.State)
      → is_empty pod.pod_ip || is_empty pod.node_name ≡ false
      → create_or_update_reservation C pod s ≡ (ok tt, t)
      → visit_pod C pod (states, s)
        ≡ (insert pod.meta.name (pod_state pod.node_name pod.pod_ip) states, t)
  unfolding visit_pod add_pod_state
  visit_added pod states s t e h = rw e (ap (λ o. add_pod_state C pod o states) h)

  visit_skipped :
      (pod : Pod) (states : Dict PodState) (s : C.State)
      → is_empty pod.pod_ip || is_empty pod.node_name ≡ true
      → visit_pod C pod (states, s) ≡ (states, s)
  unfolding visit_pod
  visit_skipped pod states s e = rw e refl

  -- The loop collects those states and leaves the PersistentPodStates alone.
  pub collect_pods-collected :
      (pods : List Pod) (states : Dict PodState) (s : C.State)
      → (t : C.State) × (collect_pods C pods (states, s) ≡ (collected pods states, t))
        × SameStates s t
  unfolding collect_pods collected
  collect_pods-collected [] states s = (s, refl, λ k. refl)
  collect_pods-collected (pod ∷ pods) states s =
      elim (Bool-cases (is_empty pod.pod_ip || is_empty pod.node_name)) [
        | inl e ↦
            let (t, run, same) = collect_pods-collected pods states s in
            (t, ap (collect_pods C pods) (visit_skipped pod states s e) ∙ rw e run, same)
        | inr e ↦
            let (t, h, same) = reserved pod s (ground arith) in
            let (u, run, more) =
              collect_pods-collected pods
                (insert pod.meta.name (pod_state pod.node_name pod.pod_ip) states) t in
            (
              u,
              ap (collect_pods C pods) (visit_added pod states s t e h) ∙ rw e run,
              λ k. more k ∙ same k,
            )
      ]

All-insert :
    {V : Type 0} (P : Text × V → Type 0) (k : Text) (v : V) (d : Dict V)
    → P (k, v)
    → All P d
    → All P (insert k v d)
unfolding insert
All-insert P k v [] h hs = (h, tt)
All-insert P k v ((j, w) ∷ d) h hs = elim (Bool-cases (j == k)) [
  | inl e ↦ rw e (h, hs.1)
  | inr e ↦ rw e (hs.0, All-insert P k v d h hs.1)
]

collected-All :
    (P : Text × PodState → Type 0)
    → ((name node ip : Text) → P (name, pod_state node ip))
    → (pods : List Pod) (states : Dict PodState) → All P states
    → All P (collected pods states)
unfolding collected
collected-All P h [] states hs = hs
collected-All P h (pod ∷ pods) states hs =
    elim (Bool-cases (is_empty pod.pod_ip || is_empty pod.node_name)) [
      | inl e ↦ rw e (collected-All P h pods states hs)
      | inr e ↦ rw e (collected-All P h pods _ (All-insert P _ _ states (h _ _ _) hs))
    ]

collected-NodupKeys :
    (pods : List Pod) (states : Dict PodState)
    → NodupKeys states
    → NodupKeys (collected pods states)
unfolding collected
collected-NodupKeys [] states h = h
collected-NodupKeys (pod ∷ pods) states h =
    elim (Bool-cases (is_empty pod.pod_ip || is_empty pod.node_name)) [
      | inl e ↦ rw e (collected-NodupKeys pods states h)
      | inr e ↦ rw e (collected-NodupKeys pods _ (insert-NodupKeys _ _ states h))
    ]

pod_state-IsPlainState : (name node ip : Text) → IsPlainState (name, pod_state node ip)
unfolding pod_state
pod_state-IsPlainState name node ip = (tt, tt)

pod_state-IsSound : (name node ip : Text) → IsSound (pod_state node ip)
unfolding pod_state
pod_state-IsSound name node ip = ((lookup-nil _, tt), tt)

module _ (C : Client) (Q : IsQuiet C) (sts : StatefulSet) (labels : GoMap Text) (pod : Pod)
    (pods : List Pod) (state : Text × PodState) (states : Dict PodState) (s : C.State)
    (selects : sts.selector ≡ some labels)
    (lists : C.list_pods s sts.meta.namespace labels ≡ success (pod ∷ pods))
    (collects : collected (pod ∷ pods) [] ≡ state ∷ states) where
  -- What is to be stored.
  abbrev pub wanted : PersistentPodState
  wanted = set_state sts (state ∷ states)

  pub wanted-IsPlain : IsPlain wanted.status
  wanted-IsPlain = (
    tt,
    subst (All IsPlainState) collects
        (collected-All IsPlainState pod_state-IsPlainState (pod ∷ pods) [] tt),
  )

  pub wanted-NodupKeys : NodupKeys (entries wanted.status.pod_states)
  wanted-NodupKeys = subst NodupKeys collects (collected-NodupKeys (pod ∷ pods) [] tt)

  pub wanted_self : status_equal wanted.status wanted.status ≡ true
  wanted_self = status_equal_refl wanted.status wanted-NodupKeys (
      subst (All (λ e. IsSound e.1)) collects
        (collected-All (λ e. IsSound e.1) pod_state-IsSound (pod ∷ pods) [] tt))

  generates : set_auto_generate C sts s ≡ save_collected C sts (collect_pods C (pod ∷ pods) ([], s))
  unfolding set_auto_generate generate_for
  generates = rw (selects, set_auto_generate) (rw (lists, generate_for) refl)

  pub saves :
      (t : C.State) × (set_auto_generate C sts s ≡ save_set C wanted t)
      × ((k : NamespacedName) → C.get_state t k ≡ C.get_state s k)
      × (t ≡ (collect_pods C (pod ∷ pods) ([], s)).1)
  unfolding save_collected
  saves =
      let (t, run, same) = collect_pods-collected C Q (pod ∷ pods) [] s in
      (
        t,
        generates ∙ ap (save_collected C sts) run ∙ ap (λ d. save_collected C sts (d, t)) collects,
        same,
        ap (λ r. r.1) (sym run),
      )

  -- For a StatefulSet with a selector whose pods are listed, at least one with an address and a
  -- node, and whose object is not stored: in a quiet cluster a run succeeds and creates the
  -- object, with no status yet.
  pub set_auto_generate_creates :
      C.get_state s (key_of sts.meta) ≡ failure not_found
      → (u : C.State) × (set_auto_generate C sts s ≡ (ok tt, u)) × IsCreated C wanted u
  set_auto_generate_creates absent =
      let (t, run, same, after) = saves in
      let (u, saved, created, keeps) =
        save_set_creates C Q wanted t (same (key_of sts.meta) ∙ absent) in
      (u, run ∙ saved, created)

  -- For a StatefulSet with a selector whose pods are listed, at least one with an address and a
  -- node, and whose object is stored: in a quiet cluster a run succeeds, and the object then lists
  -- no fewer pods than before: it has the states that were collected, or it is unchanged, where
  -- those are fewer.
  pub set_auto_generate_keeps :
      (x : PersistentPodState)
      → C.get_state s (key_of sts.meta) ≡ success x
      → (u : C.State) × (set_auto_generate C sts s ≡ (ok tt, u))
        × ((q : PersistentPodState) × (C.get_state u (key_of sts.meta) ≡ success q)
            × (count x ≤ count q)
            × ((status_equal q.status wanted.status ≡ true) ⊎ ((count wanted < count x) × (q ≡ x))))
  set_auto_generate_keeps x found =
      let (t, run, same, after) = saves in
      let (u, (saved, kept)) =
        save_set_keeps C Q wanted t x (same (key_of sts.meta) ∙ found) wanted-IsPlain wanted_self in
      (u, run ∙ saved, kept)
