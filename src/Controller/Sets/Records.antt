-- ===== src/Controller/Sets/Records.antt =====
-- Two runs for a StatefulSet, from a cluster where its object is stored or not.
use persistent_pod_state.Base.{
  Text, ◌≤◌, true, List, [], ◌∷◌, some, ◌≡◌, ◌⊎◌, inl, inr, refl, sym, ap, subst, ◌∙◌, success,
  failure, Reply-cases, ok, err, panic, arith,
}
use persistent_pod_state.Base.Lists.{length}
use persistent_pod_state.Base.GoMap.{Dict, GoMap, entries, NodupKeys}
use persistent_pod_state.Api.{
  Pod, PodState, IpReservation, StatefulSet, PersistentPodState, zero_status,
}
use persistent_pod_state.Api.Equal.{status_equal, status_equal-length}
use persistent_pod_state.Cluster.{Client, not_found}
use persistent_pod_state.Cluster.Laws.{IsQuiet, KeepsPods, key_of}
use persistent_pod_state.Controller.Reservations.{
  ensure_reservation, create_or_update_reservation, pod_reservation, Outcome,
}
use persistent_pod_state.Controller.Save.{count}
use persistent_pod_state.Controller.Save.Shrink.{save_set_records}
use persistent_pod_state.Controller.Save.Laws.{sent, save_set_absent}
use persistent_pod_state.Controller.Sets.{
  set_state, add_pod_state, visit_pod, collect_pods, set_auto_generate,
}
use persistent_pod_state.Controller.Sets.Laws.{
  collected, saves, wanted-IsPlain, wanted_self, wanted-NodupKeys,
}

module _ (C : Client) (K : KeepsPods C) (ns : Text) (labels : GoMap Text) where
  list_pods-ensure_reservation :
      (want : IpReservation) (s : C.State)
      → C.list_pods (ensure_reservation C want s).1 ns labels ≡ C.list_pods s ns labels
  unfolding ensure_reservation
  list_pods-ensure_reservation want s = elim (Reply-cases (C.get_reservation s want.name)) [
    | inl (e, h) ↦ ground (arith, K.list_pods-create_reservation s want ns labels)
    | inr (x, h) ↦
        let r : IpReservation = record x { reserved_cidrs = want.reserved_cidrs } in
        ground (arith, K.list_pods-update_reservation s r ns labels)
  ]

  list_pods-create_or_update_reservation :
      (pod : Pod) (s : C.State)
      → C.list_pods (create_or_update_reservation C pod s).1 ns labels ≡ C.list_pods s ns labels
  unfolding create_or_update_reservation
  list_pods-create_or_update_reservation pod s =
      ground (arith, list_pods-ensure_reservation (pod_reservation pod) s)

  add_pod_state_cluster :
      (pod : Pod) (o : Outcome C.State) (states : Dict PodState)
      → (add_pod_state C pod o states).1 ≡ o.1
  unfolding add_pod_state
  add_pod_state_cluster pod (ok _, s) states = refl
  add_pod_state_cluster pod (err e, s) states = refl
  add_pod_state_cluster pod (panic, s) states = refl

  list_pods-visit_pod :
      (pod : Pod) (states : Dict PodState) (s : C.State)
      → C.list_pods (visit_pod C pod (states, s)).1 ns labels ≡ C.list_pods s ns labels
  unfolding visit_pod
  list_pods-visit_pod pod states s = ground (
    arith,
    add_pod_state_cluster pod (create_or_update_reservation C pod s) states,
    list_pods-create_or_update_reservation pod s,
  )

  -- The loop leaves the pods alone, whatever the cluster answers.
  pub list_pods-collect_pods :
      (pods : List Pod) (acc : Dict PodState × C.State)
      → C.list_pods (collect_pods C pods acc).1 ns labels ≡ C.list_pods acc.1 ns labels
  unfolding collect_pods
  list_pods-collect_pods [] acc = refl
  list_pods-collect_pods (pod ∷ pods) acc =
      list_pods-collect_pods pods (visit_pod C pod acc) ∙ list_pods-visit_pod pod acc.0 acc.1

-- The object of the StatefulSet has the states, each under a name of its own.
abbrev pub IsListed : (C : Client) → StatefulSet → Dict PodState → C.State → Type 0
IsListed C sts states u =
    (q : PersistentPodState) × (C.get_state u (key_of sts.meta) ≡ success q)
    × (status_equal q.status (set_state sts states).status ≡ true)
    × NodupKeys (entries q.status.pod_states)

-- What is stored for the StatefulSet lists no pod twice, and no more pods than the states do.
abbrev pub Fits : (C : Client) → StatefulSet → Dict PodState → C.State → Type 0
Fits C sts states s =
    (x : PersistentPodState)
    → C.get_state s (key_of sts.meta) ≡ success x
    → (count x ≤ length states) × NodupKeys (entries x.status.pod_states)

module _ (C : Client) (Q : IsQuiet C) (K : KeepsPods C) (sts : StatefulSet) (labels : GoMap Text)
    (pod : Pod) (pods : List Pod) (state : Text × PodState) (states : Dict PodState)
    (selects : sts.selector ≡ some labels)
    (collects : collected (pod ∷ pods) [] ≡ state ∷ states) where
  abbrev Lists : C.State → Type 0
  Lists s = C.list_pods s sts.meta.namespace labels ≡ success (pod ∷ pods)

  abbrev Run : C.State → C.State → Type 0
  Run s t = set_auto_generate C sts s ≡ (ok tt, t)

  abbrev Goal : PersistentPodState
  Goal = set_state sts (state ∷ states)

  -- The pods are still listed when the loop has ended.
  Lists-collect_pods :
      (s t : C.State) → Lists s → t ≡ (collect_pods C (pod ∷ pods) ([], s)).1 → Lists t
  Lists-collect_pods s t lists after =
      ap (λ u. C.list_pods u sts.meta.namespace labels) after
      ∙ list_pods-collect_pods C K sts.meta.namespace labels (pod ∷ pods) ([], s)
      ∙ lists

  Lists-saved :
      (x : PersistentPodState) (t u : C.State)
      → Lists t
      → (u ≡ t) ⊎ (u ≡ (C.update_status (sent Goal x) t).1)
      → Lists u
  Lists-saved x t u lists (inl e) = subst Lists (sym e) lists
  Lists-saved x t u lists (inr e) =
      subst Lists (sym e)
        (K.list_pods-update_status t (sent Goal x) sts.meta.namespace labels ∙ lists)

  run_found :
      (s : C.State) (x : PersistentPodState)
      → Lists s
      → C.get_state s (key_of sts.meta) ≡ success x
      → count x ≤ length (state ∷ states)
      → NodupKeys (entries x.status.pod_states)
      → (t : C.State) × Run s t × IsListed C sts (state ∷ states) t × Lists t
  run_found s x lists found fewer once =
      let (t, run, same, after) =
        saves C Q sts labels pod pods state states s selects lists collects in
      let (u, (saved, stored, place)) =
        save_set_records C Q Goal t x (same (key_of sts.meta) ∙ found)
          (wanted-IsPlain C Q sts labels pod pods state states s selects lists collects)
          (wanted_self C Q sts labels pod pods state states s selects lists collects)
          (wanted-NodupKeys C Q sts labels pod pods state states s selects lists collects) fewer
          once in
      (u, run ∙ saved, stored, Lists-saved x t u (Lists-collect_pods s t lists after) place)

  run_absent :
      (s : C.State)
      → Lists s
      → C.get_state s (key_of sts.meta) ≡ failure not_found
      → (t : C.State) × (x : PersistentPodState) × Run s t
        × (C.get_state t (key_of sts.meta) ≡ success x)
        × (x.status ≡ zero_status)
        × Lists t
  run_absent s lists absent =
      let (t, run, same, after) =
        saves C Q sts labels pod pods state states s selects lists collects in
      let absent' = same (key_of sts.meta) ∙ absent in
      let (x, stored, spec, empty) = Q.get-create_state t Goal absent' in
      (
        (C.create_state Goal t).1,
        x,
        run ∙ save_set_absent C Q Goal t absent',
        stored,
        empty,
        K.list_pods-create_state t Goal sts.meta.namespace labels
            ∙ Lists-collect_pods s t lists after,
      )

  run_absent_records :
      (s : C.State)
      → Lists s
      → C.get_state s (key_of sts.meta) ≡ failure not_found
      → (t u : C.State) × Run s t × Run t u × IsListed C sts (state ∷ states) u
  run_absent_records s lists absent =
      let (t, x, first, stored, empty, lists') = run_absent s lists absent in
      let (u, second, listed, more) =
        run_found t x lists' stored
          (subst (λ st. length (entries st.pod_states) ≤ length (state ∷ states)) (sym empty)
            (omega arith))
          (subst (λ st. NodupKeys (entries st.pod_states)) (sym empty) tt) in
      (t, u, first, second, listed)

  run_found_records :
      (s : C.State) (x : PersistentPodState)
      → Lists s
      → C.get_state s (key_of sts.meta) ≡ success x
      → Fits C sts (state ∷ states) s
      → (t u : C.State) × Run s t × Run t u × IsListed C sts (state ∷ states) u
  run_found_records s x lists found fits =
      let (fewer, once) = fits x found in
      let (t, first, (y, stored, same, once'), lists') = run_found s x lists found fewer once in
      let (u, second, listed, more) =
        run_found t y lists' stored (omega (arith, status_equal-length y.status Goal.status same))
          once' in
      (t, u, first, second, listed)

  -- In a quiet cluster where what is stored for the StatefulSet lists no more pods than have an
  -- address and a node, two runs succeed, and the states of those pods are then stored.
  pub set_auto_generate_records :
      (s : C.State)
      → Lists s
      → Fits C sts (state ∷ states) s
      → (t u : C.State) × Run s t × Run t u × IsListed C sts (state ∷ states) u
  set_auto_generate_records s lists fits = elim (Q.get_state_answered s (key_of sts.meta)) [
    | inl absent ↦ run_absent_records s lists absent
    | inr (x, found) ↦ run_found_records s x lists found fits
  ]
