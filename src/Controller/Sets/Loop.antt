-- ===== src/Controller/Sets/Loop.antt =====
-- Which states the loop over a StatefulSet's pods collects.
use persistent_pod_state.Base.{
  Text, false, ◌||◌, text_eq, some, List, [], ◌∷◌, ◌++◌, ◌≡◌, ◌≢◌, inl, inr, refl, ap, ◌∙◌,
  Bool-cases,
}
use persistent_pod_state.Base.Strings.{is_empty}
use persistent_pod_state.Base.Lists.{All}
use persistent_pod_state.Base.GoMap.{Dict, lookup, lookup-insert_self, lookup-insert_ne}
use persistent_pod_state.Api.{Pod, PodState}
use persistent_pod_state.Cluster.{Client}
use persistent_pod_state.Cluster.Laws.{IsQuiet}
use persistent_pod_state.Controller.Vmi.{pod_state}
use persistent_pod_state.Controller.Sets.{collect_pods}
use persistent_pod_state.Controller.Sets.Laws.{collected, collect_pods-collected}

pub collected-append :
    (before after : List Pod) (states : Dict PodState)
    → collected (before ++ after) states ≡ collected after (collected before states)
unfolding collected
collected-append [] after states = refl
collected-append (pod ∷ before) after states = collected-append before after _

-- Pods of other names leave an entry alone.
lookup-collected_ne :
    (name : Text) (pods : List Pod) (states : Dict PodState)
    → All (λ pod. pod.meta.name ≢ name) pods
    → lookup name (collected pods states) ≡ lookup name states
unfolding collected
lookup-collected_ne name [] states h = refl
lookup-collected_ne name (pod ∷ pods) states h =
    elim (Bool-cases (is_empty pod.pod_ip || is_empty pod.node_name)) [
      | inl e ↦ rw e (lookup-collected_ne name pods states h.1)
      | inr e ↦
          rw e
            (lookup-collected_ne name pods _ h.1 ∙ lookup-insert_ne pod.meta.name name _ states h.0)
    ]

pub lookup-collected_self :
    (pod : Pod) (after : List Pod) (states : Dict PodState)
    → is_empty pod.pod_ip || is_empty pod.node_name ≡ false
    → All (λ p. p.meta.name ≢ pod.meta.name) after
    → lookup pod.meta.name (collected (pod ∷ after) states)
      ≡ some (pod_state pod.node_name pod.pod_ip)
unfolding collected
lookup-collected_self pod after states e h =
    rw e (lookup-collected_ne pod.meta.name after _ h ∙ lookup-insert_self pod.meta.name _ states)

-- In a quiet cluster, the loop collects the address and the node of every pod that has both and
-- whose name no later pod has, whatever reservations there are.
pub lookup-collect_pods :
    (C : Client) (s : C.State) (before after : List Pod) (pod : Pod)
    → IsQuiet C
    → is_empty pod.pod_ip || is_empty pod.node_name ≡ false
    → All (λ p. p.meta.name ≢ pod.meta.name) after
    → lookup pod.meta.name (collect_pods C (before ++ pod ∷ after) ([], s)).0
      ≡ some (pod_state pod.node_name pod.pod_ip)
lookup-collect_pods C s before after pod Q e h =
    let (t, run, same) = collect_pods-collected C Q (before ++ pod ∷ after) [] s in
    ap (λ r. lookup pod.meta.name r.0) run
    ∙ ap (lookup pod.meta.name) (collected-append before (pod ∷ after) [])
    ∙ lookup-collected_self pod after _ e h
