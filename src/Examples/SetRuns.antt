-- ===== src/Examples/SetRuns.antt =====
-- Runs for the example StatefulSet.
use persistent_pod_state.Base.{
  Text, codes, some, List, [], ◌∷◌, ◌≡◌, ◌≤◌, ◌<◌, ◌⊎◌, refl, true, success, ok,
}
use persistent_pod_state.Base.GoMap.{insert}
use persistent_pod_state.Api.{PersistentPodState}
use persistent_pod_state.Api.Equal.{status_equal}
use persistent_pod_state.Cluster.Laws.{key_of}
use persistent_pod_state.Cluster.Memory.{memory, memory-IsQuiet}
use persistent_pod_state.Controller.Save.{count}
use persistent_pod_state.Controller.Sets.{set_auto_generate}
use persistent_pod_state.Controller.Sets.Laws.{collected, set_auto_generate_keeps}
use persistent_pod_state.Examples.Objects.{pod, stateful_set, recorded, web_state, with_pod}

abbrev labels : List (Text × Text)
labels = (codes "app", codes "web") ∷ []

abbrev with_both : memory.State
with_both = record with_pod { states = λ k. some web_state }

collects : collected (pod ∷ []) [] ≡ (codes "web-0", recorded) ∷ []
unfolding collected insert
collects = refl

set_auto_generate_keeps_example :
    (u : memory.State) × (set_auto_generate memory stateful_set with_both ≡ (ok tt, u))
    × ((q : PersistentPodState) × (memory.get_state u (key_of stateful_set.meta) ≡ success q)
        × (count web_state ≤ count q)
        × ((status_equal q.status web_state.status ≡ true)
            ⊎ ((count web_state < count web_state) × (q ≡ web_state))))
set_auto_generate_keeps_example =
    set_auto_generate_keeps memory memory-IsQuiet stateful_set (some labels) pod []
      (codes "web-0", recorded) [] with_both refl refl collects web_state refl
