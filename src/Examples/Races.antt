-- ===== src/Examples/Races.antt =====
-- A run for the example StatefulSet while others write its object.
use persistent_pod_state.Controller.Save.Race.Alone.{Agrees, save_set-Agrees}
use persistent_pod_state.Base.{
  ◌+◌, ◌*◌, ◌≤◌, some, [], ◌∷◌, codes, ok, refl, arith, text_eq, nat_eq,
}
use persistent_pod_state.Base.Int.{int_eq}
use persistent_pod_state.Base.GoMap.{map_equal, lookup}
use native.Mathlib.Decide.{ℕ_discrete}
use persistent_pod_state.Api.{PersistentPodState, zero_status}
use persistent_pod_state.Api.Equal.{status_equal}
use persistent_pod_state.Controller.Vmi.{pod_state}
use persistent_pod_state.Controller.Sets.{set_state}
use persistent_pod_state.Controller.Save.Race.{
  Stored, Server, put, reading, updating, returned, Move, get_other, read_found, update_done,
  update_conflict, store, Reach, here, moved, disturbed,
}
use persistent_pod_state.Controller.Save.Race.Laws.{IsClocked, Wrote, Reach-bound, Reach-Wrote}
use persistent_pod_state.Controller.Save.Race.Guard.{
  HasFewer, StillLists, Loses, Reach-StillLists, larger_status_lost,
}
use persistent_pod_state.Examples.Objects.{stateful_set, recorded, web_state}

-- The object as it was created, with no status yet.
abbrev created : Stored
created = record { object = record web_state { status = zero_status }; version = 7 }

abbrev start : Server
start = record { stored = some created; clock = 7 }

start-IsClocked : IsClocked start
start-IsClocked v h = ground arith

-- With the states of two pods.
abbrev two_pods : PersistentPodState
two_pods = set_state stateful_set ((codes "web-0", recorded) ∷ (codes "web-1", recorded) ∷ [])

abbrev written : Server
written = put created.object start

-- Another one has written when the run updates, so it is in conflict.
conflicting : Reach 4 web_state (HasFewer web_state) start 3 written (reading 3)
unfolding status_equal map_equal int_eq ℕ_discrete text_eq nat_eq lookup pod_state
conflicting =
    moved
      (disturbed (moved (moved here (get_other created refl refl refl)) (read_found 3 created refl))
        (store created.object (omega arith)))
      (update_conflict 3 created.object 7 (record { object = created.object; version = 8 }) refl
        (omega arith))

abbrev again : Stored
again = record { object = created.object; version = 8 }

-- The second try.
retried : Reach 4 web_state (HasFewer web_state) start 4 written (updating 2 created.object 8)
retried = moved conflicting (read_found 2 again refl)

Reach-bound_example : 4 + (2 * 2 + 2) ≤ 2 * 4 + 3
Reach-bound_example = Reach-bound retried

abbrev finished : Server
finished = put (record created.object { status = web_state.status }) written

last_step : Move 4 web_state written (updating 2 created.object 8) finished (returned (ok tt))
last_step = update_done 2 created.object 8 again refl refl

Reach-Wrote_example : Wrote web_state written finished
Reach-Wrote_example = Reach-Wrote start-IsClocked retried last_step

Reach-StillLists_example : StillLists written finished
Reach-StillLists_example = Reach-StillLists retried last_step

larger_status_lost_example : Loses 4 web_state start two_pods
unfolding status_equal map_equal int_eq ℕ_discrete text_eq nat_eq lookup pod_state
larger_status_lost_example =
    larger_status_lost 3 web_state two_pods start created refl refl refl (omega arith)

save_set-Agrees_example : Agrees 4 web_state start
save_set-Agrees_example = save_set-Agrees 3 web_state start
