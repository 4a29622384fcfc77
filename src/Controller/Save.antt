-- ===== src/Controller/Save.antt =====
-- Storing a PersistentPodState: the last parts of `VmiAutoGeneratePersistentPodState`
-- (internal/controller/apps/persistentpodstate_controller.go) and of
-- `StatefulSetAutoGeneratePersistentPodState` (persistentpodstate_statefulset.go).
pub mod Laws
pub mod Shrink
pub mod Race
use persistent_pod_state.Base.{
  ℕ, ltb, if◌then◌else◌, Bool, Reply, success, failure, Result, ok, err, pass_on,
}
use persistent_pod_state.Base.Lists.{length}
use persistent_pod_state.Base.GoMap.{entries}
use persistent_pod_state.Api.{PersistentPodState}
use persistent_pod_state.Api.Equal.{status_equal}
use persistent_pod_state.Cluster.{Client, ApiError, is_not_found, is_already_exists, Write}
use persistent_pod_state.Cluster.Laws.{key_of}
use persistent_pod_state.Controller.Reservations.{Outcome, finish}

-- `len(p.Status.PodStates)`
abbrev pub count : PersistentPodState → ℕ
count p = length (entries p.status.pod_states)

-- What follows a create: that somebody else has created the object is no error.
unfoldable pub created : {S : Type 0} → Reply ApiError (Unit {0}) × S → Outcome S
created (success _, s) = (ok tt, s)
created (failure e, s) = (if is_already_exists e then ok tt else err e, s)

module _ (C : Client) (p : PersistentPodState) where
  -- The function that is retried: it reads the object anew and writes the status.
  unfoldable pub write_status : Write C.State
  write_status s = elim (C.get_state s (key_of p.meta)) [
    | failure e ↦ (failure e, s)
    | success current ↦ C.update_status (record current { spec = p.spec; status = p.status }) s
  ]

  -- For a VMI.
  unfoldable pub save_vmi : C.State → Outcome C.State
  unfolding created
  save_vmi s = elim (C.get_state s (key_of p.meta)) [
    | failure e ↦ if is_not_found e then created (C.create_state p s) else (err e, s)
    | success existing ↦
        if status_equal existing.status p.status
        then (ok tt, s)
        else finish (C.retry_on_conflict write_status s)
  ]

  -- For a StatefulSet: a status with fewer pods than the stored one is not written.
  unfoldable pub save_set : C.State → Outcome C.State
  unfolding created
  save_set s = elim (C.get_state s (key_of p.meta)) [
    | failure e ↦ if is_not_found e then created (C.create_state p s) else (err e, s)
    | success existing ↦
        if status_equal existing.status p.status
        then (ok tt, s)
        else if ltb (count p) (count existing)
        then (ok tt, s)
        else finish (C.retry_on_conflict write_status s)
  ]
