-- ===== src/Controller/Save/Race.antt =====
-- How `StatefulSetAutoGeneratePersistentPodState`
-- (internal/controller/apps/persistentpodstate_statefulset.go) stores its object while others
-- write it too: a call of the API server at a time.
pub mod Laws
pub mod Guard
pub mod Alone
use persistent_pod_state.Base.{
  ℕ, zero, suc, ◌+◌, ◌≤◌, ◌<◌, ltb, Bool, true, false, Option, none, some, Result, ok, err, ◌≡◌,
  ◌≢◌,
}
use persistent_pod_state.Api.{PersistentPodState, zero_status}
use persistent_pod_state.Api.Equal.{status_equal}
use persistent_pod_state.Cluster.{ApiError, not_found, conflict, is_not_found, is_already_exists}
use persistent_pod_state.Controller.Save.{count}
use persistent_pod_state.Controller.Save.Laws.{sent}

-- The object under the key, with its resource version, and the last version that was given out.
pub record Stored : Type 0 where
  pub object : PersistentPodState
  pub version : ℕ

pub record Server : Type 0 where
  pub stored : Option Stored
  pub clock : ℕ

-- A write gets a new version.
abbrev pub put : PersistentPodState → Server → Server
put x m = record {
  stored = some (record { object = x; version = suc m.clock });
  clock = suc m.clock;
}

-- Where the run stands: before the first `Get`, before `Create`, before the `Get` and before the
-- `Update` of the function that is retried, with the tries that are left and what was read, or at
-- its end.
pub data Pc : Type 0 where
  getting creating : Pc
  reading : (tries : ℕ) → Pc
  updating : (tries : ℕ) → (x : PersistentPodState) → (version : ℕ) → Pc
  returned : Result ApiError (Unit {0}) → Pc

abbrev pub is_conflict : ApiError → Bool
is_conflict conflict = true
is_conflict _ = false

-- One step of the run that is to store `p`. `RetryOnConflict` makes `steps` tries. A call may fail.
-- The `Get` of a try may give a version that is no longer stored, since it is answered from a cache;
-- the first `Get` is taken to be up to date.
pub data Move (steps : ℕ) (p : PersistentPodState) (m : Server) : Pc → Server → Pc → Type 0 where
  get_missing : m.stored ≡ none → Move steps p m getting m creating
  get_failed : (e : ApiError) → is_not_found e ≡ false → Move steps p m getting m (returned (err e))
  get_same :
      (v : Stored)
      → m.stored ≡ some v
      → status_equal v.object.status p.status ≡ true
      → Move steps p m getting m (returned (ok tt))
  get_larger :
      (v : Stored)
      → m.stored ≡ some v
      → status_equal v.object.status p.status ≡ false
      → ltb (count p) (count v.object) ≡ true
      → Move steps p m getting m (returned (ok tt))
  get_other :
      (v : Stored)
      → m.stored ≡ some v
      → status_equal v.object.status p.status ≡ false
      → ltb (count p) (count v.object) ≡ false
      → Move steps p m getting m (reading steps)
  create_done :
      m.stored ≡ none
      → Move steps p m creating (put (record p { status = zero_status }) m) (returned (ok tt))
  create_exists : (v : Stored) → m.stored ≡ some v → Move steps p m creating m (returned (ok tt))
  create_failed :
      (e : ApiError) → is_already_exists e ≡ false → Move steps p m creating m (returned (err e))
  read_found :
      (tries : ℕ) (v : Stored)
      → m.stored ≡ some v
      → Move steps p m (reading (suc tries)) m (updating tries v.object v.version)
  read_old :
      (tries : ℕ) (x : PersistentPodState) (version : ℕ)
      → version ≤ m.clock
      → ((v : Stored) → m.stored ≡ some v → version < v.version)
      → Move steps p m (reading (suc tries)) m (updating tries x version)
  read_missing :
      (tries : ℕ)
      → m.stored ≡ none
      → Move steps p m (reading (suc tries)) m (returned (err not_found))
  read_failed :
      (tries : ℕ) (e : ApiError)
      → is_conflict e ≡ false
      → Move steps p m (reading (suc tries)) m (returned (err e))
  given_up : Move steps p m (reading zero) m (returned (err conflict))
  update_done :
      (tries : ℕ) (x : PersistentPodState) (version : ℕ) (v : Stored)
      → m.stored ≡ some v
      → v.version ≡ version
      → Move steps p m
          (updating tries x version)
          (put (record x { status = p.status }) m)
          (returned (ok tt))
  update_conflict :
      (tries : ℕ) (x : PersistentPodState) (version : ℕ) (v : Stored)
      → m.stored ≡ some v
      → v.version ≢ version
      → Move steps p m (updating tries x version) m (reading tries)
  update_missing :
      (tries : ℕ) (x : PersistentPodState) (version : ℕ)
      → m.stored ≡ none
      → Move steps p m (updating tries x version) m (returned (err not_found))
  update_failed :
      (tries : ℕ) (x : PersistentPodState) (version : ℕ) (e : ApiError)
      → is_conflict e ≡ false
      → Move steps p m (updating tries x version) m (returned (err e))

-- What others may do: store an object of a certain kind, or delete it.
pub data Other (Allowed : PersistentPodState → Type 0) (m : Server) : Server → Type 0 where
  store : (x : PersistentPodState) → Allowed x → Other Allowed m (put x m)
  delete : Other Allowed m (record m { stored = none })

-- The run and the others, in any order, with the number of steps of the run.
pub data Reach (steps : ℕ) (p : PersistentPodState) (Allowed : PersistentPodState → Type 0)
    (start : Server) : ℕ → Server → Pc → Type 0 where
  here : Reach steps p Allowed start 0 start getting
  moved :
      {k : ℕ} {m m' : Server} {pc pc' : Pc}
      → Reach steps p Allowed start k m pc
      → Move steps p m pc m' pc'
      → Reach steps p Allowed start (suc k) m' pc'
  disturbed :
      {k : ℕ} {m m' : Server} {pc : Pc}
      → Reach steps p Allowed start k m pc
      → Other Allowed m m'
      → Reach steps p Allowed start k m' pc
