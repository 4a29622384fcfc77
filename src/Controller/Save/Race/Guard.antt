-- ===== src/Controller/Save/Race/Guard.antt =====
-- The test for fewer pods stands before the function that is retried: what it is worth while others
-- write.
use persistent_pod_state.Base.{ℕ, suc, ◌≤◌, ◌<◌, ltb, Bool, true, false, some, ok, ◌≡◌, refl, arith}
use persistent_pod_state.Api.{PersistentPodState}
use persistent_pod_state.Api.Equal.{status_equal}
use persistent_pod_state.Controller.Save.{count}
use persistent_pod_state.Controller.Save.Race.{
  Stored, Server, put, Pc, getting, creating, reading, updating, returned, Move, get_missing,
  get_failed, get_same, get_larger, get_other, create_done, create_exists, create_failed,
  read_found, read_missing, read_old, read_failed, given_up, update_done, update_conflict,
  update_missing, update_failed, Other, store, delete, Reach, here, moved, disturbed,
}

-- Objects that list no more pods than the one that is to be stored.
abbrev pub HasFewer : PersistentPodState → PersistentPodState → Type 0
HasFewer p x = count x ≤ count p

-- The test has been passed.
abbrev has_passed : Pc → Bool
has_passed getting = false
has_passed creating = false
has_passed (reading tries) = true
has_passed (updating tries x version) = true
has_passed (returned r) = false

-- Past the test, what is stored lists no more pods.
abbrev IsGuarded : PersistentPodState → Server → Pc → Type 0
IsGuarded p m pc = has_passed pc ≡ true → (v : Stored) → m.stored ≡ some v → HasFewer p v.object

Move-IsGuarded :
    {steps : ℕ} {p : PersistentPodState} {m m' : Server} {pc pc' : Pc}
    → IsGuarded p m pc
    → Move steps p m pc m' pc'
    → IsGuarded p m' pc'
Move-IsGuarded h (get_other v e f l) = λ y w g. ground arith
Move-IsGuarded h (read_found tries v e) = λ y w g. h refl w g
Move-IsGuarded h (update_conflict tries x version v e s) = λ y w g. h refl w g
Move-IsGuarded h (get_missing e) = λ y w g. ground arith
Move-IsGuarded h (get_failed e f) = λ y w g. ground arith
Move-IsGuarded h (get_same v e f) = λ y w g. ground arith
Move-IsGuarded h (get_larger v e f l) = λ y w g. ground arith
Move-IsGuarded h (create_done e) = λ y w g. ground arith
Move-IsGuarded h (create_exists v e) = λ y w g. ground arith
Move-IsGuarded h (create_failed e f) = λ y w g. ground arith
Move-IsGuarded h (read_old tries x version c o) = λ y w g. h refl w g
Move-IsGuarded h (read_missing tries e) = λ y w g. ground arith
Move-IsGuarded h (read_failed tries e f) = λ y w g. ground arith
Move-IsGuarded h given_up = λ y w g. ground arith
Move-IsGuarded h (update_done tries x version v e s) = λ y w g. ground arith
Move-IsGuarded h (update_missing tries x version e) = λ y w g. ground arith
Move-IsGuarded h (update_failed tries x version e f) = λ y w g. ground arith

Other-IsGuarded :
    (p : PersistentPodState) {m m' : Server} (pc : Pc)
    → IsGuarded p m pc
    → Other (HasFewer p) m m'
    → IsGuarded p m' pc
Other-IsGuarded p pc h (store x a) = λ y w g. ground arith
Other-IsGuarded p pc h delete = λ y w g. ground arith

Reach-IsGuarded :
    {steps : ℕ} {p : PersistentPodState} {start m : Server} {k : ℕ} {pc : Pc}
    → Reach steps p (HasFewer p) start k m pc
    → IsGuarded p m pc
Reach-IsGuarded here = λ y w g. ground arith
Reach-IsGuarded (moved r s) = Move-IsGuarded (Reach-IsGuarded r) s
Reach-IsGuarded {p = p} (disturbed {pc = pc} r o) = Other-IsGuarded p pc (Reach-IsGuarded r) o

-- What is stored afterwards lists at least as many pods.
abbrev pub StillLists : Server → Server → Type 0
StillLists m m' =
    (v : Stored)
    → m.stored ≡ some v
    → (w : Stored) × (m'.stored ≡ some w) × (count v.object ≤ count w.object)

StillLists-refl : (m : Server) → StillLists m m
StillLists-refl m v h = (v, h, omega arith)

Move-StillLists :
    {steps : ℕ} {p : PersistentPodState} {m m' : Server} {pc pc' : Pc}
    → IsGuarded p m pc
    → Move steps p m pc m' pc'
    → StillLists m m'
Move-StillLists h (create_done e) = λ v g. absurd (ground arith)
Move-StillLists {p = p} h (update_done tries x version u e s) =
    λ v g. (record { object = record x { status = p.status }; version = _ }, refl, h refl v g)
Move-StillLists {m = m} h (get_missing e) = StillLists-refl m
Move-StillLists {m = m} h (get_failed e f) = StillLists-refl m
Move-StillLists {m = m} h (get_same v e f) = StillLists-refl m
Move-StillLists {m = m} h (get_larger v e f l) = StillLists-refl m
Move-StillLists {m = m} h (get_other v e f l) = StillLists-refl m
Move-StillLists {m = m} h (create_exists v e) = StillLists-refl m
Move-StillLists {m = m} h (create_failed e f) = StillLists-refl m
Move-StillLists {m = m} h (read_found tries v e) = StillLists-refl m
Move-StillLists {m = m} h (read_old tries x version c o) = StillLists-refl m
Move-StillLists {m = m} h (read_missing tries e) = StillLists-refl m
Move-StillLists {m = m} h (read_failed tries e f) = StillLists-refl m
Move-StillLists {m = m} h given_up = StillLists-refl m
Move-StillLists {m = m} h (update_conflict tries x version v e s) = StillLists-refl m
Move-StillLists {m = m} h (update_missing tries x version e) = StillLists-refl m
Move-StillLists {m = m} h (update_failed tries x version e f) = StillLists-refl m

-- As long as the first read of the run is up to date and other writers only delete the object or
-- store objects that list no more pods than the one that the run is to store: after each step of
-- the run the stored object lists at least as many pods as before.
pub Reach-StillLists :
    {steps : ℕ} {p : PersistentPodState} {start m m' : Server} {k : ℕ} {pc pc' : Pc}
    → Reach steps p (HasFewer p) start k m pc
    → Move steps p m pc m' pc'
    → StillLists m m'
Reach-StillLists r s = Move-StillLists (Reach-IsGuarded r) s

-- Anybody may store anything.
abbrev pub Anything : PersistentPodState → Type 0
Anything x = Unit

-- A step of the run after which fewer pods are listed.
pub record Loses (steps : ℕ) (p : PersistentPodState) (start : Server) (y : PersistentPodState)
    : Type 0 where
  pub before : Server
  pub after : Server
  pub pc : Pc
  pub held : Stored
  pub left : Stored
  pub reached : Reach steps p Anything start 2 before pc
  pub step : Move steps p before pc after (returned (ok tt))
  pub was_there : (before.stored ≡ some held) × (held.object ≡ y)
  pub is_there : (after.stored ≡ some left) × (left.object.status ≡ p.status)
  pub fewer : count left.object < count held.object

-- Where an object is stored with another status that lists no more pods, and with at least one
-- try: if another writer stores an object that lists more pods after the run has tested for that,
-- the run can go on to write its own status over it, so that fewer pods are listed.
pub larger_status_lost :
    (steps : ℕ) (p y : PersistentPodState) (start : Server) (v : Stored)
    → start.stored ≡ some v
    → status_equal v.object.status p.status ≡ false
    → ltb (count p) (count v.object) ≡ false
    → count p < count y
    → Loses (suc steps) p start y
larger_status_lost steps p y start v there differs passed larger =
    let held : Stored = record { object = y; version = suc start.clock } in
    let before : Server = put y start in
    record {
      before = before;
      after = put (record y { status = p.status }) before;
      pc = updating steps y (suc start.clock);
      held = held;
      left = record { object = record y { status = p.status }; version = suc (suc start.clock) };
      reached =
          moved (disturbed (moved here (get_other v there differs passed)) (store y tt))
            (read_found steps held refl);
      step = update_done steps y (suc start.clock) held refl refl;
      was_there = (refl, refl);
      is_there = (refl, refl);
      fewer = larger;
    }
