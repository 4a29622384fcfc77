-- ===== src/Controller/Save/Race/Laws.antt =====
-- What holds however the steps of a run and of other writers mix.
use persistent_pod_state.Base.{ℕ, ◌+◌, ◌*◌, ◌≤◌, ◌<◌, none, some, ◌≡◌, refl, ap, sym, subst, arith}
use persistent_pod_state.Api.{PersistentPodState, zero_status}
use persistent_pod_state.Controller.Save.Race.{
  Stored, Server, put, Pc, getting, creating, reading, updating, returned, Move, get_missing,
  get_failed, get_same, get_larger, get_other, create_done, create_exists, create_failed,
  read_found, read_missing, read_old, read_failed, given_up, update_done, update_conflict,
  update_missing, update_failed, Other, store, delete, Reach, here, moved, disturbed,
}

-- The steps that are left at most.
abbrev pub left : ℕ → Pc → ℕ
left steps getting = 2 * steps + 3
left steps creating = 1
left steps (reading tries) = 2 * tries + 1
left steps (updating tries x version) = 2 * tries + 2
left steps (returned r) = 0

Move-left :
    {steps : ℕ} {p : PersistentPodState} {m m' : Server} {pc pc' : Pc}
    → Move steps p m pc m' pc'
    → left steps pc' < left steps pc
Move-left (get_missing h) = omega arith
Move-left (get_failed e h) = omega arith
Move-left (get_same v h e) = omega arith
Move-left (get_larger v h e l) = omega arith
Move-left (get_other v h e l) = omega arith
Move-left (create_done h) = omega arith
Move-left (create_exists v h) = omega arith
Move-left (create_failed e h) = omega arith
Move-left (read_found tries v h) = omega arith
Move-left (read_old tries x version c o) = omega arith
Move-left (read_missing tries h) = omega arith
Move-left (read_failed tries e h) = omega arith
Move-left given_up = omega arith
Move-left (update_done tries x version v h e) = omega arith
Move-left (update_conflict tries x version v h e) = omega arith
Move-left (update_missing tries x version h) = omega arith
Move-left (update_failed tries x version e h) = omega arith

-- However other writers interfere and whatever fails: for a run that is allowed n tries, the steps
-- of its own that it has taken, and a bound on those to come that falls to none at its end, are
-- together at most 2 n + 3.
pub Reach-bound :
    {steps : ℕ} {p : PersistentPodState} {Allowed : PersistentPodState → Type 0} {start m : Server}
    {k : ℕ} {pc : Pc}
    → Reach steps p Allowed start k m pc
    → k + left steps pc ≤ 2 * steps + 3
Reach-bound here = omega arith
Reach-bound (moved r s) = omega (arith, Reach-bound r, Move-left s)
Reach-bound (disturbed r o) = Reach-bound r

-- No version is above the last one.
abbrev pub IsClocked : Server → Type 0
IsClocked m = (v : Stored) → m.stored ≡ some v → v.version ≤ m.clock

-- What the run has read is what is stored, as long as the version is the same.
abbrev IsCurrent : Server → Pc → Type 0
IsCurrent m getting = Unit
IsCurrent m creating = Unit
IsCurrent m (reading tries) = Unit
IsCurrent m (updating tries x version) =
    (version ≤ m.clock) × ((v : Stored) → m.stored ≡ some v → v.version ≡ version → v.object ≡ x)
IsCurrent m (returned r) = Unit

put-IsClocked : (x : PersistentPodState) (m : Server) → IsClocked (put x m)
put-IsClocked x m v h = ground arith

put-IsCurrent :
    (x : PersistentPodState) (m : Server) (pc : Pc) → IsCurrent m pc → IsCurrent (put x m) pc
put-IsCurrent x m getting h = tt
put-IsCurrent x m creating h = tt
put-IsCurrent x m (reading tries) h = tt
put-IsCurrent x m (updating tries y version) h = (omega arith, λ v e s. absurd (ground arith))
put-IsCurrent x m (returned r) h = tt

Other-IsClocked :
    {Allowed : PersistentPodState → Type 0} {m m' : Server}
    → IsClocked m
    → Other Allowed m m'
    → IsClocked m'
Other-IsClocked {m = m} h (store x a) = put-IsClocked x m
Other-IsClocked h delete = λ v e. absurd (ground arith)

delete-IsCurrent :
    (m : Server) (pc : Pc) → IsCurrent m pc → IsCurrent (record m { stored = none }) pc
delete-IsCurrent m getting h = tt
delete-IsCurrent m creating h = tt
delete-IsCurrent m (reading tries) h = tt
delete-IsCurrent m (updating tries x version) h = (h.0, λ v e s. absurd (ground arith))
delete-IsCurrent m (returned r) h = tt

-- What a step of the run does to the server: nothing, or it creates the object where there is none,
-- or it replaces the status of the very object that is there, and nothing else of it.
pub data Wrote (p : PersistentPodState) (m m' : Server) : Type 0 where
  nothing : m' ≡ m → Wrote p m m'
  created : m.stored ≡ none → m' ≡ put (record p { status = zero_status }) m → Wrote p m m'
  replaced :
      (v : Stored)
      → m.stored ≡ some v
      → m' ≡ put (record (v.object) { status = p.status }) m
      → Wrote p m m'

Move-Wrote :
    {steps : ℕ} {p : PersistentPodState} {m m' : Server} {pc pc' : Pc}
    → IsCurrent m pc
    → Move steps p m pc m' pc'
    → Wrote p m m'
Move-Wrote {p = p} {m = m} h (create_done e) = created e refl
Move-Wrote {p = p} {m = m} h (update_done tries x version v e s) =
    replaced v e (ap (λ y. put (record y { status = p.status }) m) (sym (h.1 v e s)))
Move-Wrote h (get_missing e) = nothing refl
Move-Wrote h (get_failed e f) = nothing refl
Move-Wrote h (get_same v e f) = nothing refl
Move-Wrote h (get_larger v e f l) = nothing refl
Move-Wrote h (get_other v e f l) = nothing refl
Move-Wrote h (create_exists v e) = nothing refl
Move-Wrote h (create_failed e f) = nothing refl
Move-Wrote h (read_found tries v e) = nothing refl
Move-Wrote h (read_old tries x version c o) = nothing refl
Move-Wrote h (read_missing tries e) = nothing refl
Move-Wrote h (read_failed tries e f) = nothing refl
Move-Wrote h given_up = nothing refl
Move-Wrote h (update_conflict tries x version v e s) = nothing refl
Move-Wrote h (update_missing tries x version e) = nothing refl
Move-Wrote h (update_failed tries x version e f) = nothing refl

Wrote-IsClocked :
    {p : PersistentPodState} {m m' : Server} → IsClocked m → Wrote p m m' → IsClocked m'
Wrote-IsClocked h (nothing e) = subst IsClocked (sym e) h
Wrote-IsClocked {p = p} {m = m} h (created a e) = subst IsClocked (sym e) (put-IsClocked _ m)
Wrote-IsClocked {p = p} {m = m} h (replaced v a e) = subst IsClocked (sym e) (put-IsClocked _ m)

-- What was read is what is stored.
read-IsCurrent :
    (tries : ℕ) (m : Server) (v : Stored)
    → IsClocked m
    → m.stored ≡ some v
    → IsCurrent m (updating tries v.object v.version)
read-IsCurrent tries m v h e = (h v e, λ w f s. ground arith)

Move-IsCurrent :
    {steps : ℕ} {p : PersistentPodState} {m m' : Server} {pc pc' : Pc}
    → IsClocked m
    → Move steps p m pc m' pc'
    → IsCurrent m' pc'
Move-IsCurrent {m = m} h (read_found tries v e) = read-IsCurrent tries m v h e
Move-IsCurrent h (create_done e) = tt
Move-IsCurrent h (update_done tries x version v e s) = tt
Move-IsCurrent h (get_missing e) = tt
Move-IsCurrent h (get_failed e f) = tt
Move-IsCurrent h (get_same v e f) = tt
Move-IsCurrent h (get_larger v e f l) = tt
Move-IsCurrent h (get_other v e f l) = tt
Move-IsCurrent h (create_exists v e) = tt
Move-IsCurrent h (create_failed e f) = tt
Move-IsCurrent h (read_old tries x version c o) = (c, λ v e s. absurd (omega (arith, o v e, s)))
Move-IsCurrent h (read_missing tries e) = tt
Move-IsCurrent h (read_failed tries e f) = tt
Move-IsCurrent h given_up = tt
Move-IsCurrent h (update_conflict tries x version v e s) = tt
Move-IsCurrent h (update_missing tries x version e) = tt
Move-IsCurrent h (update_failed tries x version e f) = tt

Other-IsCurrent :
    {Allowed : PersistentPodState → Type 0} {m m' : Server} (pc : Pc)
    → IsCurrent m pc
    → Other Allowed m m'
    → IsCurrent m' pc
Other-IsCurrent {m = m} pc h (store x a) = put-IsCurrent x m pc h
Other-IsCurrent {m = m} pc h delete = delete-IsCurrent m pc h

Reach-IsCurrent :
    {steps : ℕ} {p : PersistentPodState} {Allowed : PersistentPodState → Type 0} {start m : Server}
    {k : ℕ} {pc : Pc}
    → IsClocked start
    → Reach steps p Allowed start k m pc
    → IsClocked m × IsCurrent m pc
Reach-IsCurrent w here = (w, tt)
Reach-IsCurrent w (moved r s) =
    let (clocked, current) = Reach-IsCurrent w r in
    (Wrote-IsClocked clocked (Move-Wrote current s), Move-IsCurrent clocked s)
Reach-IsCurrent w (disturbed {pc = pc} r o) =
    let (clocked, current) = Reach-IsCurrent w r in
    (Other-IsClocked clocked o, Other-IsCurrent pc current o)

-- Whatever other writers do between the calls of a run for a StatefulSet, whatever of its calls
-- fail, and also where the reads of its tries are out of date, where versions are given out in
-- order: each step of the run leaves the stored object alone, creates it where there is none, or
-- replaces the status of the very object that is stored at that moment, and nothing else of it.
pub Reach-Wrote :
    {steps : ℕ} {p : PersistentPodState} {Allowed : PersistentPodState → Type 0}
    {start m m' : Server} {k : ℕ} {pc pc' : Pc}
    → IsClocked start
    → Reach steps p Allowed start k m pc
    → Move steps p m pc m' pc'
    → Wrote p m m'
Reach-Wrote w r s = Move-Wrote (Reach-IsCurrent w r).1 s
