-- ===== src/Atomic/Steps/Blocked.antt =====
-- A write that finds a link `..data_tmp`, left by an earlier one.
use persistent_pod_state.Base.{
  Text, Bool, true, not, ◌&&◌, if◌then◌else◌, Option, none, some, List, [], ◌∷◌, Reply, success,
  failure, ◌≡◌, refl, sym, subst, arith,
}
use persistent_pod_state.Base.GoMap.{Dict}
use persistent_pod_state.Atomic.{FileProjection, validate_payload}
use persistent_pod_state.Atomic.Write.{files_at, is_nil, should_write_payload, link_name}
use persistent_pod_state.Atomic.Calls.{
  Disk, Fault, Sys, return, make_dir, change_mode, write_file, remove_all, link_file, link_tmp,
  linked_tmp,
}
use persistent_pod_state.Atomic.Steps.{
  new_timestamp_dir, write_payload_to_dir, create_links, link_if_missing, switch, project_calls,
  write_over_calls, write_valid, write_calls,
}
use persistent_pod_state.Atomic.Steps.Triple.{
  Triple, Left, Ends, Leads, Triple-bind, Triple-return, Triple-attempt, Triple-read, Triple-call,
  Triple-on_failure,
}
use persistent_pod_state.Atomic.Steps.Prepared.{
  Triple-change_mode, Triple-make_parents, Triple-ignoring,
}
use persistent_pod_state.Atomic.Steps.Whole.{Triple-assume, start}

abbrev Anything : Disk → Type 0
Anything d = Unit

-- The link is there.
abbrev IsBlocked : Text → Disk → Type 0
IsBlocked other d = d.tmp_link ≡ some other

-- No disk.
abbrev Never : Disk → Type 0
Never d = ⊥

module _ (other : Text) where
  abbrev Keeps : Sys (Unit {0}) → Type 0
  Keeps m = Triple Anything (IsBlocked other) m (λ _. IsBlocked other) (IsBlocked other)

  Keeps-make_dir : (ts : Text) → Keeps (make_dir ts)
  unfolding make_dir Leads
  Keeps-make_dir ts = Triple-call _ _ (λ d b. tt) (λ d b. b) (λ f d b. b)

  Keeps-new_timestamp_dir : (ts : Text) → Keeps (new_timestamp_dir ts)
  unfolding new_timestamp_dir
  Keeps-new_timestamp_dir ts =
      Triple-bind _ _ (Keeps-make_dir ts) (λ _. Triple-change_mode (λ d b. tt))

  Keeps-write_file : (ts path : Text) (file : FileProjection) → Keeps (write_file ts path file)
  unfolding write_file Leads
  Keeps-write_file ts path file = Triple-call _ _ (λ d b. tt) (λ d b. b) (λ f d b. b)

  Keeps-write_payload_to_dir :
      (ts : Text) (payload : Dict FileProjection) → Keeps (write_payload_to_dir ts payload)
  unfolding write_payload_to_dir
  Keeps-write_payload_to_dir ts [] = Triple-return tt (λ d b. b)
  Keeps-write_payload_to_dir ts ((path, file) ∷ payload) =
      Triple-bind _ _ (Triple-make_parents (λ d b. tt)) (λ _.
        Triple-bind _ _ (Keeps-write_file ts path file) (λ _.
          Triple-bind _ _ (Triple-ignoring change_mode (Triple-change_mode (λ d b. tt)))
            (λ _. Keeps-write_payload_to_dir ts payload)))

  Keeps-link_if_missing :
      (name : Text) (found : Reply Text (Option Text)) → Keeps (link_if_missing name found)
  unfolding link_file Leads
  Keeps-link_if_missing name (success none) = Triple-call _ _ (λ d b. tt) (λ d b. b) (λ f d b. b)
  Keeps-link_if_missing name (success (some target)) = Triple-return tt (λ d b. b)
  Keeps-link_if_missing name (failure e) = Triple-return tt (λ d b. b)

  Keeps-create_links : (payload : Dict FileProjection) → Keeps (create_links payload)
  unfolding create_links
  Keeps-create_links [] = Triple-return tt (λ d b. b)
  Keeps-create_links ((path, file) ∷ payload) =
      Triple-bind _ _ (Triple-attempt _ (Triple-read _ (λ d b. (tt, b, b)))) (λ found.
        Triple-bind _ _ (Keeps-link_if_missing (link_name path) found)
          (λ _. Keeps-create_links payload))

  Leads-IsBlocked :
      (ts : Text) (d : Disk) (link : Option Text)
      → d.tmp_link ≡ link
      → IsBlocked other d
      → Leads Never (IsBlocked other) d (linked_tmp ts d link)
  unfolding Leads
  Leads-IsBlocked ts d none e b = ground arith
  Leads-IsBlocked ts d (some t) e b = b

  Triple-IsBlocked :
      (ts : Text) → Triple Anything (IsBlocked other) (link_tmp ts) (λ _. Never) (IsBlocked other)
  unfolding link_tmp
  Triple-IsBlocked ts =
      Triple-call _ _ (λ d b. tt) (λ d. Leads-IsBlocked ts d d.tmp_link refl) (λ f d b. b)

  Keeps-remove_all : (ts : Text) → Keeps (remove_all ts)
  unfolding remove_all Leads
  Keeps-remove_all ts = Triple-call _ _ (λ d b. tt) (λ d b. b) (λ f d b. b)

  -- What cannot be reached leads anywhere.
  Triple-Never :
      {A : Type 0} {post : A → Disk → Type 0} {bad : Disk → Type 0} (m : Sys A)
      → Triple Anything Never m post bad
  Triple-Never m = record { run = λ w p past. absurd p }

  Triple-switch-IsBlocked :
      (ts : Text) → Triple Anything (IsBlocked other) (switch ts) (λ _. Never) (IsBlocked other)
  unfolding switch
  Triple-switch-IsBlocked ts =
      Triple-bind _ _ (Triple-on_failure _ _ (Triple-IsBlocked ts) (Keeps-remove_all ts))
        (λ _. Triple-Never _)

  Triple-project-IsBlocked :
      (ts : Text) (payload : Dict FileProjection) (remove : List Text) (old : Option Text)
      → Triple Anything
          (IsBlocked other)
          (project_calls ts payload remove old)
          (λ _. Never)
          (IsBlocked other)
  unfolding project_calls
  Triple-project-IsBlocked ts payload remove old =
      Triple-bind _ _ (Keeps-new_timestamp_dir ts) (λ _.
        Triple-bind _ _ (Keeps-write_payload_to_dir ts payload) (λ _.
          Triple-bind _ _ (Keeps-create_links payload)
            (λ _. Triple-bind _ _ (Triple-switch-IsBlocked ts) (λ _. Triple-Never _))))

  -- There is something to write.
  abbrev IsStale : Text → Dict FileProjection → Disk → Type 0
  IsStale dir payload d =
      IsBlocked other d
      × (d.volume.data_dir ≡ some dir)
      × (should_write_payload payload (files_at d.volume dir) ≡ true)

  Triple-changed-IsBlocked :
      (ts : Text) (payload : Dict FileProjection) (dir : Text) (remove : List Text) (should : Bool)
      → should ≡ true
      → Triple Anything
          (IsBlocked other)
          (if not should && is_nil remove
            then return tt
            else project_calls ts payload remove (some dir))
          (λ _. Never)
          (IsBlocked other)
  Triple-changed-IsBlocked ts payload dir remove should e =
      rw e (Triple-project-IsBlocked ts payload remove (some dir))

  Triple-write_over-IsBlocked :
      (ts : Text) (payload : Dict FileProjection) (dir : Text)
      → Triple Anything
          (IsStale dir payload)
          (write_over_calls ts payload (some dir))
          (λ _. Never)
          (IsBlocked other)
  unfolding write_over_calls
  Triple-write_over-IsBlocked ts payload dir =
      Triple-bind {mid = λ r. IsStale dir payload} _ _ (Triple-read _ (λ d s. (tt, s, s.0)))
        (λ remove.
          Triple-bind _ _ (Triple-read _ (λ d s. (tt, (s.2, s.0), s.0)))
            (λ should. Triple-assume (Triple-changed-IsBlocked ts payload dir remove should)))

  Triple-write_valid-IsBlocked :
      (ts : Text) (payload : Dict FileProjection) (dir : Text)
      → Triple Anything
          (IsStale dir payload)
          (write_valid ts (success payload))
          (λ _. Never)
          (IsBlocked other)
  Triple-write_valid-IsBlocked ts payload dir =
      Triple-bind _ _ (Triple-read (λ d. d.volume.data_dir) (λ d s. (tt, (s.1, s), s.0))) (λ o.
        Triple-assume (λ e.
          subst
            (λ k.
              Triple Anything (IsStale dir payload) (write_over_calls ts payload k) (λ _. Never)
                (IsBlocked other))
            (sym e) (Triple-write_over-IsBlocked ts payload dir)))

Ends-blocked :
    (other : Text) (r : Reply Text (Unit {0})) (d : Disk)
    → Ends (λ _. Never) (IsBlocked other) r d
    → (e : Text) × (r ≡ failure e) × (d.tmp_link ≡ some other)
Ends-blocked other (success u) d h = absurd h
Ends-blocked other (failure e) d h = (e, refl, h)

Left-IsBlocked :
    (ts other dir : Text) (payload cleaned : Dict FileProjection) (d : Disk)
    (faults : List (Option Fault))
    → validate_payload payload ≡ success cleaned
    → IsStale other dir cleaned d
    → Left Anything (λ _. Never) (IsBlocked other) (write_calls ts payload (start d faults))
unfolding write_calls
Left-IsBlocked ts other dir payload cleaned d faults valid s =
    rw valid ((Triple-write_valid-IsBlocked other ts cleaned dir).run (start d faults) s tt)

-- Where a link ..data_tmp is left in the directory, and the payload, whose paths are valid, has
-- changed: a write fails, whatever else fails, and the link is still there afterwards.
pub write_calls_blocked :
    (ts other dir : Text) (payload cleaned : Dict FileProjection) (d : Disk)
    (faults : List (Option Fault))
    → validate_payload payload ≡ success cleaned
    → d.tmp_link ≡ some other
    → d.volume.data_dir ≡ some dir
    → should_write_payload cleaned (files_at d.volume dir) ≡ true
    → (e : Text) × ((write_calls ts payload (start d faults)).0 ≡ failure e)
      × ((write_calls ts payload (start d faults)).1.disk.tmp_link ≡ some other)
write_calls_blocked ts other dir payload cleaned d faults valid left at stale =
    Ends-blocked other _ _
      (Left-IsBlocked ts other dir payload cleaned d faults valid (left, at, stale)).ends
