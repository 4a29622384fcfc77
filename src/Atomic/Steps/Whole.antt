-- ===== src/Atomic/Steps/Whole.antt =====
-- The files behind `..data` between the calls of a write, and after one that failed.
use persistent_pod_state.Base.{
  Text, Bool, true, not, ◌&&◌, if◌then◌else◌, Option, none, some, List, [], ◌∷◌, Reply, success,
  failure, ◌≡◌, ◌≢◌, inl, inr, refl, sym, ap, ◌∙◌, subst, Bool-cases, arith,
}
use persistent_pod_state.Base.GoMap.{Dict, NodupKeys}
use persistent_pod_state.Base.Lists.{All}
use persistent_pod_state.Atomic.{FileProjection, validate_payload}
use persistent_pod_state.Atomic.Write.{is_nil, should_write_payload}
use persistent_pod_state.Atomic.Write.Laws.{
  current_files, Includes, IsFresh, Includes-self, should_write_payload_same,
}
use persistent_pod_state.Atomic.Calls.{Disk, Fault, World, Sys, return}
use persistent_pod_state.Atomic.Steps.{
  write_payload_to_dir, project_calls, write_over_calls, write_valid, write_calls,
}
use persistent_pod_state.Atomic.Steps.Triple.{
  Triple, Left, Ends, Triple-bind, Triple-return, Triple-read, Triple-weaken,
}
use persistent_pod_state.Atomic.Steps.Filled.{filled-nil, validate_payload-NodupKeys}
use persistent_pod_state.Atomic.Steps.Phases.{
  IsWhole, current_files_at, Kept, Ready, Switched, Kept-IsWhole, current_files-Switched,
}
use persistent_pod_state.Atomic.Steps.Prepared.{
  Triple-new_timestamp_dir, Triple-write_payload_to_dir, Triple-create_links,
}
use persistent_pod_state.Atomic.Steps.Switching.{
  Triple-switch, Triple-remove_paths, Triple-remove_old,
}

-- The files behind `..data` are those of the payload, and the directory is whole.
abbrev pub IsDone : Dict FileProjection → Dict FileProjection → Disk → Type 0
IsDone files payload d = Includes payload (current_files d.volume) × IsWhole files payload d

module _ (old : Option Text) (files : Dict FileProjection) (ts : Text)
    (payload : Dict FileProjection) (fresh : IsFresh ts old) (nodup : NodupKeys payload) where
  abbrev IsFine : Disk → Type 0
  IsFine = IsWhole files payload

  Triple-payload :
      Triple IsFine
        (Ready old files ts [])
        (write_payload_to_dir ts payload)
        (λ _. Ready old files ts payload)
        IsFine
  Triple-payload =
      subst
        (λ p.
          Triple IsFine (Ready old files ts []) (write_payload_to_dir ts payload)
            (λ _. Ready old files ts p) IsFine)
        (filled-nil payload nodup)
        (Triple-write_payload_to_dir old files ts payload fresh payload [])

  Switched-IsDone : (d : Disk) → Switched ts payload d → IsDone files payload d
  Switched-IsDone d s = (
    Includes-self payload _ (current_files-Switched ts payload d s),
    inr (current_files-Switched ts payload d s),
  )

  Triple-project_calls :
      (remove : List Text)
      → Triple IsFine
          (Kept old files)
          (project_calls ts payload remove old)
          (λ _. IsDone files payload)
          IsFine
  unfolding project_calls
  Triple-project_calls remove =
      Triple-weaken (λ d k. k) (λ _. Switched-IsDone) (λ d o. o)
        (Triple-bind _ _ (Triple-new_timestamp_dir old files ts payload fresh) (λ _.
          Triple-bind _ _ Triple-payload (λ _.
            Triple-bind _ _ (Triple-create_links old files ts payload fresh payload payload) (λ _.
              Triple-bind _ _ (Triple-switch old files ts payload fresh) (λ _.
                Triple-bind _ _ (Triple-remove_paths old files ts payload fresh remove none)
                  (λ _. Triple-remove_old old files ts payload fresh))))))

Kept-IsDone :
    (dir : Text) (files payload : Dict FileProjection) (should : Bool) (remove : List Text)
    (d : Disk)
    → not should && is_nil remove ≡ true
    → should ≡ should_write_payload payload files
    → Kept (some dir) files d
    → IsDone files payload d
Kept-IsDone dir files payload should remove d e s k =
    let same = should_write_payload_same payload files (ground arith) in
    let there = current_files_at d.volume (some dir) k.kept_dir ∙ k.kept_files in
    (subst (Includes payload) (sym there) same, inl there)

-- What does not speak of the disk may be known beforehand.
pub Triple-assume :
    {ok : Disk → Type 0} {A P : Type 0} {pre bad : Disk → Type 0} {post : A → Disk → Type 0}
    {m : Sys A}
    → (P → Triple ok pre m post bad)
    → Triple ok (λ d. P × pre d) m post bad
Triple-assume f = record { run = λ w p past. (f p.0).run w p.1 past }

module _ (files : Dict FileProjection) (ts : Text) (payload : Dict FileProjection)
    (nodup : NodupKeys payload) where
  Triple-compared :
      (dir : Text) (remove : List Text) (should : Bool)
      → dir ≢ ts
      → should ≡ should_write_payload payload files
      → Triple
          (IsWhole files payload)
          (Kept (some dir) files)
          (if not should && is_nil remove
            then return tt
            else project_calls ts payload remove (some dir))
          (λ _. IsDone files payload)
          (IsWhole files payload)
  Triple-compared dir remove should fresh s = elim (Bool-cases (not should && is_nil remove)) [
    | inl e ↦ rw e (Triple-return tt (λ d. Kept-IsDone dir files payload should remove d e s))
    | inr e ↦ rw e (Triple-project_calls (some dir) files ts payload fresh nodup remove)
  ]

  Triple-write_over_calls :
      (old : Option Text)
      → IsFresh ts old
      → Triple
          (IsWhole files payload)
          (Kept old files)
          (write_over_calls ts payload old)
          (λ _. IsDone files payload)
          (IsWhole files payload)
  unfolding write_over_calls
  Triple-write_over_calls none fresh = Triple-project_calls none files ts payload fresh nodup []
  Triple-write_over_calls (some dir) fresh =
      Triple-bind _ _
        (Triple-read _ (λ d k. (
          Kept-IsWhole (some dir) files payload d k,
          k,
          Kept-IsWhole (some dir) files payload d k,
        )))
        (λ remove.
          Triple-bind _ _
            (Triple-read _ (λ d k. (
              Kept-IsWhole (some dir) files payload d k,
              (ap (should_write_payload payload) k.kept_files, k),
              Kept-IsWhole (some dir) files payload d k,
            )))
            (λ should. Triple-assume (Triple-compared dir remove should fresh)))

  pub Triple-write_valid :
      (old : Option Text)
      → IsFresh ts old
      → Triple
          (IsWhole files payload)
          (Kept old files)
          (write_valid ts (success payload))
          (λ _. IsDone files payload)
          (IsWhole files payload)
  Triple-write_valid old fresh =
      Triple-bind _ _
        (Triple-read (λ d. d.volume.data_dir)
          (λ d k. (
            Kept-IsWhole old files payload d k,
            subst (λ o. IsFresh ts o × Kept o files d) (sym k.kept_dir) (fresh, k),
            Kept-IsWhole old files payload d k,
          )))
        (λ o. Triple-assume (Triple-write_over_calls o))

-- The disk, before anything is done to it.
abbrev pub start : Disk → List (Option Fault) → World
start d faults = record { disk = d; past = []; faults = faults }

pub Left-write_calls :
    (ts : Text) (payload cleaned : Dict FileProjection) (d : Disk) (faults : List (Option Fault))
    → validate_payload payload ≡ success cleaned
    → IsFresh ts d.volume.data_dir
    → Left
        (IsWhole (current_files d.volume) cleaned)
        (λ _. IsDone (current_files d.volume) cleaned)
        (IsWhole (current_files d.volume) cleaned)
        (write_calls ts payload (start d faults))
unfolding write_calls
Left-write_calls ts payload cleaned d faults valid fresh = rw valid (
    (Triple-write_valid (current_files d.volume) ts cleaned
        (validate_payload-NodupKeys payload cleaned valid) d.volume.data_dir fresh).run
      (start d faults)
      (record {
        kept_dir = refl;
        kept_files = sym (current_files_at d.volume d.volume.data_dir refl);
      })
      tt)

Ends-IsWhole :
    (files payload : Dict FileProjection) (r : Reply Text (Unit {0})) (d : Disk)
    → Ends (λ _. IsDone files payload) (IsWhole files payload) r d
    → IsWhole files payload d
Ends-IsWhole files payload (success u) d h = h.1
Ends-IsWhole files payload (failure e) d h = h

-- For a payload whose paths are valid, and a new directory that is not the one in use, whatever
-- calls of the file system fail and however: at every moment of a write, and after it, the
-- files behind `..data` are those that were there before, or exactly the payload.
pub write_calls-IsWhole :
    (ts : Text) (payload cleaned : Dict FileProjection) (d : Disk) (faults : List (Option Fault))
    → validate_payload payload ≡ success cleaned
    → IsFresh ts d.volume.data_dir
    → All (IsWhole (current_files d.volume) cleaned) (
        (write_calls ts payload (start d faults)).1.disk
        ∷ (write_calls ts payload (start d faults)).1.past)
write_calls-IsWhole ts payload cleaned d faults valid fresh =
    let l = Left-write_calls ts payload cleaned d faults valid fresh in
    (Ends-IsWhole _ _ _ _ l.ends, l.on_way)

-- For a payload whose paths are valid, and a new directory that is not the one in use: if a write
-- reports success, whatever calls were to fail, every file of the payload is behind
-- `..data` with its content.
pub write_calls-Includes :
    (ts : Text) (payload cleaned : Dict FileProjection) (d : Disk) (faults : List (Option Fault))
    → validate_payload payload ≡ success cleaned
    → IsFresh ts d.volume.data_dir
    → (write_calls ts payload (start d faults)).0 ≡ success tt
    → Includes cleaned (current_files (write_calls ts payload (start d faults)).1.disk.volume)
write_calls-Includes ts payload cleaned d faults valid fresh done =
    (subst
      (λ r.
        Ends (λ _. IsDone (current_files d.volume) cleaned)
          (IsWhole (current_files d.volume) cleaned) r
          (write_calls ts payload (start d faults)).1.disk)
      done (Left-write_calls ts payload cleaned d faults valid fresh).ends).0
