-- ===== src/Atomic/Steps/Refines.antt =====
-- `Write` call by call, beside `Write` as one step (Atomic/Write).
use persistent_pod_state.Base.{
  Text, codes, Bool, true, false, if◌then◌else◌, not, ◌&&◌, ◌||◌, Option, none, some, List, [], ◌∷◌,
  ◌++◌, success, ◌≡◌, ◌⊎◌, inl, inr, refl, ap, ◌∙◌, subst, Bool-cases, arith, text_eq, nat_eq,
}
use persistent_pod_state.Base.Strings.{contains}
use persistent_pod_state.Base.Lists.{All}
use persistent_pod_state.Base.GoMap.{
  Dict, NodupKeys, lookup, insert, erase, lookup-insert, lookup-erase,
}
use persistent_pod_state.Atomic.{FileProjection, validate_payload}
use persistent_pod_state.Atomic.Write.{
  Volume, files_at, is_nil, link_name, create_user_visible_files, remove_user_visible_paths,
  project, is_member, difference, paths_to_remove, should_write_payload, write_over, write,
  all_paths,
}
use persistent_pod_state.Atomic.Calls.{
  Disk, return, attempt, read, with_links, remove_link, removed_link,
}
use persistent_pod_state.Atomic.Steps.{
  write_payload_to_dir, remove_path, remove_paths, project_calls, write_over_calls, write_calls,
  last_error,
}
use persistent_pod_state.Atomic.Steps.Filled.{filled-nil, validate_payload-NodupKeys}
use persistent_pod_state.Atomic.Steps.Whole.{start}
use persistent_pod_state.Atomic.Steps.Smooth.{
  Runs, Runs-return, Runs-read, Runs-attempt, Runs-bind, Runs-seq, Runs-call,
  Runs-new_timestamp_dir, Runs-write_payload_to_dir, Runs-create_links, Runs-switch,
  Runs-remove_old, filled_disk,
}

-- A path is below another one, or it has a link.
abbrev pub IsLinked : Dict Text → Text → Type 0
IsLinked links path =
    (contains path (codes "/") ≡ true) ⊎ ((target : Text) × (lookup path links ≡ some target))

-- No path is listed twice.
abbrev AreDistinct : List Text → Type 0
AreDistinct [] = Unit
AreDistinct (p ∷ paths) = (is_member p paths ≡ false) × AreDistinct paths

difference-AreDistinct : (paths new : List Text) → AreDistinct (difference paths new)
unfolding difference
difference-AreDistinct [] new = tt
difference-AreDistinct (p ∷ paths) new =
    elim (Bool-cases (is_member p new || is_member p (difference paths new))) [
      | inl e ↦ rw e (difference-AreDistinct paths new)
      | inr e ↦ rw e (ground arith, difference-AreDistinct paths new)
    ]

paths_to_remove-AreDistinct :
    (payload old : Dict FileProjection) → AreDistinct (paths_to_remove payload old)
unfolding paths_to_remove
paths_to_remove-AreDistinct payload old = difference-AreDistinct (all_paths old) (all_paths payload)

IsLinked-erase :
    (p : Text) (paths : List Text) (links : Dict Text)
    → is_member p paths ≡ false
    → All (IsLinked links) paths
    → All (IsLinked (erase p links)) paths
unfolding is_member
IsLinked-erase p [] links n h = tt
IsLinked-erase p (q ∷ paths) links n (inl below, h) =
    (inl below, IsLinked-erase p paths links (ground arith) h)
IsLinked-erase p (q ∷ paths) links n (inr (target, e), h) = (
  inr (target, ground (arith, lookup-erase p q links)),
  IsLinked-erase p paths links (ground arith) h,
)

-- The links after one path of the loop.
abbrev after_path : Text → Dict Text → Dict Text
after_path p links = if contains p (codes "/") then links else erase p links

Runs-remove_path :
    (p : Text) (d : Disk)
    → IsLinked d.volume.links p
    → Runs (remove_path p none) d none (with_links (after_path p d.volume.links) d)
unfolding remove_path remove_link
Runs-remove_path p d (inl below) = rw below (Runs-return none d)
Runs-remove_path p d (inr (target, there)) = elim (Bool-cases (contains p (codes "/"))) [
  | inl e ↦ rw e (Runs-return none d)
  | inr e ↦ rw e (
      Runs-bind (attempt (remove_link p)) (λ r. return (last_error none r))
        (Runs-attempt (remove_link p)
          (Runs-call _ _ d (with_links (erase p d.volume.links) d) (ap (removed_link p d) there)))
        (Runs-return none _))
]

after_path-IsLinked :
    (p : Text) (paths : List Text) (links : Dict Text)
    → is_member p paths ≡ false
    → All (IsLinked links) paths
    → All (IsLinked (after_path p links)) paths
after_path-IsLinked p paths links n h = elim (Bool-cases (contains p (codes "/"))) [
  | inl e ↦ rw e h
  | inr e ↦ rw e (IsLinked-erase p paths links n h)
]

Runs-remove_paths :
    (paths : List Text) (d : Disk)
    → AreDistinct paths
    → All (IsLinked d.volume.links) paths
    → Runs
        (remove_paths paths none)
        d
        tt
        (with_links (remove_user_visible_paths paths d.volume.links) d)
unfolding remove_paths remove_user_visible_paths
Runs-remove_paths [] d n h = Runs-return tt d
Runs-remove_paths (p ∷ paths) d n h =
    Runs-bind (remove_path p none) (λ e. remove_paths paths e) (Runs-remove_path p d h.0)
      (Runs-remove_paths paths (with_links (after_path p d.volume.links) d) n.1
        (after_path-IsLinked p paths d.volume.links n.0 h.1))

-- A link that is there stays when others are made.
abbrev pub one_more : Text → Dict Text → Option Text → Dict Text
one_more name links o = elim o [
  | none ↦ insert name (codes "..data/" ++ name) links
  | some target ↦ links
]

pub one_more_keeps :
    (name k : Text) (links : Dict Text) (o : Option Text)
    → lookup name links ≡ o
    → IsLinked links k
    → IsLinked (one_more name links o) k
one_more_keeps name k links (some target) e h = h
one_more_keeps name k links none e (inl below) = inl below
one_more_keeps name k links none e (inr (target, there)) =
    inr (target, ground (arith, lookup-insert name k (codes "..data/" ++ name) links))

pub create_user_visible_files-IsLinked :
    (payload : Dict FileProjection) (k : Text) (links : Dict Text)
    → IsLinked links k
    → IsLinked (create_user_visible_files payload links) k
unfolding create_user_visible_files
create_user_visible_files-IsLinked [] k links h = h
create_user_visible_files-IsLinked ((path, file) ∷ payload) k links h =
    create_user_visible_files-IsLinked payload k _
      (one_more_keeps (link_name path) k links (lookup (link_name path) links) refl h)

All-IsLinked :
    (payload : Dict FileProjection) (paths : List Text) (links : Dict Text)
    → All (IsLinked links) paths
    → All (IsLinked (create_user_visible_files payload links)) paths
All-IsLinked payload [] links h = tt
All-IsLinked payload (p ∷ paths) links h =
    (create_user_visible_files-IsLinked payload p links h.0, All-IsLinked payload paths links h.1)

-- The disk with the result, and no link `..data_tmp`.
abbrev pub tidy : Volume → Disk
tidy vol = record { volume = vol; tmp_link = none }

-- The paths of the version in use that are not in the payload.
abbrev pub stale_paths : Dict FileProjection → Volume → Option Text → List Text
stale_paths payload vol none = []
stale_paths payload vol (some dir) = paths_to_remove payload (files_at vol dir)

module _ (ts : Text) (payload : Dict FileProjection) (nodup : NodupKeys payload) where
  Runs-payload :
      (d : Disk)
      → Runs (write_payload_to_dir ts payload) (filled_disk ts [] d) tt (filled_disk ts payload d)
  Runs-payload d =
      subst
        (λ p. Runs (write_payload_to_dir ts payload) (filled_disk ts [] d) tt (filled_disk ts p d))
        (filled-nil payload nodup) (Runs-write_payload_to_dir ts payload [] d)

  Runs-project_calls :
      (remove : List Text) (d : Disk)
      → d.tmp_link ≡ none
      → AreDistinct remove
      → All (IsLinked d.volume.links) remove
      → Runs
          (project_calls ts payload remove d.volume.data_dir)
          d
          tt
          (tidy (project ts payload remove d.volume))
  unfolding project_calls project
  Runs-project_calls remove d h n linked = Runs-seq _ _ (Runs-new_timestamp_dir ts d) (
      Runs-seq _ _ (Runs-payload d) (
        Runs-seq _ _ (Runs-create_links payload (filled_disk ts payload d)) (
          Runs-seq _ _ (Runs-switch ts _ h) (
            Runs-seq _ _
              (Runs-remove_paths remove _ n (All-IsLinked payload remove d.volume.links linked))
              (Runs-remove_old d.volume.data_dir _)))))

  Runs-compared :
      (dir : Text) (remove : List Text) (should : Bool) (d : Disk)
      → d.volume.data_dir ≡ some dir
      → d.tmp_link ≡ none
      → AreDistinct remove
      → All (IsLinked d.volume.links) remove
      → Runs
          (if not should && is_nil remove
            then return tt
            else project_calls ts payload remove (some dir))
          d
          tt
          (tidy
            (if not should && is_nil remove then d.volume else project ts payload remove d.volume))
  Runs-compared dir remove should d e h n linked = elim (Bool-cases (not should && is_nil remove)) [
    | inl same ↦ rw same (
        subst (Runs (return tt) d tt) (ap (λ t. record { volume = d.volume; tmp_link = t }) h)
          (Runs-return tt d))
    | inr other ↦ rw other (
        subst
          (λ o.
            Runs (project_calls ts payload remove o) d tt
              (tidy (project ts payload remove d.volume)))
          e (Runs-project_calls remove d h n linked))
  ]

  Runs-write_over_calls :
      (o : Option Text) (d : Disk)
      → d.volume.data_dir ≡ o
      → d.tmp_link ≡ none
      → All (IsLinked d.volume.links) (stale_paths payload d.volume o)
      → Runs (write_over_calls ts payload o) d tt (tidy (write_over ts payload o d.volume))
  unfolding write_over_calls write_over
  Runs-write_over_calls none d e h linked =
      subst (λ o. Runs (project_calls ts payload [] o) d tt (tidy (project ts payload [] d.volume)))
        e (Runs-project_calls [] d h tt tt)
  Runs-write_over_calls (some dir) d e h linked =
      Runs-bind (read (λ d. paths_to_remove payload (files_at d.volume dir))) _ (Runs-read _ d) (
        Runs-bind (read (λ d. should_write_payload payload (files_at d.volume dir))) _
          (Runs-read _ d)
          (Runs-compared dir (paths_to_remove payload (files_at d.volume dir)) _ d e h
            (paths_to_remove-AreDistinct payload (files_at d.volume dir)) linked))

Runs-write_calls :
    (ts : Text) (payload cleaned : Dict FileProjection) (d : Disk)
    → validate_payload payload ≡ success cleaned
    → d.tmp_link ≡ none
    → All (IsLinked d.volume.links) (stale_paths cleaned d.volume d.volume.data_dir)
    → Runs (write_calls ts payload) d tt (tidy (write ts payload d.volume).1)
unfolding write_calls write
Runs-write_calls ts payload cleaned d valid h linked =
    rw (valid, write)
      (Runs-bind (read (λ d. d.volume.data_dir)) (λ o. write_over_calls ts cleaned o)
        (Runs-read _ d)
        (Runs-write_over_calls ts cleaned (validate_payload-NodupKeys payload cleaned valid)
          d.volume.data_dir d refl h linked))

-- For a payload whose paths are valid, in a directory without a link ..data_tmp, where each file
-- of the version in use that is not in the payload has its visible link: if no call fails, the
-- calls of a write succeed, and lead to the same versions, links and ..data as the description of
-- a write as one step.
pub write_calls-write :
    (ts : Text) (payload cleaned : Dict FileProjection) (d : Disk)
    → validate_payload payload ≡ success cleaned
    → d.tmp_link ≡ none
    → All (IsLinked d.volume.links) (stale_paths cleaned d.volume d.volume.data_dir)
    → ((write_calls ts payload (start d [])).0 ≡ (write ts payload d.volume).0)
      × ((write_calls ts payload (start d [])).1.disk ≡ tidy (write ts payload d.volume).1)
unfolding write
write_calls-write ts payload cleaned d valid h linked =
    let (later, e) = (Runs-write_calls ts payload cleaned d valid h linked).run [] in
    (ap (λ r. r.0) e ∙ rw (valid, write) refl, ap (λ r. r.1.disk) e)
