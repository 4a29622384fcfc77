-- ===== src/Atomic/Steps/Readable.antt =====
-- What can be read through the visible links while the payload is written.
use persistent_pod_state.Base.{
  Text, codes, text_eq, ◌==◌, if◌then◌else◌, Bool, false, not, ◌&&◌, Option, none, some, List, [],
  ◌∷◌, ◌++◌, Reply, success, failure, ◌≡◌, ◌≢◌, ◌⊎◌, inl, inr, refl, sym, ap, ◌∙◌, subst,
  Bool-cases, arith,
}
use persistent_pod_state.Base.Strings.{contains}
use persistent_pod_state.Base.Lists.{All}
use persistent_pod_state.Base.GoMap.{Dict, lookup, insert, lookup-insert_self, lookup-insert_ne}
use persistent_pod_state.Atomic.{FileProjection, validate_payload}
use persistent_pod_state.Atomic.Write.{Volume, is_nil, is_member, paths_to_remove, link_name}
use persistent_pod_state.Atomic.Write.Laws.{current_files, IsFresh}
use persistent_pod_state.Atomic.Write.Links.{IsFlat, not_member-difference, all_paths-member}
use persistent_pod_state.Atomic.Calls.{
  Disk, Fault, Sys, return, call, read, make_dir, change_mode, write_file, remove_all, link_file,
  remove_link, removed_link, link_tmp, linked_tmp, rename_tmp, renamed_tmp, remove_tmp,
}
use persistent_pod_state.Atomic.Steps.{
  new_timestamp_dir, write_payload_to_dir, create_links, link_if_missing, last_error, remove_path,
  remove_paths, remove_old, switch, project_calls, write_over_calls, write_valid, write_calls,
}
use persistent_pod_state.Atomic.Steps.Triple.{
  Triple, Leads, Left, Ends, Triple-bind, Triple-return, Triple-fail, Triple-on_failure,
  Triple-attempt, Triple-read, Triple-call,
}
use persistent_pod_state.Atomic.Steps.Phases.{IsWhole, lookup-erase_ne}
use persistent_pod_state.Atomic.Steps.Prepared.{
  Triple-change_mode, Triple-make_parents, Triple-ignoring,
}
use persistent_pod_state.Atomic.Steps.Whole.{
  Triple-assume, start, write_calls-IsWhole, write_calls-Includes,
}

-- The link that a file of the payload is given.
abbrev pub HasOwnLink : Text → Disk → Type 0
HasOwnLink k d = lookup k d.volume.links ≡ some (codes "..data/" ++ k)

-- What is read under a name that stands in no directory, through its link and `..data`.
unfoldable pub seen : Volume → Text → Option FileProjection
seen vol k = elim (lookup k vol.links) [
  | none ↦ none
  | some target ↦ if target == codes "..data/" ++ k then lookup k (current_files vol) else none
]

seen-HasOwnLink :
    (d : Disk) (k : Text) → HasOwnLink k d → seen d.volume k ≡ lookup k (current_files d.volume)
unfolding seen
seen-HasOwnLink d k h = rw (h, seen) (ground arith)

module _ (k : Text) where
  abbrev Has : Disk → Type 0
  Has = HasOwnLink k

  -- The calls keep the link.
  abbrev Keeps : {A : Type 0} → Sys A → Type 0
  Keeps m = Triple Has Has m (λ _. Has) Has

  Keeps-call :
      (act : Disk → Reply Text Disk) (harm : Fault → Disk → Disk)
      → ((d : Disk) → Has d → Leads Has Has d (act d))
      → ((f : Fault) (d : Disk) → Has d → Has (harm f d))
      → Keeps (call act harm)
  Keeps-call act harm leads harmed = Triple-call act harm (λ d h. h) leads harmed

  Keeps-read : {A : Type 0} (f : Disk → A) → Keeps (read f)
  Keeps-read f = Triple-read f (λ d h. (h, h, h))

  Keeps-new_timestamp_dir : (ts : Text) → Keeps (new_timestamp_dir ts)
  unfolding new_timestamp_dir make_dir Leads
  Keeps-new_timestamp_dir ts =
      Triple-bind _ _ (Keeps-call _ _ (λ d h. h) (λ f d h. h)) (λ _. Triple-change_mode (λ d h. h))

  Keeps-write_payload_to_dir :
      (ts : Text) (payload : Dict FileProjection) → Keeps (write_payload_to_dir ts payload)
  unfolding write_payload_to_dir write_file Leads
  Keeps-write_payload_to_dir ts [] = Triple-return tt (λ d h. h)
  Keeps-write_payload_to_dir ts ((path, file) ∷ payload) =
      Triple-bind _ _ (Triple-make_parents (λ d h. h)) (λ _.
        Triple-bind _ _ (Keeps-call _ _ (λ d h. h) (λ f d h. h)) (λ _.
          Triple-bind _ _ (Triple-ignoring change_mode (Triple-change_mode (λ d h. h)))
            (λ _. Keeps-write_payload_to_dir ts payload)))

  own_link-insert :
      (name : Text) (links : Dict Text)
      → lookup k links ≡ some (codes "..data/" ++ k)
      → lookup k (insert name (codes "..data/" ++ name) links) ≡ some (codes "..data/" ++ k)
  own_link-insert name links h = elim (text_eq.dec name k) [
    | yes e ↦
        subst (λ n. lookup k (insert n (codes "..data/" ++ n) links) ≡ some (codes "..data/" ++ k))
          (sym e) (lookup-insert_self k (codes "..data/" ++ k) links)
    | no n ↦ lookup-insert_ne name k _ links n ∙ h
  ]

  Keeps-link_if_missing :
      (name : Text) (found : Reply Text (Option Text)) → Keeps (link_if_missing name found)
  unfolding link_file Leads
  Keeps-link_if_missing name (success none) =
      Keeps-call _ _ (λ d h. own_link-insert name d.volume.links h) (λ f d h. h)
  Keeps-link_if_missing name (success (some target)) = Triple-return tt (λ d h. h)
  Keeps-link_if_missing name (failure e) = Triple-return tt (λ d h. h)

  Keeps-create_links : (payload : Dict FileProjection) → Keeps (create_links payload)
  unfolding create_links
  Keeps-create_links [] = Triple-return tt (λ d h. h)
  Keeps-create_links ((path, file) ∷ payload) =
      Triple-bind _ _ (Triple-attempt _ (Keeps-read _)) (λ found.
        Triple-bind _ _ (Keeps-link_if_missing (link_name path) found)
          (λ _. Keeps-create_links payload))

  Keeps-remove_all : (dir : Text) → Keeps (remove_all dir)
  unfolding remove_all Leads
  Keeps-remove_all dir = Keeps-call _ _ (λ d h. h) (λ f d h. h)

  Keeps-remove_tmp : Keeps remove_tmp
  unfolding remove_tmp Leads
  Keeps-remove_tmp = Keeps-call _ _ (λ d h. h) (λ f d h. h)

  Leads-linked_tmp :
      (ts : Text) (d : Disk) (o : Option Text) → Has d → Leads Has Has d (linked_tmp ts d o)
  unfolding Leads
  Leads-linked_tmp ts d none h = h
  Leads-linked_tmp ts d (some other) h = h

  Leads-renamed_tmp : (d : Disk) (o : Option Text) → Has d → Leads Has Has d (renamed_tmp d o)
  unfolding Leads
  Leads-renamed_tmp d none h = h
  Leads-renamed_tmp d (some dir) h = h

  Keeps-switch : (ts : Text) → Keeps (switch ts)
  unfolding switch link_tmp rename_tmp
  Keeps-switch ts =
      Triple-bind _ _
        (Triple-on_failure _ _ (Keeps-call _ _ (λ d. Leads-linked_tmp ts d d.tmp_link) (λ f d h. h))
          (Keeps-remove_all ts))
        (λ _.
          Triple-on_failure _ _ (Keeps-call _ _ (λ d. Leads-renamed_tmp d d.tmp_link) (λ f d h. h))
            (Triple-bind _ _ (Triple-ignoring _ Keeps-remove_tmp) (λ _. Keeps-remove_all ts)))

  Leads-removed_link :
      (name : Text) (d : Disk) (o : Option Text)
      → name ≢ k
      → Has d
      → Leads Has Has d (removed_link name d o)
  unfolding Leads
  Leads-removed_link name d none n h = h
  Leads-removed_link name d (some target) n h = lookup-erase_ne name k d.volume.links n ∙ h

  Keeps-remove_path : (path : Text) (last : Option Text) → path ≢ k → Keeps (remove_path path last)
  unfolding remove_path remove_link
  Keeps-remove_path path last n = elim (Bool-cases (contains path (codes "/"))) [
    | inl e ↦ rw e (Triple-return last (λ d h. h))
    | inr e ↦ rw e (
        Triple-bind _ _
          (Triple-attempt _ (
            Keeps-call _ _ (λ d. Leads-removed_link path d (lookup path d.volume.links) n)
              (λ f d h. h)))
          (λ r. Triple-return (last_error last r) (λ d h. h)))
  ]

  Keeps-remove_paths :
      (paths : List Text) (last : Option Text)
      → is_member k paths ≡ false
      → Keeps (remove_paths paths last)
  unfolding remove_paths is_member
  Keeps-remove_paths [] none n = Triple-return tt (λ d h. h)
  Keeps-remove_paths [] (some e) n = Triple-fail e (λ d h. h)
  Keeps-remove_paths (path ∷ paths) last n =
      Triple-bind _ _ (Keeps-remove_path path last (ground arith))
        (λ e. Keeps-remove_paths paths e (ground arith))

  Keeps-remove_old : (o : Option Text) → Keeps (remove_old o)
  Keeps-remove_old none = Triple-return tt (λ d h. h)
  Keeps-remove_old (some dir) = Keeps-remove_all dir

  Keeps-project_calls :
      (ts : Text) (payload : Dict FileProjection) (remove : List Text) (old : Option Text)
      → is_member k remove ≡ false
      → Keeps (project_calls ts payload remove old)
  unfolding project_calls
  Keeps-project_calls ts payload remove old n = Triple-bind _ _ (Keeps-new_timestamp_dir ts) (λ _.
      Triple-bind _ _ (Keeps-write_payload_to_dir ts payload) (λ _.
        Triple-bind _ _ (Keeps-create_links payload) (λ _.
          Triple-bind _ _ (Keeps-switch ts)
            (λ _. Triple-bind _ _ (Keeps-remove_paths remove none n) (λ _. Keeps-remove_old old)))))

module _ (ts : Text) (payload : Dict FileProjection) (k : Text) (file : FileProjection)
    (flat : IsFlat k) (listed : lookup k payload ≡ some file) where
  Keeps-compared :
      (dir : Text) (remove : List Text) (should : Bool)
      → is_member k remove ≡ false
      → Keeps k (
          if not should && is_nil remove
          then return tt
          else project_calls ts payload remove (some dir))
  Keeps-compared dir remove should n = elim (Bool-cases (not should && is_nil remove)) [
    | inl e ↦ rw e (Triple-return tt (λ d h. h))
    | inr e ↦ rw e (Keeps-project_calls k ts payload remove (some dir) n)
  ]

  Keeps-write_over_calls : (old : Option Text) → Keeps k (write_over_calls ts payload old)
  unfolding write_over_calls paths_to_remove is_member
  Keeps-write_over_calls none = Keeps-project_calls k ts payload [] none refl
  Keeps-write_over_calls (some dir) =
      Triple-bind _ _
        (Triple-read {post = λ remove d. (is_member k remove ≡ false) × HasOwnLink k d} _ (λ d h.
          (h, (not_member-difference k _ _ (all_paths-member payload k file flat listed), h), h)))
        (λ remove.
          Triple-assume
            (λ n. Triple-bind _ _ (Keeps-read k _) (λ should. Keeps-compared dir remove should n)))

  Keeps-write_valid : Keeps k (write_valid ts (success payload))
  Keeps-write_valid = Triple-bind _ _ (Keeps-read k _) Keeps-write_over_calls

module _ (ts : Text) (payload cleaned : Dict FileProjection) (d : Disk)
    (faults : List (Option Fault)) (valid : validate_payload payload ≡ success cleaned)
    (fresh : IsFresh ts d.volume.data_dir) (k : Text) (file : FileProjection) (flat : IsFlat k)
    (listed : lookup k cleaned ≡ some file) (linked : HasOwnLink k d) where
  link_kept :
      Left
        (HasOwnLink k)
        (λ _. HasOwnLink k)
        (HasOwnLink k)
        (write_calls ts payload (start d faults))
  unfolding write_calls
  link_kept =
      rw valid ((Keeps-write_valid ts cleaned k file flat listed).run (start d faults) linked tt)

-- All disks have both properties.
All-both :
    {P Q R : Disk → Type 0} (h : (d : Disk) → P d → Q d → R d) (ds : List Disk)
    → All P ds
    → All Q ds
    → All R ds
All-both h [] p q = tt
All-both h (d ∷ ds) (p, ps) (q, qs) = (h d p q, All-both h ds ps qs)

Ends-HasOwnLink :
    (k : Text) (r : Reply Text (Unit {0})) (d : Disk)
    → Ends (λ _. HasOwnLink k) (HasOwnLink k) r d
    → HasOwnLink k d
Ends-HasOwnLink k (success u) d h = h
Ends-HasOwnLink k (failure e) d h = h

-- The old files are in use and the name reads as before, or exactly the payload is and the name
-- reads as its file.
abbrev pub IsAsBeforeOrNew : Dict FileProjection → Text → FileProjection → Disk → Disk → Type 0
IsAsBeforeOrNew payload k file before d =
    ((current_files d.volume ≡ current_files before.volume)
      × (seen d.volume k ≡ seen before.volume k))
    ⊎ ((current_files d.volume ≡ payload) × (seen d.volume k ≡ some file))

as_before_or_new :
    (payload : Dict FileProjection) (k : Text) (file : FileProjection) (before : Disk)
    → lookup k payload ≡ some file
    → HasOwnLink k before
    → (d : Disk) → IsWhole (current_files before.volume) payload d
    → HasOwnLink k d
    → IsAsBeforeOrNew payload k file before d
as_before_or_new payload k file before listed linked d (inl e) h =
    inl (e, seen-HasOwnLink d k h ∙ ap (lookup k) e ∙ sym (seen-HasOwnLink before k linked))
as_before_or_new payload k file before listed linked d (inr e) h =
    inr (e, seen-HasOwnLink d k h ∙ ap (lookup k) e ∙ listed)

module _ (ts : Text) (payload cleaned : Dict FileProjection) (d : Disk)
    (faults : List (Option Fault)) (valid : validate_payload payload ≡ success cleaned)
    (fresh : IsFresh ts d.volume.data_dir) (k : Text) (file : FileProjection) (flat : IsFlat k)
    (listed : lookup k cleaned ≡ some file) (linked : HasOwnLink k d) where
  -- For a payload whose paths are valid, a new directory that is not the one in use, and a file of
  -- the payload that stands in no directory and already has its visible link to ..data: whatever
  -- calls of the file system fail and however, at every moment of a write and after it, either the
  -- files behind ..data are those that were there and the name reads through its link as before,
  -- or they are exactly the payload and the name reads as its file.
  pub write_calls-IsAsBeforeOrNew : All (IsAsBeforeOrNew cleaned k file d) (
      (write_calls ts payload (start d faults)).1.disk
      ∷ (write_calls ts payload (start d faults)).1.past)
  write_calls-IsAsBeforeOrNew =
      let l = link_kept ts payload cleaned d faults valid fresh k file flat listed linked in
      All-both (as_before_or_new cleaned k file d listed linked)
        ((write_calls ts payload (start d faults)).1.disk
          ∷ (write_calls ts payload (start d faults)).1.past)
        (write_calls-IsWhole ts payload cleaned d faults valid fresh)
        (Ends-HasOwnLink k _ _ l.ends, l.on_way)

  -- For a payload whose paths are valid, a new directory that is not the one in use, and a file of
  -- the payload that stands in no directory and already has its visible link to ..data: if a write
  -- reports success, whatever calls were to fail, the name is read through its link with the
  -- content of the payload.
  pub write_calls-seen :
      (write_calls ts payload (start d faults)).0 ≡ success tt
      → (found : FileProjection) × (seen (write_calls ts payload (start d faults)).1.disk.volume k
          ≡ some found)
        × (found.content ≡ file.content)
  write_calls-seen done =
      let l = link_kept ts payload cleaned d faults valid fresh k file flat listed linked in
      let (found, there, same) =
        write_calls-Includes ts payload cleaned d faults valid fresh done k file listed in
      (
        found,
        seen-HasOwnLink (write_calls ts payload (start d faults)).1.disk k
              (Ends-HasOwnLink k _ _ l.ends)
            ∙ there,
        same,
      )
