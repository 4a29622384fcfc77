-- ===== src/Certs/Folder/Keeps.antt =====
-- What prepareToWrite leaves alone, whatever fails.
use persistent_pod_state.Certs.Folder.Laws.{prepare_there}
use persistent_pod_state.Base.{
  Text, true, Bool-cases, Option, none, some, List, [], ◌∷◌, Reply, success, failure, ◌≡◌, ◌≢◌, ◌⊎◌,
  inl, inr, refl, ap, sym, subst, ◌∙◌, arith, text_eq,
}
use persistent_pod_state.Base.Lists.{All}
use persistent_pod_state.Base.GoMap.{lookup, lookup-erase}
use persistent_pod_state.Certs.DirectoryStore.{cert_file_names}
use persistent_pod_state.Certs.Folder.{
  Folder, StatError, is_not_exist, stat_failed, Faults, next_fault, other_faults, stat_file,
  readlink_fails, remove_file, remove_plain, after_stat, prepare_files, prepare_over,
  prepare_to_write,
}

-- What is outside the names is as it was.
pub record KeepsOthers (names : List Text) (d after : Folder) : Type 0 where
  pub same_there : after.is_there ≡ d.is_there
  pub same_version : after.volume.data_dir ≡ d.volume.data_dir
  pub same_versions : after.volume.versions ≡ d.volume.versions
  pub same_plain :
      (name : Text) → All (λ n. n ≢ name) names → lookup name after.plain ≡ lookup name d.plain
  pub same_links :
      (name : Text)
      → All (λ n. n ≢ name) names
      → lookup name after.volume.links ≡ lookup name d.volume.links

remove_file-KeepsOthers :
    (f : Option Text) (name : Text) (d : Folder) → KeepsOthers (name ∷ []) d (remove_file f d name)
unfolding remove_file
remove_file-KeepsOthers (some e) name d = record {
  same_there = refl;
  same_version = refl;
  same_versions = refl;
  same_plain = λ n o. refl;
  same_links = λ n o. refl;
}
remove_file-KeepsOthers none name d = record {
  same_there = refl;
  same_version = refl;
  same_versions = refl;
  same_plain = λ n o. ground (arith, lookup-erase name n d.plain, o.0);
  same_links = λ n o. ground (arith, lookup-erase name n d.volume.links, o.0);
}

KeepsOthers-refl : (names : List Text) (d : Folder) → KeepsOthers names d d
KeepsOthers-refl names d = record {
  same_there = refl;
  same_version = refl;
  same_versions = refl;
  same_plain = λ n o. refl;
  same_links = λ n o. refl;
}

-- First the file of one name, then those of the others.
KeepsOthers-cons :
    (name : Text) (names : List Text) (d mid after : Folder)
    → KeepsOthers (name ∷ []) d mid
    → KeepsOthers names mid after
    → KeepsOthers (name ∷ names) d after
KeepsOthers-cons name names d mid after h k = record {
  same_there = k.same_there ∙ h.same_there;
  same_version = k.same_version ∙ h.same_version;
  same_versions = k.same_versions ∙ h.same_versions;
  same_plain = λ n o. k.same_plain n o.1 ∙ h.same_plain n (o.0, tt);
  same_links = λ n o. k.same_links n o.1 ∙ h.same_links n (o.0, tt);
}

remove_plain-KeepsOthers :
    (name : Text) (d : Folder) (faults : Faults)
    → KeepsOthers (name ∷ []) d (remove_plain name (d, faults)).0
unfolding remove_plain
remove_plain-KeepsOthers name d faults =
    elim (Bool-cases (readlink_fails (next_fault faults) d name)) [
      | inl e ↦ rw e (remove_file-KeepsOthers (next_fault (other_faults faults)) name d)
      | inr e ↦ rw e (KeepsOthers-refl (name ∷ []) d)
    ]

after_stat-KeepsOthers :
    (name : Text) (r : Reply StatError (Unit {0})) (d : Folder) (faults : Faults)
    → KeepsOthers (name ∷ []) d (after_stat name r (d, faults)).0
unfolding after_stat
after_stat-KeepsOthers name (failure is_not_exist) d faults = KeepsOthers-refl (name ∷ []) d
after_stat-KeepsOthers name (failure (stat_failed e)) d faults =
    remove_plain-KeepsOthers name d faults
after_stat-KeepsOthers name (success _) d faults = remove_plain-KeepsOthers name d faults

prepare_files-KeepsOthers :
    (names : List Text) (d : Folder) (faults : Faults)
    → KeepsOthers names d (prepare_files names (d, faults)).0
unfolding prepare_files
prepare_files-KeepsOthers [] d faults = KeepsOthers-refl [] d
prepare_files-KeepsOthers (name ∷ names) d faults =
    let w = after_stat name (stat_file (next_fault faults) d name) (d, other_faults faults) in
    KeepsOthers-cons name names d w.0 _
      (after_stat-KeepsOthers name (stat_file (next_fault faults) d name) d (other_faults faults))
      (prepare_files-KeepsOthers names w.0 w.1)

prepare_over-there :
    (dir : Text) (f : Option Text) (d : Folder) (faults : Faults)
    → d.is_there ≡ true
    → KeepsOthers cert_file_names d (prepare_over dir f (d, faults)).1
      × (((prepare_over dir f (d, faults)).0 ≡ success tt)
          ⊎ ((e : Text) × (f ≡ some e) × ((prepare_over dir f (d, faults)).0 ≡ failure e)))
unfolding prepare_over
prepare_over-there dir (some e) d faults there =
    (KeepsOthers-refl cert_file_names d, inr (e, refl, refl))
prepare_over-there dir none d faults there =
    let run = prepare_there dir d faults there in
    (
      subst (λ r. KeepsOthers cert_file_names d r.1) (sym run)
          (prepare_files-KeepsOthers cert_file_names d faults),
      inl (ap (λ r. r.0) run),
    )

-- Whatever calls of the file system fail, on a directory that is there prepareToWrite leaves the
-- files and the links of other names than the six, the version in use and all versions as they
-- were, and it returns no error, or the one of its first call.
pub prepare_to_write-KeepsOthers :
    (dir : Text) (d : Folder) (faults : Faults)
    → d.is_there ≡ true
    → KeepsOthers cert_file_names d (prepare_to_write dir d faults).1
      × (((prepare_to_write dir d faults).0 ≡ success tt)
          ⊎ ((e : Text) × (next_fault faults ≡ some e)
              × ((prepare_to_write dir d faults).0 ≡ failure e)))
unfolding prepare_to_write
prepare_to_write-KeepsOthers dir d faults there =
    prepare_over-there dir (next_fault faults) d (other_faults faults) there
