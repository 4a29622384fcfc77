-- ===== src/Certs/Folder/Laws.antt =====
-- What is prepared before a certificate is written into a directory.
use persistent_pod_state.Base.{
  Text, true, false, Bool-cases, Option-cases, none, some, List, [], ◌∷◌, success, ◌≡◌,
  if◌then◌else◌, inl, inr, refl, ap, sym, ◌∙◌, arith, text_eq,
}
use persistent_pod_state.Base.GoMap.{Dict, lookup, erase, erase_missing, lookup-erase}
use persistent_pod_state.Atomic.{FileProjection}
use persistent_pod_state.Atomic.Write.{Volume}
use persistent_pod_state.Certs.DirectoryStore.{cert_file_names, visible_file}
use persistent_pod_state.Certs.Folder.{
  Folder, Faults, next_fault, other_faults, stat_file, readlink_fails, remove_file, remove_plain,
  after_stat, prepare_files, prepared, empty_folder, dir_made, prepare_over, prepare_to_write,
}

-- No name is that of a plain file and of a link.
abbrev pub IsApart : Folder → Type 0
IsApart d =
    (name content : Text) → lookup name d.plain ≡ some content → lookup name d.volume.links ≡ none

-- Without the plain files of these names.
abbrev pub erase_all : List Text → Dict Text → Dict Text
erase_all [] plain = plain
erase_all (name ∷ names) plain = erase_all names (erase name plain)

abbrev pub without : List Text → Folder → Folder
without names d = record d { plain = erase_all names d.plain }

visible_file_link :
    (vol : Volume) (name : Text) (file : FileProjection)
    → visible_file vol name ≡ some file
    → (target : Text) × (lookup name vol.links ≡ some target)
unfolding visible_file
visible_file_link vol name file h = elim (Option-cases (lookup name vol.links)) [
  | inl e ↦ ground arith
  | inr there ↦ there
]

without_missing :
    (d : Folder) (name : Text) → lookup name d.plain ≡ none → d ≡ without (name ∷ []) d
without_missing d name e =
    ap (λ p. record { is_there = d.is_there; plain = p; volume = d.volume })
      (sym (erase_missing name d.plain e))

after_stat-plain :
    (d : Folder) (name content : Text)
    → IsApart d
    → lookup name d.plain ≡ some content
    → after_stat name (stat_file none d name) (d, []) ≡ (without (name ∷ []) d, [])
unfolding after_stat stat_file remove_plain readlink_fails remove_file
after_stat-plain d name content apart e =
    let unlinked = apart name content e in
    rw (e, stat_file)
      (rw (unlinked, readlink_fails)
        (ap
          (λ l. (
            record {
              is_there = d.is_there;
              plain = erase name d.plain;
              volume = record (d.volume) { links = l };
            },
            [],
          ))
          (erase_missing name d.volume.links unlinked)))

after_stat-none :
    (d : Folder) (name : Text)
    → lookup name d.plain ≡ none
    → after_stat name (stat_file none d name) (d, []) ≡ (d, [])
unfolding after_stat stat_file remove_plain readlink_fails
after_stat-none d name e = elim (Option-cases (visible_file d.volume name)) [
  | inl missing ↦ rw (e, stat_file) (rw (missing, stat_file) refl)
  | inr (file, there) ↦
      let (target, link) = visible_file_link d.volume name file there in
      rw (e, stat_file) (rw (there, stat_file) (rw (link, readlink_fails) refl))
]

after_stat-without :
    (d : Folder) (name : Text)
    → IsApart d
    → after_stat name (stat_file none d name) (d, []) ≡ (without (name ∷ []) d, [])
after_stat-without d name apart = elim (Option-cases (lookup name d.plain)) [
  | inl e ↦ after_stat-none d name e ∙ ap (λ f. (f, [])) (without_missing d name e)
  | inr (content, e) ↦ after_stat-plain d name content apart e
]

without-IsApart : (d : Folder) (name : Text) → IsApart d → IsApart (without (name ∷ []) d)
without-IsApart d name apart other content e =
    apart other content (ground (arith, lookup-erase name other d.plain))

-- Where no call fails, the loop removes the plain files and nothing else.
prepare_files-without :
    (names : List Text) (d : Folder)
    → IsApart d
    → prepare_files names (d, []) ≡ (without names d, [])
unfolding prepare_files
prepare_files-without [] d apart = refl
prepare_files-without (name ∷ names) d apart =
    ap (prepare_files names) (after_stat-without d name apart)
    ∙ prepare_files-without names (without (name ∷ []) d) (without-IsApart d name apart)

-- The directory as it should be before the writer comes.
abbrev pub cleared : Folder → Folder
cleared d = if d.is_there then without cert_file_names d else empty_folder

empty_folder-IsApart : IsApart empty_folder
unfolding lookup
empty_folder-IsApart name content h = ground arith

-- The two ways after `os.Stat` of the directory.
pub prepare_there :
    (dir : Text) (d : Folder) (faults : Faults)
    → d.is_there ≡ true
    → prepare_over dir none (d, faults) ≡ prepared (prepare_files cert_file_names (d, faults))
unfolding prepare_over
prepare_there dir d faults e =
    ap
      (λ b.
        if b
        then prepared (prepare_files cert_file_names (d, faults))
        else dir_made dir (next_fault faults) (d, other_faults faults))
      e

prepare_missing :
    (dir : Text) (d : Folder) (faults : Faults)
    → d.is_there ≡ false
    → prepare_over dir none (d, faults) ≡ dir_made dir (next_fault faults) (d, other_faults faults)
unfolding prepare_over
prepare_missing dir d faults e =
    ap
      (λ b.
        if b
        then prepared (prepare_files cert_file_names (d, faults))
        else dir_made dir (next_fault faults) (d, other_faults faults))
      e

pub cleared_there : (d : Folder) → d.is_there ≡ true → without cert_file_names d ≡ cleared d
cleared_there d e = sym (ap (λ b. if b then without cert_file_names d else empty_folder) e)

pub cleared_missing : (d : Folder) → d.is_there ≡ false → empty_folder ≡ cleared d
cleared_missing d e = sym (ap (λ b. if b then without cert_file_names d else empty_folder) e)

dir_made_lem : (dir : Text) (d : Folder) → dir_made dir none (d, []) ≡ (success tt, empty_folder)
unfolding dir_made erase
dir_made_lem dir d =
    ap prepared (prepare_files-without cert_file_names empty_folder empty_folder-IsApart)

-- Where no call fails and no name is that of a plain file and of a link, the directory is there
-- afterwards, without plain files under the six names, and otherwise as it was.
pub prepare_to_write_lem :
    (dir : Text) (d : Folder) → IsApart d → prepare_to_write dir d [] ≡ (success tt, cleared d)
unfolding prepare_to_write
prepare_to_write_lem dir d apart = elim (Bool-cases d.is_there) [
  | inl e ↦
      prepare_there dir d [] e
      ∙ ap prepared (prepare_files-without cert_file_names d apart)
      ∙ ap (λ f. (success tt, f)) (cleared_there d e)
  | inr e ↦
      prepare_missing dir d [] e
      ∙ dir_made_lem dir d
      ∙ ap (λ f. (success tt, f)) (cleared_missing d e)
]
