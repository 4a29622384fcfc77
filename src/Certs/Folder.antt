-- ===== src/Certs/Folder.antt =====
-- `WriteCertsToDir` and `prepareToWrite` (internal/webhook/util/writer/fs.go), on a directory that
-- may not be there yet, or may hold plain files under the names of the certificate's files.
pub mod Laws
pub mod Keeps
pub mod Written
use persistent_pod_state.Base.{
  Text, codes, Bool, true, false, if◌then◌else◌, Option, none, some, List, [], ◌∷◌, ◌++◌, Reply,
  success, failure,
}
use persistent_pod_state.Base.GoMap.{Dict, lookup, erase}
use persistent_pod_state.Atomic.{FileProjection}
use persistent_pod_state.Atomic.Write.{Volume}
use persistent_pod_state.Certs.Writer.{Artifacts}
use persistent_pod_state.Certs.DirectoryStore.{cert_file_names, visible_file, write_certs_to_dir}
use persistent_pod_state.Certs.SecretStore.{CertGenerator}

-- The directory: whether it is there, its plain files, and what the atomic writer manages.
pub record Folder : Type 0 where
  pub is_there : Bool
  pub plain : Dict Text
  pub volume : Volume

-- `os.Stat` tells a missing file from other errors.
pub data StatError : Type 0 where
  is_not_exist : StatError
  stat_failed : Text → StatError

-- The errors with which the next calls of the file system fail; a call beyond the list, or with
-- `none`, does what it should.
abbrev pub Faults : Type 0
Faults = List (Option Text)

abbrev pub next_fault : Faults → Option Text
next_fault [] = none
next_fault (f ∷ faults) = f

abbrev pub other_faults : Faults → Faults
other_faults [] = []
other_faults (f ∷ faults) = faults

-- `os.Stat` of a name, which follows links
unfoldable pub stat_file : Option Text → Folder → Text → Reply StatError (Unit {0})
unfolding visible_file
stat_file (some e) d name = failure (stat_failed e)
stat_file none d name = elim (lookup name d.plain) [
  | some content ↦ success tt
  | none ↦ elim (visible_file d.volume name) [
    | some file ↦ success tt
    | none ↦ failure is_not_exist
  ]
]

-- Whether `os.Readlink` gives an error: the name has no link, or the call fails.
unfoldable pub readlink_fails : Option Text → Folder → Text → Bool
readlink_fails (some e) d name = true
readlink_fails none d name = elim (lookup name d.volume.links) [ some target ↦ false | none ↦ true ]

-- `os.Remove`, whose failure is only logged
unfoldable pub remove_file : Option Text → Folder → Text → Folder
remove_file (some e) d name = d
remove_file none d name = record d {
  plain = erase name d.plain;
  volume = record (d.volume) { links = erase name d.volume.links };
}

-- What is not a link is removed.
unfoldable pub remove_plain : Text → Folder × Faults → Folder × Faults
unfolding readlink_fails remove_file
remove_plain name (d, faults) =
    if readlink_fails (next_fault faults) d name
    then (remove_file (next_fault (other_faults faults)) d name, other_faults (other_faults faults))
    else (d, other_faults faults)

-- One round of the loop, by what `os.Stat` returned.
unfoldable pub after_stat : Text → Reply StatError (Unit {0}) → Folder × Faults → Folder × Faults
unfolding remove_plain
after_stat name (failure is_not_exist) w = w
after_stat name (failure (stat_failed e)) w = remove_plain name w
after_stat name (success _) w = remove_plain name w

unfoldable pub prepare_files : List Text → Folder × Faults → Folder × Faults
unfolding after_stat stat_file
prepare_files [] w = w
prepare_files (name ∷ names) (d, faults) =
    prepare_files names
      (after_stat name (stat_file (next_fault faults) d name) (d, other_faults faults))

abbrev pub prepared : Folder × Faults → Reply Text (Unit {0}) × Folder
prepared (d, faults) = (success tt, d)

-- `os.MkdirAll` makes an empty directory.
abbrev pub empty_folder : Folder
empty_folder = record {
  is_there = true;
  plain = [];
  volume = record { data_dir = none; versions = []; links = [] };
}

-- After `os.MkdirAll`
unfoldable pub dir_made : Text → Option Text → Folder × Faults → Reply Text (Unit {0}) × Folder
dir_made dir (some e) (d, faults) = (failure (codes "can't create dir: " ++ dir), d)
dir_made dir none (d, faults) = prepared (prepare_files cert_file_names (empty_folder, faults))

-- `prepareToWrite`, by what `os.Stat` of the directory does
unfoldable pub prepare_over : Text → Option Text → Folder × Faults → Reply Text (Unit {0}) × Folder
prepare_over dir (some e) (d, faults) = (failure e, d)
prepare_over dir none (d, faults) =
    if d.is_there
    then prepared (prepare_files cert_file_names (d, faults))
    else dir_made dir (next_fault faults) (d, other_faults faults)

unfoldable pub prepare_to_write : Text → Folder → Faults → Reply Text (Unit {0}) × Folder
unfolding prepare_over
prepare_to_write dir d faults = prepare_over dir (next_fault faults) (d, other_faults faults)

module _ (G : CertGenerator) (new_dir : Volume → Text) where
  abbrev pub volume_written :
      Folder → Reply Text (Unit {0}) × Volume → Reply Text (Unit {0}) × Folder
  volume_written d (r, vol) = (r, record d { volume = vol })

  unfoldable pub after_prepare :
      Artifacts → Reply Text (Unit {0}) × Folder → Reply Text (Unit {0}) × Folder
  after_prepare certs (failure e, d) = (failure e, d)
  after_prepare certs (success _, d) =
      volume_written d (write_certs_to_dir G new_dir certs d.volume)

  -- `WriteCertsToDir`, where no call of the file system fails; then no plain file is left where
  -- the atomic writer makes its links.
  unfoldable pub write_certs : Text → Artifacts → Folder → Reply Text (Unit {0}) × Folder
  write_certs dir certs d = after_prepare certs (prepare_to_write dir d [])
