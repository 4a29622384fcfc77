-- ===== src/Examples/Folders.antt =====
-- A directory with plain files, one of them of a certificate.
use persistent_pod_state.Base.{
  Text, codes, true, none, some, [], ◌∷◌, success, failure, ◌≡◌, ◌⊎◌, refl, text_eq, nat_eq,
}
use persistent_pod_state.Certs.DirectoryStore.{cert_file_names}
use persistent_pod_state.Certs.Folder.{Folder, Faults, next_fault, prepare_to_write}
use persistent_pod_state.Certs.Folder.Keeps.{KeepsOthers, prepare_to_write-KeepsOthers}
use persistent_pod_state.Examples.Certificates.{empty_dir}

abbrev folder : Folder
folder = record {
  is_there = true;
  plain = (codes "key.pem", codes "old") ∷ (codes "notes", codes "kept") ∷ [];
  volume = empty_dir;
}

-- The first removal fails.
abbrev faults : Faults
faults = none ∷ none ∷ none ∷ none ∷ none ∷ none ∷ some (codes "denied") ∷ []

prepare_to_write-KeepsOthers_example :
    KeepsOthers cert_file_names folder (prepare_to_write (codes "/certs") folder faults).1
    × (((prepare_to_write (codes "/certs") folder faults).0 ≡ success tt)
        ⊎ ((e : Text) × (next_fault faults ≡ some e)
            × ((prepare_to_write (codes "/certs") folder faults).0 ≡ failure e)))
prepare_to_write-KeepsOthers_example =
    prepare_to_write-KeepsOthers (codes "/certs") folder faults refl
