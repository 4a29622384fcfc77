-- ===== src/Atomic/Write/Laws.antt =====
-- The files behind `..data` after a write.
use persistent_pod_state.Base.{
  success, Text, false, not, ◌&&◌, text_eq, Option, none, some, List, [], ◌∷◌, ◌≡◌, ◌≢◌, inl, inr,
  refl, sym, ap, subst, ◌∙◌, Bool-cases, Option-cases, arith,
}
use persistent_pod_state.Base.GoMap.{Dict, lookup, insert, lookup-insert_self, lookup-erase}
use persistent_pod_state.Atomic.{FileProjection, validate_payload}
use persistent_pod_state.Atomic.Write.{
  Volume, files_or_none, files_at, should_write_file, should_write_payload, is_nil, paths_to_remove,
  project, remove_version, write_over, write,
}

-- The files that the link `..data` leads to. The visible links are left aside.
abbrev pub current_files : Volume → Dict FileProjection
current_files vol = elim vol.data_dir [ none ↦ [] | some dir ↦ files_at vol dir ]

-- Every file of the payload is there, with its content.
abbrev pub Includes : Dict FileProjection → Dict FileProjection → Type 0
Includes payload files =
    (path : Text) (file : FileProjection)
    → lookup path payload ≡ some file
    → (found : FileProjection) × (lookup path files ≡ some found) × (found.content ≡ file.content)

should_write_file_same :
    (old : Dict FileProjection) (path content : Text)
    → should_write_file old path content ≡ false
    → (found : FileProjection) × (lookup path old ≡ some found) × (found.content ≡ content)
unfolding should_write_file
should_write_file_same old path content h = elim (Option-cases (lookup path old)) [
  | inl e ↦ ground arith
  | inr (found, e) ↦ (found, e, ground arith)
]

Includes-cons :
    (p : Text) (f : FileProjection) (payload old : Dict FileProjection)
    → (found : FileProjection) × (lookup p old ≡ some found) × (found.content ≡ f.content)
    → Includes payload old
    → Includes ((p, f) ∷ payload) old
unfolding lookup
Includes-cons p f payload old (found, at_p, same) rest path file e = elim (text_eq.dec p path) [
  | yes q ↦ (found, ap (λ k. lookup k old) (sym q) ∙ at_p, ground arith)
  | no n ↦ rest path file (ground arith)
]

pub should_write_payload_same :
    (payload old : Dict FileProjection)
    → should_write_payload payload old ≡ false
    → Includes payload old
unfolding should_write_payload lookup
should_write_payload_same [] old h = λ path file e. cc
should_write_payload_same ((p, f) ∷ payload) old h =
    Includes-cons p f payload old (should_write_file_same old p f.content (ground arith))
      (should_write_payload_same payload old (ground arith))

-- `MkdirTemp` makes a directory that is not there yet, so not the one in use.
abbrev pub IsFresh : Text → Option Text → Type 0
IsFresh ts_dir none = Unit
IsFresh ts_dir (some dir) = dir ≢ ts_dir

kept_version :
    (ts_dir : Text) (payload : Dict FileProjection) (old : Option Text)
    (versions : Dict (Dict FileProjection))
    → IsFresh ts_dir old
    → lookup ts_dir (remove_version old (insert ts_dir payload versions)) ≡ some payload
unfolding remove_version
kept_version ts_dir payload none versions fresh = lookup-insert_self ts_dir payload versions
kept_version ts_dir payload (some dir) versions fresh = ground (
  arith,
  lookup-erase dir ts_dir (insert ts_dir payload versions),
  lookup-insert_self ts_dir payload versions,
)

-- Behind `..data` a new version has exactly the payload.
current_files-project :
    (ts_dir : Text) (payload : Dict FileProjection) (remove : List Text) (vol : Volume)
    → IsFresh ts_dir vol.data_dir
    → current_files (project ts_dir payload remove vol) ≡ payload
unfolding project
current_files-project ts_dir payload remove vol fresh =
    ap files_or_none (kept_version ts_dir payload vol.data_dir vol.versions fresh)

pub Includes-self : (payload files : Dict FileProjection) → files ≡ payload → Includes payload files
Includes-self payload files h path file e = (file, ap (lookup path) h ∙ e, refl)

pub write_over-Includes :
    (ts_dir : Text) (payload : Dict FileProjection) (vol : Volume)
    → IsFresh ts_dir vol.data_dir
    → (dir : Option Text) → vol.data_dir ≡ dir
    → Includes payload (current_files (write_over ts_dir payload dir vol))
unfolding write_over
write_over-Includes ts_dir payload vol fresh none h =
    Includes-self payload _ (current_files-project ts_dir payload [] vol fresh)
write_over-Includes ts_dir payload vol fresh (some dir) h =
    let old = files_at vol dir in
    let remove = paths_to_remove payload old in
    elim (Bool-cases (not (should_write_payload payload old) && is_nil remove)) [
      | inl e ↦ rw e (
          subst (λ d. Includes payload (elim d [ none ↦ [] | some k ↦ files_at vol k ])) (sym h)
            (should_write_payload_same payload old (ground arith)))
      | inr e ↦
          rw e (Includes-self payload _ (current_files-project ts_dir payload remove vol fresh))
    ]

-- A write of a payload whose paths are valid, with a new directory that is not the one in use,
-- succeeds, whatever is in the target directory, and every file of the payload, by its clean path,
-- then has its content.
pub write-Includes :
    (ts_dir : Text) (payload cleaned : Dict FileProjection) (vol : Volume)
    → IsFresh ts_dir vol.data_dir
    → validate_payload payload ≡ success cleaned
    → (after : Volume) × (write ts_dir payload vol ≡ (success tt, after))
      × Includes cleaned (current_files after)
unfolding write
write-Includes ts_dir payload cleaned vol fresh valid = (
  write_over ts_dir cleaned vol.data_dir vol,
  rw (valid, write) refl,
  write_over-Includes ts_dir cleaned vol fresh vol.data_dir refl,
)
