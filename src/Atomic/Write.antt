-- ===== src/Atomic/Write.antt =====
-- `Write` on a directory. Calls of the file system are taken to succeed.
pub mod Laws
pub mod Links
pub mod Paths
use persistent_pod_state.Base.{
  Reply, success, failure, Text, codes, ◌==◌, text_eq, if◌then◌else◌, Bool, true, false, not,
  nat_eq, ◌&&◌, ◌||◌, List, [], ◌∷◌, ◌++◌, Result, ok, err, panic, Option, none, some, suc, zero, ℕ,
}
use persistent_pod_state.Base.Strings.{contains, last_index}
use persistent_pod_state.Base.Lists.{length, take}
use persistent_pod_state.Base.GoMap.{Dict, lookup, insert, erase}
use persistent_pod_state.Atomic.{FileProjection, validate_payload}

-- The target directory: the link `..data`, the timestamped directories with their files by path,
-- and the links that are visible to the user, with their targets.
pub record Volume : Type 0 where
  pub data_dir : Option Text
  pub versions : Dict (Dict FileProjection)
  pub links : Dict Text

-- A directory that is not there has no files.
abbrev pub files_or_none : Option (Dict FileProjection) → Dict FileProjection
files_or_none none = []
files_or_none (some files) = files

-- The files of a version.
abbrev pub files_at : Volume → Text → Dict FileProjection
files_at vol dir = files_or_none (lookup dir vol.versions)

abbrev pub is_nil : List Text → Bool
is_nil [] = true
is_nil (p ∷ paths) = false

-- `shouldWriteFile`
unfoldable pub should_write_file : Dict FileProjection → Text → Text → Bool
should_write_file old path content = elim (lookup path old) [
  | none ↦ true
  | some file ↦ not (content == file.content)
]

-- `shouldWritePayload`
unfoldable pub should_write_payload : Dict FileProjection → Dict FileProjection → Bool
unfolding should_write_file
should_write_payload [] old = false
should_write_payload ((path, file) ∷ payload) old =
    should_write_file old path file.content || should_write_payload payload old

-- `filepath.Split`: the directory, up to its slash
unfoldable pub split_dir : Text → Text
split_dir path = elim (last_index b'/' path) [ none ↦ [] | some i ↦ take (suc i) path ]

-- `strings.TrimSuffix` of a slash
unfoldable pub trim_slash : Text → Text
trim_slash path = elim (last_index b'/' path) [
  | none ↦ path
  | some i ↦ if suc i == length path then take i path else path
]

-- The loop that goes up from a file. The fuel bounds its rounds.
unfoldable pub sub_paths : ℕ → Text → List Text
unfolding split_dir trim_slash
sub_paths zero path = []
sub_paths (suc fuel) [] = []
sub_paths (suc fuel) (c ∷ path) = (c ∷ path) ∷ sub_paths fuel (trim_slash (split_dir (c ∷ path)))

-- The files and the directories above them. `filepath.Walk` goes through the same.
unfoldable pub all_paths : Dict FileProjection → List Text
unfolding sub_paths
all_paths [] = []
all_paths ((path, file) ∷ files) = sub_paths (length path) path ++ all_paths files

unfoldable pub is_member : Text → List Text → Bool
is_member path [] = false
is_member path (p ∷ paths) = p == path || is_member path paths

-- `Difference` of two sets: each element is there once.
unfoldable pub difference : List Text → List Text → List Text
unfolding is_member
difference [] new = []
difference (p ∷ paths) new =
    let rest = difference paths new in
    if is_member p new || is_member p rest then rest else p ∷ rest

-- `pathsToRemove`
unfoldable pub paths_to_remove : Dict FileProjection → Dict FileProjection → List Text
unfolding all_paths difference
paths_to_remove payload old = difference (all_paths old) (all_paths payload)

-- The first element of a path.
unfoldable pub link_name : Text → Text
link_name [] = []
link_name (c ∷ path) = if c == b'/' then [] else c ∷ link_name path

-- `createUserVisibleFiles`
unfoldable pub create_user_visible_files : Dict FileProjection → Dict Text → Dict Text
unfolding link_name
create_user_visible_files [] links = links
create_user_visible_files ((path, file) ∷ payload) links =
    create_user_visible_files payload (elim (lookup (link_name path) links) [
      | none ↦ insert (link_name path) (codes "..data/" ++ link_name path) links
      | some target ↦ links
    ])

-- `removeUserVisiblePaths`
unfoldable pub remove_user_visible_paths : List Text → Dict Text → Dict Text
remove_user_visible_paths [] links = links
remove_user_visible_paths (p ∷ paths) links =
    remove_user_visible_paths paths (if contains p (codes "/") then links else erase p links)

-- The old version goes last.
unfoldable pub remove_version :
    Option Text → Dict (Dict FileProjection) → Dict (Dict FileProjection)
remove_version none versions = versions
remove_version (some dir) versions = erase dir versions

-- Steps 5 to 11: a new version, its links, the switch of `..data`, and what is removed.
unfoldable pub project : Text → Dict FileProjection → List Text → Volume → Volume
unfolding create_user_visible_files remove_user_visible_paths remove_version
project ts_dir payload remove vol = record {
  data_dir = some ts_dir;
  versions = remove_version vol.data_dir (insert ts_dir payload vol.versions);
  links = remove_user_visible_paths remove (create_user_visible_files payload vol.links);
}

-- Steps 3 and 4 over the version that there is.
unfoldable pub write_over : Text → Dict FileProjection → Option Text → Volume → Volume
unfolding project paths_to_remove should_write_payload
write_over ts_dir payload none vol = project ts_dir payload [] vol
write_over ts_dir payload (some dir) vol =
    let old = files_at vol dir in
    let remove = paths_to_remove payload old in
    if not (should_write_payload payload old) && is_nil remove
    then vol
    else project ts_dir payload remove vol

-- `Write`, with the name of the directory that `MkdirTemp` makes
unfoldable pub write : Text → Dict FileProjection → Volume → Reply Text (Unit {0}) × Volume
unfolding write_over
write ts_dir payload vol = elim (validate_payload payload) [
  | success cleaned ↦ (success tt, write_over ts_dir cleaned vol.data_dir vol)
  | failure e ↦ (failure e, vol)
]
