-- ===== src/Atomic.antt =====
-- internal/webhook/util/writer/atomic/atomic_writer.go: a set of files is put into a directory at
-- once, by a link to a new version of it.
pub mod Write
pub mod Calls
pub mod Steps
use persistent_pod_state.Base.{
  ℕ, Text, codes, ltb, ◌==◌, text_eq, if◌then◌else◌, Bool, not, ◌&&◌, ◌||◌, List, [], ◌∷◌, ◌++◌,
  Reply, success, failure, and_then, Option, none, some,
}
use persistent_pod_state.Base.Lists.{length}
use persistent_pod_state.Base.Strings.{is_empty, has_prefix, split}
use persistent_pod_state.Base.GoMap.{Dict, insert}

-- `FileProjection`
pub record FileProjection : Type 0 where
  pub content : Text
  pub mode : ℕ

abbrev pub max_file_name_length : ℕ
max_file_name_length = 255

abbrev pub max_path_length : ℕ
max_path_length = 4096

-- The loop over the elements of a path.
unfoldable pub validate_items : List Text → Reply Text (Unit {0})
validate_items [] = success tt
validate_items (item ∷ items) =
    let rest = validate_items items in
    if item == codes ".."
    then failure (codes "must not contain '..'")
    else if ltb max_file_name_length (length item)
    then failure (codes "filenames must be less than or equal to 255 characters")
    else rest

-- The test of the first element. There is one: `strings.Split` gives no empty list.
unfoldable pub validate_first : List Text → Reply Text (Unit {0})
validate_first [] = success tt
validate_first (item ∷ items) =
    if has_prefix item (codes "..") && ltb 2 (length item)
    then failure (codes "must not start with '..'")
    else success tt

-- `validatePath`; an absolute path is one that starts with the separator
unfoldable pub validate_path : Text → Reply Text (Unit {0})
unfolding validate_items validate_first
validate_path path =
    if is_empty path
    then failure (codes "must not be empty")
    else if has_prefix path (codes "/")
    then failure (codes "must be relative path")
    else if ltb max_path_length (length path)
    then failure (codes "must be less than or equal to 4096 characters")
    else and_then (validate_items (split b'/' path)) λ _. validate_first (split b'/' path)

-- The elements of a path that `filepath.Clean` keeps, if it is relative and has no `..`.
unfoldable pub clean_items : List Text → List Text
clean_items [] = []
clean_items (item ∷ items) =
    let rest = clean_items items in if is_empty item || item == codes "." then rest else item ∷ rest

unfoldable pub join_items : Text → List Text → Text
join_items item [] = item
join_items item (next ∷ items) = item ++ b'/' ∷ join_items next items

unfoldable pub clean_join : List Text → Text
unfolding join_items
clean_join [] = codes "."
clean_join (item ∷ items) = join_items item items

-- `filepath.Clean` on such a path.
unfoldable pub clean : Text → Text
unfolding clean_items clean_join
clean path = clean_join (clean_items (split b'/' path))

-- `validatePayload`
unfoldable pub validate_payload : Dict FileProjection → Reply Text (Dict FileProjection)
unfolding validate_path clean
validate_payload [] = success []
validate_payload ((path, content) ∷ payload) =
    let rest = validate_payload payload in
    and_then (validate_path path)
      λ _. and_then rest λ cleaned. success (insert (clean path) content cleaned)
