-- ===== src/Atomic/Steps.antt =====
-- `Write` as the sequence of its calls. The branch for Windows is left out. The walk through the old
-- version, and the comparison with it, count as one read each.
pub mod Triple
pub mod Phases
pub mod Filled
pub mod Prepared
pub mod Switching
pub mod Whole
pub mod Blocked
pub mod Smooth
pub mod Refines
pub mod Readable
use persistent_pod_state.Base.{
  Text, codes, if◌then◌else◌, Bool, not, ◌&&◌, Option, none, some, List, [], ◌∷◌, ◌++◌, Reply,
  success, failure,
}
use persistent_pod_state.Base.Strings.{contains}
use persistent_pod_state.Base.GoMap.{Dict, lookup}
use persistent_pod_state.Atomic.{FileProjection, validate_payload}
use persistent_pod_state.Atomic.Write.{
  files_at, is_nil, should_write_payload, paths_to_remove, link_name,
}
use persistent_pod_state.Atomic.Calls.{
  Disk, Sys, return, fail, ◌>>=◌, ◌>>◌, on_failure, attempt, ignoring, read, make_dir, change_mode,
  make_parents, write_file, remove_all, link_file, remove_link, link_tmp, rename_tmp, remove_tmp,
}

-- `newTimestampDir`
unfoldable pub new_timestamp_dir : Text → Sys (Unit {0})
new_timestamp_dir dir = make_dir dir >> change_mode

-- `writePayloadToDir`
unfoldable pub write_payload_to_dir : Text → Dict FileProjection → Sys (Unit {0})
write_payload_to_dir dir [] = return tt
write_payload_to_dir dir ((path, file) ∷ payload) =
    make_parents
    >> (write_file dir path file >> (ignoring change_mode >> write_payload_to_dir dir payload))

-- A link is made where there is none. Another error of `Readlink` is passed over.
abbrev pub link_if_missing : Text → Reply Text (Option Text) → Sys (Unit {0})
link_if_missing name (success none) = link_file name (codes "..data/" ++ name)
link_if_missing name (success (some target)) = return tt
link_if_missing name (failure e) = return tt

-- `createUserVisibleFiles`
unfoldable pub create_links : Dict FileProjection → Sys (Unit {0})
create_links [] = return tt
create_links ((path, file) ∷ payload) =
    attempt (read (λ d. lookup (link_name path) d.volume.links)) >>= λ found.
    link_if_missing (link_name path) found >> create_links payload

-- The variable `lasterr`, after one more call.
abbrev pub last_error : Option Text → Reply Text (Unit {0}) → Option Text
last_error last (success _) = last
last_error last (failure e) = some e

abbrev pub return_error : Option Text → Sys (Unit {0})
return_error none = return tt
return_error (some e) = fail e

-- One round of the loop.
unfoldable pub remove_path : Text → Option Text → Sys (Option Text)
remove_path path last =
    if contains path (codes "/")
    then return last
    else attempt (remove_link path) >>= λ r. return (last_error last r)

-- `removeUserVisiblePaths`, with the error so far
unfoldable pub remove_paths : List Text → Option Text → Sys (Unit {0})
unfolding remove_path
remove_paths [] last = return_error last
remove_paths (path ∷ paths) last = remove_path path last >>= λ e. remove_paths paths e

abbrev pub remove_old : Option Text → Sys (Unit {0})
remove_old none = return tt
remove_old (some dir) = remove_all dir

-- Steps 8 and 9, with what is undone where they fail.
unfoldable pub switch : Text → Sys (Unit {0})
switch ts_dir =
    on_failure (link_tmp ts_dir) (remove_all ts_dir)
    >> on_failure rename_tmp (ignoring remove_tmp >> remove_all ts_dir)

-- Steps 5 to 11.
unfoldable pub project_calls : Text → Dict FileProjection → List Text → Option Text → Sys (Unit {0})
unfolding new_timestamp_dir write_payload_to_dir create_links switch remove_paths
project_calls ts_dir payload remove old =
    new_timestamp_dir ts_dir
    >> (write_payload_to_dir ts_dir payload
        >> (create_links payload
            >> (switch ts_dir >> (remove_paths remove none >> remove_old old))))

-- Steps 3 and 4, by the version that there is.
unfoldable pub write_over_calls : Text → Dict FileProjection → Option Text → Sys (Unit {0})
unfolding project_calls
write_over_calls ts_dir payload none = project_calls ts_dir payload [] none
write_over_calls ts_dir payload (some dir) =
    read (λ d. paths_to_remove payload (files_at d.volume dir)) >>= λ remove.
    read (λ d. should_write_payload payload (files_at d.volume dir)) >>= λ should.
    if not should && is_nil remove
    then return tt
    else project_calls ts_dir payload remove (some dir)

abbrev pub write_valid : Text → Reply Text (Dict FileProjection) → Sys (Unit {0})
write_valid ts_dir (failure e) = fail e
write_valid ts_dir (success cleaned) =
    read (λ d. d.volume.data_dir) >>= λ old. write_over_calls ts_dir cleaned old

-- `Write`, with the name of the directory that `MkdirTemp` makes
unfoldable pub write_calls : Text → Dict FileProjection → Sys (Unit {0})
unfolding write_over_calls
write_calls ts_dir payload = write_valid ts_dir (validate_payload payload)
