-- ===== src/Examples/Directories.antt =====
-- A write of one file over an older version.
use persistent_pod_state.Atomic.Write.Links.{IsFlat}
use persistent_pod_state.Atomic.Steps.Readable.{
  HasOwnLink, IsAsBeforeOrNew, seen, write_calls-IsAsBeforeOrNew, write_calls-seen,
}
use persistent_pod_state.Atomic.Steps.Refines.{IsLinked, stale_paths, tidy, write_calls-write}
use persistent_pod_state.Base.{
  success, Text, codes, some, [], ◌∷◌, ◌≡◌, refl, text_eq, nat_eq, arith, inr,
}
use persistent_pod_state.Base.GoMap.{Dict, insert}
use persistent_pod_state.Base.Strings.{split, has_prefix, contains, last_index, Free}
use persistent_pod_state.Atomic.{
  FileProjection, validate_payload, validate_path, validate_items, validate_first, clean,
  clean_items, clean_join, join_items,
}
use persistent_pod_state.Base.{failure, none, Option, List, true}
use persistent_pod_state.Base.Lists.{All}
use persistent_pod_state.Base.GoMap.{lookup, erase}
use persistent_pod_state.Atomic.Calls.{
  Disk, Fault, read, call, make_dir, change_mode, make_parents, write_file, remove_all, link_file,
  remove_link, link_tmp, rename_tmp,
}
use persistent_pod_state.Atomic.Steps.{
  write_calls, write_over_calls, project_calls, new_timestamp_dir, write_payload_to_dir,
  create_links, switch, remove_paths, remove_path,
}
use persistent_pod_state.Atomic.Steps.Whole.{start}
use persistent_pod_state.Atomic.Steps.Blocked.{write_calls_blocked}
use persistent_pod_state.Atomic.Write.{
  Volume, write, files_at, should_write_payload, should_write_file, paths_to_remove, all_paths,
  sub_paths, split_dir, trim_slash, difference, is_member, link_name,
}

abbrev file : Text → FileProjection
file content = record { content = content; mode = 438 }

abbrev payload : Dict FileProjection
payload = (codes "./tls//a.pem", file (codes "new")) ∷ []

abbrev cleaned : Dict FileProjection
cleaned = (codes "tls/a.pem", file (codes "new")) ∷ []

abbrev volume : Volume
volume = record {
  data_dir = some (codes "..1");
  versions = (codes "..1", (codes "b.pem", file (codes "old")) ∷ []) ∷ [];
  links = (codes "b.pem", codes "..data/b.pem") ∷ [];
}

payload_valid : validate_payload payload ≡ success cleaned
unfolding validate_payload validate_path validate_items validate_first clean clean_items clean_join
    join_items split has_prefix insert text_eq nat_eq
payload_valid = refl

-- The switch fails, and then the removal of the new version too.
abbrev faults : List (Option Fault)
faults =
    none
    ∷ none
    ∷ none
    ∷ none
    ∷ none
    ∷ none
    ∷ none
    ∷ none
    ∷ none
    ∷ none
    ∷ none
    ∷ some (record { error = codes "I/O error"; partial = []; left = [] })
    ∷ none
    ∷ some (record { error = codes "I/O error"; partial = []; left = cleaned })
    ∷ []

abbrev disk : Disk
disk = record { volume = volume; tmp_link = none }

-- A file with a link is written anew.
abbrev renewal : Dict FileProjection
renewal = (codes "b.pem", file (codes "new")) ∷ []

renewal_valid : validate_payload renewal ≡ success renewal
unfolding validate_payload validate_path validate_items validate_first clean clean_items clean_join
    join_items split has_prefix insert text_eq nat_eq
renewal_valid = refl

b_pem-IsFlat : IsFlat (codes "b.pem")
unfolding contains link_name sub_paths split_dir trim_slash is_member text_eq nat_eq
b_pem-IsFlat = record { no_slash = refl; own_link = refl; has_path = λ rest. refl }

b_pem_listed : lookup (codes "b.pem") renewal ≡ some (file (codes "new"))
unfolding lookup text_eq nat_eq
b_pem_listed = refl

b_pem-HasOwnLink : HasOwnLink (codes "b.pem") disk
unfolding lookup text_eq nat_eq
b_pem-HasOwnLink = refl

write_calls-IsAsBeforeOrNew_example :
    All (IsAsBeforeOrNew renewal (codes "b.pem") (file (codes "new")) disk) (
      (write_calls (codes "..2") renewal (start disk faults)).1.disk
      ∷ (write_calls (codes "..2") renewal (start disk faults)).1.past)
write_calls-IsAsBeforeOrNew_example =
    write_calls-IsAsBeforeOrNew (codes "..2") renewal renewal disk faults renewal_valid
      (λ e. ground arith) (codes "b.pem") (file (codes "new")) b_pem-IsFlat b_pem_listed
      b_pem-HasOwnLink

write_done : (write_calls (codes "..2") renewal (start disk [])).0 ≡ success tt
unfolding write_calls write_over_calls project_calls new_timestamp_dir write_payload_to_dir
    create_links switch remove_paths remove_path validate_payload validate_path validate_items
    validate_first clean clean_items clean_join join_items split has_prefix contains insert lookup
    erase text_eq nat_eq read call make_dir change_mode make_parents write_file remove_all link_file
    remove_link link_tmp rename_tmp paths_to_remove all_paths sub_paths split_dir trim_slash
    last_index difference is_member should_write_payload should_write_file link_name
write_done = refl

write_calls-seen_example :
    (found : FileProjection) × (seen
        (write_calls (codes "..2") renewal (start disk [])).1.disk.volume
        (codes "b.pem")
      ≡ some found)
    × (found.content ≡ codes "new")
write_calls-seen_example =
    write_calls-seen (codes "..2") renewal renewal disk [] renewal_valid (λ e. ground arith)
      (codes "b.pem") (file (codes "new")) b_pem-IsFlat b_pem_listed b_pem-HasOwnLink write_done

abbrev blocked : Disk
blocked = record { volume = volume; tmp_link = some (codes "..0") }

has_changed : should_write_payload cleaned (files_at volume (codes "..1")) ≡ true
unfolding should_write_payload should_write_file lookup text_eq nat_eq
has_changed = refl

write_calls_blocked_example :
    (e : Text) × ((write_calls (codes "..2") payload (start blocked [])).0 ≡ failure e)
    × ((write_calls (codes "..2") payload (start blocked [])).1.disk.tmp_link ≡ some (codes "..0"))
write_calls_blocked_example =
    write_calls_blocked (codes "..2") (codes "..0") (codes "..1") payload cleaned blocked []
      payload_valid refl refl has_changed

stale-IsLinked : All (IsLinked volume.links) (stale_paths cleaned volume volume.data_dir)
unfolding paths_to_remove all_paths sub_paths split_dir trim_slash last_index difference is_member
    lookup text_eq nat_eq contains
stale-IsLinked = (inr (codes "..data/b.pem", refl), tt)

write_calls-write_example :
    ((write_calls (codes "..2") payload (start disk [])).0 ≡ (write (codes "..2") payload volume).0)
    × ((write_calls (codes "..2") payload (start disk [])).1.disk
        ≡ tidy (write (codes "..2") payload volume).1)
write_calls-write_example =
    write_calls-write (codes "..2") payload cleaned disk payload_valid refl stale-IsLinked

file_name-Free : Free b'/' (codes "c.pem")
file_name-Free = (
  λ e. ground arith,
  (λ e. ground arith, (λ e. ground arith, (λ e. ground arith, (λ e. ground arith, tt)))),
)
