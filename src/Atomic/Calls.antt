-- ===== src/Atomic/Calls.antt =====
-- Calls of the file system on the target directory, one at a time, each of which may fail. What
-- happened so far is kept, so that every moment between two calls can be spoken of.
use persistent_pod_state.Base.{
  Text, codes, Option, none, some, List, [], ◌∷◌, Reply, success, failure,
}
use persistent_pod_state.Base.GoMap.{Dict, lookup, insert, erase}
use persistent_pod_state.Atomic.{FileProjection}
use persistent_pod_state.Atomic.Write.{Volume, files_at}

-- The target directory with the link `..data_tmp`.
pub record Disk : Type 0 where
  pub volume : Volume
  pub tmp_link : Option Text

-- How a call fails: with an error, a part of a file that was written, and the files that a removal
-- has left.
pub record Fault : Type 0 where
  pub error : Text
  pub partial : Text
  pub left : Dict FileProjection

-- The disk, its states so far, and what is to become of the next calls.
pub record World : Type 0 where
  pub disk : Disk
  pub past : List Disk
  pub faults : List (Option Fault)

abbrev pub Sys : Type 0 → Type 0
Sys A = World → Reply Text A × World

-- The next call's fault. After the last one all calls succeed.
abbrev pub first_fault : List (Option Fault) → Option Fault
first_fault [] = none
first_fault (f ∷ faults) = f

abbrev pub later_faults : List (Option Fault) → List (Option Fault)
later_faults [] = []
later_faults (f ∷ faults) = faults

-- The disk becomes another one.
abbrev pub moved : World → Disk → World
moved w d = record { disk = d; past = w.disk ∷ w.past; faults = later_faults w.faults }

abbrev pub return : {A : Type 0} → A → Sys A
return a w = (success a, w)

abbrev pub fail : {A : Type 0} → Text → Sys A
fail e w = (failure e, w)

abbrev pub continue : {A B : Type 0} → (A → Sys B) → Reply Text A × World → Reply Text B × World
continue f (success a, w) = f a w
continue f (failure e, w) = (failure e, w)

infixl 5 ◌>>=◌ ◌>>◌
abbrev pub ◌>>=◌ : {A B : Type 0} → Sys A → (A → Sys B) → Sys B
◌>>=◌ m f w = continue f (m w)

abbrev pub ◌>>◌ : {B : Type 0} → Sys (Unit {0}) → Sys B → Sys B
m >> k = m >>= λ _. k

-- A failure is passed on after something else was done, whose own failure is not looked at.
abbrev pub cleaned_up : {A : Type 0} → Sys (Unit {0}) → Reply Text A × World → Reply Text A × World
cleaned_up h (success a, w) = (success a, w)
cleaned_up h (failure e, w) = (failure e, (h w).1)

abbrev pub on_failure : {A : Type 0} → Sys A → Sys (Unit {0}) → Sys A
on_failure m h w = cleaned_up h (m w)

-- The reply of a call, be it an error, is looked at.
abbrev pub attempted : {A : Type 0} → Reply Text A × World → Reply Text (Reply Text A) × World
attempted (r, w) = (success r, w)

abbrev pub attempt : {A : Type 0} → Sys A → Sys (Reply Text A)
attempt m w = attempted (m w)

-- A call whose failure is only logged.
abbrev pub ignoring : {A : Type 0} → Sys A → Sys (Unit {0})
ignoring m = attempt m >>= λ r. return tt

-- A read of the disk.
abbrev pub read_by : {A : Type 0} → Option Fault → (Disk → A) → World → Reply Text A × World
read_by none f w = (success (f w.disk), moved w w.disk)
read_by (some fault) f w = (failure fault.error, moved w w.disk)

unfoldable pub read : {A : Type 0} → (Disk → A) → Sys A
read f w = read_by (first_fault w.faults) f w

-- What a call that was made does, or its error.
abbrev pub made : Reply Text Disk → World → Reply Text (Unit {0}) × World
made (success d) w = (success tt, moved w d)
made (failure e) w = (failure e, moved w w.disk)

abbrev pub call_by :
    Option Fault
    → (Disk → Reply Text Disk)
    → (Fault → Disk → Disk)
    → World
    → Reply Text (Unit {0}) × World
call_by none act harm w = made (act w.disk) w
call_by (some fault) act harm w = (failure fault.error, moved w (harm fault w.disk))

-- A call, with what it does and what its failure may leave behind.
unfoldable pub call : (Disk → Reply Text Disk) → (Fault → Disk → Disk) → Sys (Unit {0})
call act harm w = call_by (first_fault w.faults) act harm w

abbrev pub unharmed : Fault → Disk → Disk
unharmed f d = d

abbrev pub with_versions : Dict (Dict FileProjection) → Disk → Disk
with_versions versions d = record d { volume = record (d.volume) { versions = versions } }

abbrev pub with_links : Dict Text → Disk → Disk
with_links links d = record d { volume = record (d.volume) { links = links } }

-- `os.MkdirTemp`, of the name that it picks
unfoldable pub make_dir : Text → Sys (Unit {0})
make_dir dir = call (λ d. success (with_versions (insert dir [] d.volume.versions) d)) unharmed

-- `os.Chmod` and `os.MkdirAll`, which the state of the disk does not show
unfoldable pub change_mode : Sys (Unit {0})
change_mode = call (λ d. success d) unharmed

unfoldable pub make_parents : Sys (Unit {0})
make_parents = call (λ d. success d) unharmed

abbrev pub put_file : Text → Text → FileProjection → Disk → Disk
put_file dir path file d =
    with_versions (insert dir (insert path file (files_at d.volume dir)) d.volume.versions) d

-- `os.WriteFile` into a version, which may stop short
unfoldable pub write_file : Text → Text → FileProjection → Sys (Unit {0})
write_file dir path file =
    call (λ d. success (put_file dir path file d))
      (λ fault d. put_file dir path (record file { content = fault.partial }) d)

-- `os.RemoveAll` of a version, which may leave a part
unfoldable pub remove_all : Text → Sys (Unit {0})
remove_all dir =
    call (λ d. success (with_versions (erase dir d.volume.versions) d))
      (λ fault d. with_versions (insert dir fault.left d.volume.versions) d)

-- `os.Symlink` of a visible name
unfoldable pub link_file : Text → Text → Sys (Unit {0})
link_file name target =
    call (λ d. success (with_links (insert name target d.volume.links) d)) unharmed

abbrev pub removed_link : Text → Disk → Option Text → Reply Text Disk
removed_link name d none = failure (codes "no such file or directory")
removed_link name d (some target) = success (with_links (erase name d.volume.links) d)

-- `os.Remove` of a visible name
unfoldable pub remove_link : Text → Sys (Unit {0})
remove_link name = call (λ d. removed_link name d (lookup name d.volume.links)) unharmed

abbrev pub linked_tmp : Text → Disk → Option Text → Reply Text Disk
linked_tmp dir d none = success (record d { tmp_link = some dir })
linked_tmp dir d (some other) = failure (codes "file exists")

-- `os.Symlink` of `..data_tmp`, which fails where that is there
unfoldable pub link_tmp : Text → Sys (Unit {0})
link_tmp dir = call (λ d. linked_tmp dir d d.tmp_link) unharmed

abbrev pub renamed_tmp : Disk → Option Text → Reply Text Disk
renamed_tmp d none = failure (codes "no such file or directory")
renamed_tmp d (some dir) =
    success (record d { volume = record (d.volume) { data_dir = some dir }; tmp_link = none })

-- `os.Rename` of `..data_tmp` to `..data`, which happens at once or not at all
unfoldable pub rename_tmp : Sys (Unit {0})
rename_tmp = call (λ d. renamed_tmp d d.tmp_link) unharmed

-- `os.Remove` of `..data_tmp`
unfoldable pub remove_tmp : Sys (Unit {0})
remove_tmp = call (λ d. success (record d { tmp_link = none })) unharmed
