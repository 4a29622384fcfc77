-- ===== src/Atomic/Steps/Smooth.antt =====
-- Runs in which no call fails.
use persistent_pod_state.Base.{
  Text, codes, Option, none, some, List, [], ◌∷◌, ◌++◌, Reply, success, ◌≡◌, refl, ap, ◌∙◌, arith,
  text_eq, nat_eq,
}
use persistent_pod_state.Base.GoMap.{Dict, lookup, insert, lookup-insert_self}
use persistent_pod_state.Atomic.{FileProjection}
use persistent_pod_state.Atomic.Write.{link_name, create_user_visible_files, remove_version}
use persistent_pod_state.Atomic.Calls.{
  Disk, Fault, World, Sys, return, continue, ◌>>=◌, ◌>>◌, on_failure, cleaned_up, attempt,
  attempted, ignoring, read, call, with_versions, with_links, put_file, make_dir, change_mode,
  make_parents, write_file, remove_all, link_file, link_tmp, linked_tmp, rename_tmp, remove_tmp,
}
use persistent_pod_state.Atomic.Steps.{
  new_timestamp_dir, write_payload_to_dir, create_links, link_if_missing, remove_old, switch,
}
use persistent_pod_state.Atomic.Steps.Filled.{filled}

abbrev pub calm : Disk → List Disk → World
calm d past = record { disk = d; past = past; faults = [] }

-- From a disk, where no call fails, the calls return a value and lead to a disk.
pub record Runs {A : Type 0} (m : Sys A) (d : Disk) (a : A) (d' : Disk) : Type 0 where
  pub run :
      (past : List Disk) → (later : List Disk) × (m (calm d past) ≡ (success a, calm d' later))

module _ {A : Type 0} where
  pub Runs-return : (a : A) (d : Disk) → Runs (return a) d a d
  Runs-return a d = record { run = λ past. (past, refl) }

  pub Runs-read : (f : Disk → A) (d : Disk) → Runs (read f) d (f d) d
  unfolding read
  Runs-read f d = record { run = λ past. (d ∷ past, refl) }

  pub Runs-attempt :
      (m : Sys A) {d : Disk} {a : A} {d' : Disk} → Runs m d a d' → Runs (attempt m) d (success a) d'
  Runs-attempt m h = record { run = λ past. let (later, e) = h.run past in (later, ap attempted e) }

  pub Runs-on_failure :
      (m : Sys A) (k : Sys (Unit {0})) {d : Disk} {a : A} {d' : Disk}
      → Runs m d a d'
      → Runs (on_failure m k) d a d'
  Runs-on_failure m k h = record {
    run = λ past. let (later, e) = h.run past in (later, ap (cleaned_up k) e);
  }

  pub Runs-bind :
      {B : Type 0} (m : Sys A) (f : A → Sys B) {d d' d'' : Disk} {a : A} {b : B}
      → Runs m d a d'
      → Runs (f a) d' b d''
      → Runs (m >>= f) d b d''
  Runs-bind m f hm hf = record {
    run = λ past. let (p, e) = hm.run past in let (q, e') = hf.run p in (q, ap (continue f) e ∙ e');
  }

pub Runs-seq :
    {B : Type 0} (m : Sys (Unit {0})) (k : Sys B) {d d' d'' : Disk} {b : B}
    → Runs m d tt d'
    → Runs k d' b d''
    → Runs (m >> k) d b d''
Runs-seq m k hm hk = Runs-bind m (λ u. k) hm hk

pub Runs-call :
    (act : Disk → Reply Text Disk) (harm : Fault → Disk → Disk) (d d' : Disk)
    → act d ≡ success d'
    → Runs (call act harm) d tt d'
unfolding call
Runs-call act harm d d' h = record { run = λ past. (d ∷ past, rw h refl) }

Runs-change_mode : (d : Disk) → Runs change_mode d tt d
unfolding change_mode
Runs-change_mode d = Runs-call (λ d. success d) _ d d refl

Runs-idle : (d : Disk) → Runs (ignoring change_mode) d tt d
Runs-idle d =
    Runs-bind (attempt change_mode) (λ r. return tt) (Runs-attempt change_mode (Runs-change_mode d))
      (Runs-return tt d)

pub insert-insert :
    {V : Type 0} (k : Text) (v w : V) (d : Dict V) → insert k v (insert k w d) ≡ insert k v d
unfolding insert
insert-insert k v w [] = ground arith
insert-insert k v w ((j, u) ∷ d) = ground (arith, insert-insert k v w d)

-- The disk with the files of a new version.
abbrev pub filled_disk : Text → Dict FileProjection → Disk → Disk
filled_disk ts c d = with_versions (insert ts c d.volume.versions) d

pub Runs-new_timestamp_dir :
    (ts : Text) (d : Disk) → Runs (new_timestamp_dir ts) d tt (filled_disk ts [] d)
unfolding new_timestamp_dir make_dir change_mode
Runs-new_timestamp_dir ts d =
    Runs-bind _ _ (Runs-call _ _ d (filled_disk ts [] d) refl) (Runs-call _ _ _ _ refl)

put_file_filled :
    (ts path : Text) (file : FileProjection) (c : Dict FileProjection) (d : Disk)
    → put_file ts path file (filled_disk ts c d) ≡ filled_disk ts (insert path file c) d
put_file_filled ts path file c d =
    rw
      (
        lookup-insert_self ts c d.volume.versions,
        insert-insert ts (insert path file c) c d.volume.versions,
      )
      refl

pub Runs-write_payload_to_dir :
    (ts : Text) (payload c : Dict FileProjection) (d : Disk)
    → Runs
        (write_payload_to_dir ts payload)
        (filled_disk ts c d)
        tt
        (filled_disk ts (filled payload c) d)
unfolding write_payload_to_dir make_parents write_file filled
Runs-write_payload_to_dir ts [] c d = Runs-return tt _
Runs-write_payload_to_dir ts ((path, file) ∷ payload) c d = Runs-seq _ _ (Runs-call _ _ _ _ refl) (
    Runs-seq _ _ (Runs-call _ _ _ _ (ap success (put_file_filled ts path file c d)))
      (Runs-seq _ _ (Runs-idle _) (Runs-write_payload_to_dir ts payload (insert path file c) d)))

Runs-link_if_missing :
    (name : Text) (d : Disk) (o : Option Text)
    → Runs (link_if_missing name (success o)) d tt (
        with_links
          (elim o [
            | none ↦ insert name (codes "..data/" ++ name) d.volume.links
            | some target ↦ d.volume.links
          ])
          d)
unfolding link_file
Runs-link_if_missing name d none = Runs-call _ _ d _ refl
Runs-link_if_missing name d (some target) = Runs-return tt d

pub Runs-create_links :
    (payload : Dict FileProjection) (d : Disk)
    → Runs
        (create_links payload)
        d
        tt
        (with_links (create_user_visible_files payload d.volume.links) d)
unfolding create_links create_user_visible_files
Runs-create_links [] d = Runs-return tt d
Runs-create_links ((path, file) ∷ payload) d =
    Runs-bind (attempt (read (λ d. lookup (link_name path) d.volume.links)))
      (λ found. link_if_missing (link_name path) found >> create_links payload)
      (Runs-attempt _ (Runs-read (λ d. lookup (link_name path) d.volume.links) d))
      (Runs-bind
        (link_if_missing (link_name path) (success (lookup (link_name path) d.volume.links)))
        (λ u. create_links payload)
        (Runs-link_if_missing (link_name path) d (lookup (link_name path) d.volume.links))
        (Runs-create_links payload _))

abbrev pub switched_disk : Text → Disk → Disk
switched_disk ts d = record d { volume = record (d.volume) { data_dir = some ts }; tmp_link = none }

pub Runs-switch :
    (ts : Text) (d : Disk) → d.tmp_link ≡ none → Runs (switch ts) d tt (switched_disk ts d)
unfolding switch link_tmp rename_tmp
Runs-switch ts d h =
    Runs-seq (on_failure (link_tmp ts) (remove_all ts)) _
      (Runs-on_failure (link_tmp ts) (remove_all ts)
        (Runs-call _ _ d (record d { tmp_link = some ts }) (ap (linked_tmp ts d) h)))
      (Runs-on_failure rename_tmp (ignoring remove_tmp >> remove_all ts)
        (Runs-call _ _ _ (switched_disk ts d) refl))

pub Runs-remove_old :
    (old : Option Text) (d : Disk)
    → Runs (remove_old old) d tt (with_versions (remove_version old d.volume.versions) d)
unfolding remove_all remove_version
Runs-remove_old none d = Runs-return tt d
Runs-remove_old (some dir) d = Runs-call _ _ d _ refl
