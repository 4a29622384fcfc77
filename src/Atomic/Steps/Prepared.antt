-- ===== src/Atomic/Steps/Prepared.antt =====
-- The calls of a write, up to the switch.
use persistent_pod_state.Base.{Text, Option, none, some, [], ◌∷◌, Reply, success, failure}
use persistent_pod_state.Base.GoMap.{Dict, insert, lookup-insert_self}
use persistent_pod_state.Atomic.{FileProjection}
use persistent_pod_state.Atomic.Write.{link_name}
use persistent_pod_state.Atomic.Write.Laws.{IsFresh}
use persistent_pod_state.Atomic.Calls.{
  Disk, Sys, ignoring, with_links, make_dir, change_mode, make_parents, write_file, put_file,
  link_file,
}
use persistent_pod_state.Atomic.Steps.{
  new_timestamp_dir, write_payload_to_dir, create_links, link_if_missing,
}
use persistent_pod_state.Atomic.Steps.Filled.{filled}
use persistent_pod_state.Atomic.Steps.Triple.{
  Triple, Leads, Triple-bind, Triple-return, Triple-attempt, Triple-read, Triple-call,
  Triple-weaken,
}
use persistent_pod_state.Atomic.Steps.Phases.{
  IsWhole, Kept, Ready, Kept-insert, Kept-with_links, Kept-IsWhole,
}

-- Calls that change nothing keep every property of the disk.
module _ {ok I : Disk → Type 0} (fine : (d : Disk) → I d → ok d) where
  pub Triple-change_mode : Triple ok I change_mode (λ _. I) I
  unfolding change_mode Leads
  Triple-change_mode = Triple-call _ _ fine (λ d i. i) (λ f d i. i)

  pub Triple-make_parents : Triple ok I make_parents (λ _. I) I
  unfolding make_parents Leads
  Triple-make_parents = Triple-call _ _ fine (λ d i. i) (λ f d i. i)

-- What is kept may be given up.
pub Triple-forget :
    {A : Type 0} {ok I J K : Disk → Type 0} {post : A → Disk → Type 0} {m : Sys A}
    → ((d : Disk) → J d → K d)
    → Triple ok I m post J
    → Triple ok I m post K
Triple-forget fine t = Triple-weaken (λ d i. i) (λ a d i. i) fine t

pub Triple-ignoring :
    {A : Type 0} {ok I bad : Disk → Type 0} (m : Sys A)
    → Triple ok I m (λ _. I) I
    → Triple ok I (ignoring m) (λ _. I) bad
Triple-ignoring m t = Triple-bind _ _ (Triple-attempt m t) (λ r. Triple-return tt (λ d i. i))

module _ (old : Option Text) (files : Dict FileProjection) (ts : Text)
    (written : Dict FileProjection) (fresh : IsFresh ts old) where
  abbrev pub IsFine : Disk → Type 0
  IsFine = IsWhole files written

  pub Kept-IsFine : (d : Disk) → Kept old files d → IsFine d
  Kept-IsFine = Kept-IsWhole old files written

  pub Ready-IsFine : (c : Dict FileProjection) (d : Disk) → Ready old files ts c d → IsFine d
  Ready-IsFine c d r = Kept-IsFine d r.kept

  pub Triple-new_timestamp_dir :
      Triple IsFine (Kept old files) (new_timestamp_dir ts) (λ _. Ready old files ts []) IsFine
  unfolding new_timestamp_dir make_dir Leads
  Triple-new_timestamp_dir =
      Triple-bind _ _
        (Triple-call _ _ Kept-IsFine
          (λ d k. record {
            kept = Kept-insert old files ts [] d fresh k;
            content = lookup-insert_self ts [] d.volume.versions;
          })
          (λ f d k. Kept-IsFine d k))
        (λ u. Triple-forget (Ready-IsFine []) (Triple-change_mode (Ready-IsFine [])))

  Ready-put_file :
      (c : Dict FileProjection) (path : Text) (file : FileProjection) (d : Disk)
      → Ready old files ts c d
      → Ready old files ts (insert path file c) (put_file ts path file d)
  Ready-put_file c path file d r = record {
    kept = Kept-insert old files ts _ d fresh r.kept;
    content = rw r.content (lookup-insert_self ts (insert path file c) d.volume.versions);
  }

  Triple-write_file :
      (c : Dict FileProjection) (path : Text) (file : FileProjection)
      → Triple IsFine
          (Ready old files ts c)
          (write_file ts path file)
          (λ _. Ready old files ts (insert path file c))
          IsFine
  unfolding write_file Leads
  Triple-write_file c path file =
      Triple-call _ _ (Ready-IsFine c) (Ready-put_file c path file) (λ f d r.
        Ready-IsFine _ _ (Ready-put_file c path (record file { content = f.partial }) d r))

  pub Triple-write_payload_to_dir :
      (payload c : Dict FileProjection)
      → Triple IsFine
          (Ready old files ts c)
          (write_payload_to_dir ts payload)
          (λ _. Ready old files ts (filled payload c))
          IsFine
  unfolding write_payload_to_dir filled
  Triple-write_payload_to_dir [] c = Triple-return tt (λ d r. r)
  Triple-write_payload_to_dir ((path, file) ∷ payload) c =
      Triple-bind _ _ (Triple-forget (Ready-IsFine c) (Triple-make_parents (Ready-IsFine c))) (λ _.
        Triple-bind _ _ (Triple-write_file c path file) (λ _.
          Triple-bind _ _ (Triple-ignoring change_mode (Triple-change_mode (Ready-IsFine _)))
            (λ _. Triple-write_payload_to_dir payload (insert path file c))))

  Ready-with_links :
      (c : Dict FileProjection) (links : Dict Text) (d : Disk)
      → Ready old files ts c d
      → Ready old files ts c (with_links links d)
  Ready-with_links c links d r = record {
    kept = Kept-with_links old files links d r.kept;
    content = r.content;
  }

  Triple-link_file :
      (c : Dict FileProjection) (name target : Text)
      → Triple IsFine
          (Ready old files ts c)
          (link_file name target)
          (λ _. Ready old files ts c)
          IsFine
  unfolding link_file Leads
  Triple-link_file c name target =
      Triple-call _ _ (Ready-IsFine c) (λ d. Ready-with_links c _ d) (λ f. Ready-IsFine c)

  Triple-link_if_missing :
      (c : Dict FileProjection) (name : Text) (found : Reply Text (Option Text))
      → Triple IsFine
          (Ready old files ts c)
          (link_if_missing name found)
          (λ _. Ready old files ts c)
          IsFine
  Triple-link_if_missing c name (success none) = Triple-link_file c name _
  Triple-link_if_missing c name (success (some target)) = Triple-return tt (λ d r. r)
  Triple-link_if_missing c name (failure e) = Triple-return tt (λ d r. r)

  pub Triple-create_links :
      (c payload : Dict FileProjection)
      → Triple IsFine
          (Ready old files ts c)
          (create_links payload)
          (λ _. Ready old files ts c)
          IsFine
  unfolding create_links
  Triple-create_links c [] = Triple-return tt (λ d r. r)
  Triple-create_links c ((path, file) ∷ payload) =
      Triple-bind _ _ (Triple-attempt _ (Triple-read _ (λ d r. (Ready-IsFine c d r, r, r))))
        (λ found.
          Triple-bind _ _ (Triple-link_if_missing c (link_name path) found)
            (λ _. Triple-create_links c payload))
