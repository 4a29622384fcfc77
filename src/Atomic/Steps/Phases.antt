-- ===== src/Atomic/Steps/Phases.antt =====
-- What the target directory is like before and after `..data` is switched.
use persistent_pod_state.Base.{
  Text, Option, none, some, [], ◌≡◌, ◌≢◌, ◌⊎◌, inl, refl, sym, ap, ◌∙◌, arith, text_eq,
}
use persistent_pod_state.Base.GoMap.{Dict, lookup, insert, erase, lookup-insert_ne, lookup-erase}
use persistent_pod_state.Atomic.{FileProjection}
use persistent_pod_state.Atomic.Write.{Volume, files_or_none, files_at}
use persistent_pod_state.Atomic.Write.Laws.{current_files, IsFresh}
use persistent_pod_state.Atomic.Calls.{Disk, with_versions, with_links}

-- The files behind `..data` are those that were there, or those that are to be.
abbrev pub IsWhole : Dict FileProjection → Dict FileProjection → Disk → Type 0
IsWhole files payload d = (current_files d.volume ≡ files) ⊎ (current_files d.volume ≡ payload)

-- The files of a version, if there is one.
abbrev pub version_files : Option Text → Volume → Dict FileProjection
version_files none vol = []
version_files (some dir) vol = files_at vol dir

pub current_files_at :
    (vol : Volume) (o : Option Text) → vol.data_dir ≡ o → current_files vol ≡ version_files o vol
current_files_at vol none e = rw e refl
current_files_at vol (some dir) e = rw e refl

-- A version is in use and has the files.
pub record Kept (old : Option Text) (files : Dict FileProjection) (d : Disk) : Type 0 where
  pub kept_dir : d.volume.data_dir ≡ old
  pub kept_files : version_files old d.volume ≡ files

-- Beside it there is a new version with its files so far.
pub record Ready (old : Option Text) (files : Dict FileProjection) (ts : Text)
    (written : Dict FileProjection) (d : Disk) : Type 0 where
  pub kept : Kept old files d
  pub content : lookup ts d.volume.versions ≡ some written

-- The link to the new version is there too.
pub record Linked (old : Option Text) (files : Dict FileProjection) (ts : Text)
    (written : Dict FileProjection) (d : Disk) : Type 0 where
  pub ready : Ready old files ts written d
  pub linked : d.tmp_link ≡ some ts

-- The new version is in use.
pub record Switched (ts : Text) (written : Dict FileProjection) (d : Disk) : Type 0 where
  pub new_dir : d.volume.data_dir ≡ some ts
  pub new_content : lookup ts d.volume.versions ≡ some written

Kept_version_files :
    (old : Option Text) (files : Dict FileProjection) (ts : Text) (vol : Volume)
    (versions : Dict (Dict FileProjection))
    → ((dir : Text) → dir ≢ ts → lookup dir versions ≡ lookup dir vol.versions)
    → IsFresh ts old
    → version_files old vol ≡ files
    → version_files old (record vol { versions = versions }) ≡ files
Kept_version_files none files ts vol versions same fresh e = e
Kept_version_files (some dir) files ts vol versions same fresh e =
    ap files_or_none (same dir fresh) ∙ e

-- Another version may change.
Kept-versions :
    (old : Option Text) (files : Dict FileProjection) (ts : Text) (d : Disk)
    (versions : Dict (Dict FileProjection))
    → ((dir : Text) → dir ≢ ts → lookup dir versions ≡ lookup dir d.volume.versions)
    → IsFresh ts old
    → Kept old files d
    → Kept old files (with_versions versions d)
Kept-versions old files ts d versions same fresh k = record {
  kept_dir = k.kept_dir;
  kept_files = Kept_version_files old files ts d.volume versions same fresh k.kept_files;
}

pub Kept-insert :
    (old : Option Text) (files : Dict FileProjection) (ts : Text) (v : Dict FileProjection)
    (d : Disk)
    → IsFresh ts old
    → Kept old files d
    → Kept old files (with_versions (insert ts v d.volume.versions) d)
Kept-insert old files ts v d =
    Kept-versions old files ts d _
      (λ dir n. lookup-insert_ne ts dir v d.volume.versions (λ e. n (sym e)))

pub lookup-erase_ne :
    {V : Type 0} (k j : Text) (m : Dict V) → k ≢ j → lookup j (erase k m) ≡ lookup j m
lookup-erase_ne k j m h = rw lookup-erase (ground arith)

pub Kept-erase :
    (old : Option Text) (files : Dict FileProjection) (ts : Text) (d : Disk)
    → IsFresh ts old
    → Kept old files d
    → Kept old files (with_versions (erase ts d.volume.versions) d)
Kept-erase old files ts d =
    Kept-versions old files ts d _
      (λ dir n. lookup-erase_ne ts dir d.volume.versions (λ e. n (sym e)))

-- The links are no part of that.
pub Kept-with_links :
    (old : Option Text) (files : Dict FileProjection) (links : Dict Text) (d : Disk)
    → Kept old files d
    → Kept old files (with_links links d)
Kept-with_links none files links d k = record { kept_dir = k.kept_dir; kept_files = k.kept_files }
Kept-with_links (some dir) files links d k = record {
  kept_dir = k.kept_dir;
  kept_files = k.kept_files;
}

pub Kept-IsWhole :
    (old : Option Text) (files payload : Dict FileProjection) (d : Disk)
    → Kept old files d
    → IsWhole files payload d
Kept-IsWhole old files payload d k = inl (current_files_at d.volume old k.kept_dir ∙ k.kept_files)

pub current_files-Switched :
    (ts : Text) (written : Dict FileProjection) (d : Disk)
    → Switched ts written d
    → current_files d.volume ≡ written
current_files-Switched ts written d s =
    current_files_at d.volume (some ts) s.new_dir ∙ ap files_or_none s.new_content
