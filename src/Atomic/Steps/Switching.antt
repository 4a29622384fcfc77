-- ===== src/Atomic/Steps/Switching.antt =====
-- The calls of a write, from the switch on.
use persistent_pod_state.Base.{
  Text, codes, Option, none, some, List, [], ◌∷◌, ◌≡◌, ◌≢◌, inl, inr, refl, sym, ◌∙◌, Bool-cases,
}
use persistent_pod_state.Base.Strings.{contains}
use persistent_pod_state.Base.GoMap.{Dict, lookup, insert, lookup-insert_ne}
use persistent_pod_state.Atomic.{FileProjection}
use persistent_pod_state.Atomic.Write.Laws.{IsFresh}
use persistent_pod_state.Atomic.Calls.{
  Disk, with_versions, remove_all, remove_link, link_tmp, rename_tmp, remove_tmp, linked_tmp,
  renamed_tmp, removed_link,
}
use persistent_pod_state.Atomic.Steps.{remove_paths, remove_path, last_error, switch, remove_old}
use persistent_pod_state.Atomic.Steps.Triple.{
  Triple, Leads, Triple-bind, Triple-return, Triple-fail, Triple-on_failure, Triple-attempt,
  Triple-call,
}
use persistent_pod_state.Atomic.Steps.Phases.{
  IsWhole, Kept, Ready, Linked, Switched, Kept-insert, Kept-erase, Kept-IsWhole,
  current_files-Switched, lookup-erase_ne,
}
use persistent_pod_state.Atomic.Steps.Prepared.{Triple-forget, Triple-ignoring}

module _ (old : Option Text) (files : Dict FileProjection) (ts : Text)
    (written : Dict FileProjection) (fresh : IsFresh ts old) where
  abbrev IsFine : Disk → Type 0
  IsFine = IsWhole files written

  Triple-remove_new :
      Triple IsFine (Kept old files) (remove_all ts) (λ _. Kept old files) (Kept old files)
  unfolding remove_all Leads
  Triple-remove_new =
      Triple-call _ _ (Kept-IsWhole old files written) (λ d. Kept-erase old files ts d fresh)
        (λ f d. Kept-insert old files ts f.left d fresh)

  Triple-remove_tmp :
      Triple IsFine (Kept old files) (remove_tmp) (λ _. Kept old files) (Kept old files)
  unfolding remove_tmp Leads
  Triple-remove_tmp =
      Triple-call _ _ (Kept-IsWhole old files written)
        (λ d k. record { kept_dir = k.kept_dir; kept_files = k.kept_files }) (λ f d k. k)

  Leads-linked_tmp :
      (d : Disk) (link : Option Text)
      → Ready old files ts written d
      → Leads (Linked old files ts written) (Kept old files) d (linked_tmp ts d link)
  unfolding Leads
  Leads-linked_tmp d none r = record {
    ready = record {
      kept = record { kept_dir = r.kept.kept_dir; kept_files = r.kept.kept_files };
      content = r.content;
    };
    linked = refl;
  }
  Leads-linked_tmp d (some other) r = r.kept

  Triple-link_tmp :
      Triple IsFine
        (Ready old files ts written)
        (link_tmp ts)
        (λ _. Linked old files ts written)
        (Kept old files)
  unfolding link_tmp
  Triple-link_tmp =
      Triple-call _ _ (λ d r. Kept-IsWhole old files written d r.kept)
        (λ d. Leads-linked_tmp d d.tmp_link) (λ f d r. r.kept)

  Leads-renamed_tmp :
      (d : Disk) (link : Option Text)
      → d.tmp_link ≡ link
      → Linked old files ts written d
      → Leads (Switched ts written) (Kept old files) d (renamed_tmp d link)
  unfolding Leads
  Leads-renamed_tmp d none e l = l.ready.kept
  Leads-renamed_tmp d (some dir) e l = record {
    new_dir = sym e ∙ l.linked;
    new_content = l.ready.content;
  }

  Triple-rename_tmp :
      Triple IsFine
        (Linked old files ts written)
        rename_tmp
        (λ _. Switched ts written)
        (Kept old files)
  unfolding rename_tmp
  Triple-rename_tmp =
      Triple-call _ _ (λ d l. Kept-IsWhole old files written d l.ready.kept)
        (λ d. Leads-renamed_tmp d d.tmp_link refl) (λ f d l. l.ready.kept)

  pub Triple-switch :
      Triple IsFine (Ready old files ts written) (switch ts) (λ _. Switched ts written) IsFine
  unfolding switch
  Triple-switch = Triple-forget (Kept-IsWhole old files written) (
      Triple-bind _ _ (Triple-on_failure _ _ Triple-link_tmp Triple-remove_new) (λ _.
        Triple-on_failure _ _ Triple-rename_tmp
          (Triple-bind _ _ (Triple-ignoring _ Triple-remove_tmp) (λ _. Triple-remove_new))))

  Switched-IsFine : (d : Disk) → Switched ts written d → IsFine d
  Switched-IsFine d s = inr (current_files-Switched ts written d s)

  Leads-removed_link :
      (name : Text) (d : Disk) (target : Option Text)
      → Switched ts written d
      → Leads (Switched ts written) (Switched ts written) d (removed_link name d target)
  unfolding Leads
  Leads-removed_link name d none s = s
  Leads-removed_link name d (some target) s = record {
    new_dir = s.new_dir;
    new_content = s.new_content;
  }

  Triple-remove_link :
      (name : Text)
      → Triple IsFine
          (Switched ts written)
          (remove_link name)
          (λ _. Switched ts written)
          (Switched ts written)
  unfolding remove_link
  Triple-remove_link name =
      Triple-call _ _ Switched-IsFine (λ d. Leads-removed_link name d (lookup name d.volume.links))
        (λ f d s. s)

  Triple-remove_path :
      (path : Text) (last : Option Text)
      → Triple IsFine
          (Switched ts written)
          (remove_path path last)
          (λ _. Switched ts written)
          IsFine
  unfolding remove_path
  Triple-remove_path path last = elim (Bool-cases (contains path (codes "/"))) [
    | inl e ↦ rw e (Triple-return last (λ d s. s))
    | inr e ↦ rw e (
        Triple-bind _ _ (Triple-attempt _ (Triple-remove_link path))
          (λ r. Triple-return (last_error last r) (λ d s. s)))
  ]

  pub Triple-remove_paths :
      (paths : List Text) (last : Option Text)
      → Triple IsFine
          (Switched ts written)
          (remove_paths paths last)
          (λ _. Switched ts written)
          IsFine
  unfolding remove_paths
  Triple-remove_paths [] none = Triple-return tt (λ d s. s)
  Triple-remove_paths [] (some e) = Triple-fail e Switched-IsFine
  Triple-remove_paths (path ∷ paths) last =
      Triple-bind _ _ (Triple-remove_path path last) (λ e. Triple-remove_paths paths e)

  Triple-remove_all_old :
      (dir : Text)
      → dir ≢ ts
      → Triple IsFine (Switched ts written) (remove_all dir) (λ _. Switched ts written) IsFine
  unfolding remove_all Leads
  Triple-remove_all_old dir n =
      Triple-call _ _ Switched-IsFine
        (λ d s. record {
          new_dir = s.new_dir;
          new_content = lookup-erase_ne dir ts d.volume.versions n ∙ s.new_content;
        })
        (λ f d s. Switched-IsFine (with_versions (insert dir f.left d.volume.versions) d) (record {
          new_dir = s.new_dir;
          new_content = lookup-insert_ne dir ts f.left d.volume.versions n ∙ s.new_content;
        }))

  Triple-remove_old_at :
      (o : Option Text)
      → IsFresh ts o
      → Triple IsFine (Switched ts written) (remove_old o) (λ _. Switched ts written) IsFine
  Triple-remove_old_at none n = Triple-return tt (λ d s. s)
  Triple-remove_old_at (some dir) n = Triple-remove_all_old dir n

  pub Triple-remove_old :
      Triple IsFine (Switched ts written) (remove_old old) (λ _. Switched ts written) IsFine
  Triple-remove_old = Triple-remove_old_at old fresh
