-- ===== src/Webhook/Server/Laws.antt =====
-- Which handlers stay.
use persistent_pod_state.Base.{
  Text, ◌≢◌, ◌⊎◌, subst, ◌==◌, text_eq, if◌then◌else◌, Bool, true, false, none, List, [], ◌∷◌, ◌≡◌,
  inl, inr, refl, sym, ◌∙◌, Bool-cases, arith,
}
use persistent_pod_state.Base.GoMap.{Dict, lookup, erase, lookup-erase}
use persistent_pod_state.Webhook.Server.{
  Handlers, is_disabled, disable_paths, delete_all, filter_active_handlers,
}

-- Whether the paths list it.
unfoldable lists : Text → List Text → Bool
lists path [] = false
lists path (p ∷ paths) = let rest = lists path paths in if p == path then true else rest

lists_skip :
    (path p : Text) (paths : List Text) → p ≢ path → lists path (p ∷ paths) ≡ lists path paths
unfolding lists
lists_skip path p paths n = ground arith

lists_first : (path p : Text) (paths : List Text) → p ≡ path → lists path (p ∷ paths) ≡ true
unfolding lists
lists_first path p paths e = ground arith

module _ {B : Type 0} where
  lookup-delete_all :
      (path : Text) (paths : List Text) (m : Dict B)
      → lookup path (delete_all paths m) ≡ (if lists path paths then none else lookup path m)
  unfolding delete_all lists
  lookup-delete_all path [] m = refl
  lookup-delete_all path (p ∷ paths) m =
      ground (arith, lookup-delete_all path paths (erase p m), lookup-erase p path m)

  lists-disable_paths_active :
      (path : Text) (m : Dict B) (gates : Dict Bool)
      → is_disabled gates path ≡ false
      → lists path (disable_paths m gates) ≡ false
  unfolding disable_paths lists
  lists-disable_paths_active path [] gates h = refl
  lists-disable_paths_active path ((p, b) ∷ m) gates h = elim (text_eq.dec p path) [
    | yes e ↦
        rw (subst (λ k. is_disabled gates k ≡ false) (sym e) h)
          (lists-disable_paths_active path m gates h)
    | no n ↦ elim (Bool-cases (is_disabled gates p)) [
      | inl e ↦ rw e (lists_skip path p _ n ∙ lists-disable_paths_active path m gates h)
      | inr e ↦ rw e (lists-disable_paths_active path m gates h)
    ]
  ]

  -- A disabled path is listed, or it had no handler.
  abbrev IsGone : Text → List Text → Dict B → Type 0
  IsGone path paths m = (lists path paths ≡ true) ⊎ (lookup path m ≡ none)

  disable_paths-IsGone :
      (path : Text) (m : Dict B) (gates : Dict Bool)
      → is_disabled gates path ≡ true
      → IsGone path (disable_paths m gates) m
  unfolding disable_paths lookup
  disable_paths-IsGone path [] gates h = inr refl
  disable_paths-IsGone path ((p, b) ∷ m) gates h = elim (text_eq.dec p path) [
    | yes e ↦ rw (subst (λ k. is_disabled gates k ≡ true) (sym e) h) (inl (lists_first path p _ e))
    | no n ↦ elim (disable_paths-IsGone path m gates h) [
      | inl l ↦ elim (Bool-cases (is_disabled gates p)) [
        | inl e ↦ rw e (inl (lists_skip path p _ n ∙ l))
        | inr e ↦ rw e (inl l)
      ]
      | inr l ↦ inr (ground arith)
    ]
  ]

  -- After the gates are applied a path has its handler, unless its gate is shut; then it has none.
  pub lookup-filter_active_handlers :
      (path : Text) (h : Handlers B)
      → lookup path (filter_active_handlers h).builders
        ≡ (if is_disabled h.gates path then none else lookup path h.builders)
  unfolding filter_active_handlers
  lookup-filter_active_handlers path h =
      lookup-delete_all path (disable_paths h.builders h.gates) h.builders
      ∙ elim (Bool-cases (is_disabled h.gates path)) [
        | inl e ↦ ground (arith, disable_paths-IsGone path h.builders h.gates e)
        | inr e ↦ ground (arith, lists-disable_paths_active path h.builders h.gates e)
      ]
