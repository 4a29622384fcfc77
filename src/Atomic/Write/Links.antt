-- ===== src/Atomic/Write/Links.antt =====
-- The links that are visible to the user after a write.
use persistent_pod_state.Base.{
  ◌∙◌, Text, codes, text_eq, true, false, not, ◌&&◌, Option, none, some, List, [], ◌∷◌, ◌++◌, ◌≡◌,
  inl, inr, refl, ap, sym, subst, Bool-cases, arith, ◌||◌,
}
use persistent_pod_state.Base.Strings.{contains}
use persistent_pod_state.Base.Lists.{length}
use persistent_pod_state.Base.GoMap.{Dict, lookup, erase, lookup-erase, lookup-insert_self}
use persistent_pod_state.Atomic.{FileProjection}
use persistent_pod_state.Atomic.Write.{
  Volume, files_at, is_nil, link_name, create_user_visible_files, remove_user_visible_paths,
  project, is_member, difference, paths_to_remove, should_write_payload, write_over, all_paths,
  sub_paths,
}
use persistent_pod_state.Atomic.Write.Laws.{current_files, should_write_payload_same}
use persistent_pod_state.Atomic.Steps.Refines.{
  IsLinked, one_more, create_user_visible_files-IsLinked,
}

-- The name has a link.
abbrev pub HasLink : Dict Text → Text → Type 0
HasLink links k = (target : Text) × (lookup k links ≡ some target)

-- The name has a link, if it is the name of a file.
abbrev pub IsReachable : Volume → Text → Type 0
IsReachable vol k =
    (file : FileProjection) → lookup k (current_files vol) ≡ some file → HasLink vol.links k

-- The name of a file that stands in no directory.
pub record IsFlat (k : Text) : Type 0 where
  pub no_slash : contains k (codes "/") ≡ false
  pub own_link : link_name k ≡ k
  pub has_path : (rest : List Text) → is_member k (sub_paths (length k) k ++ rest) ≡ true

HasLink-IsLinked : (links : Dict Text) (k : Text) → IsFlat k → IsLinked links k → HasLink links k
HasLink-IsLinked links k w (inl below) = absurd (ground (arith, w.no_slash))
HasLink-IsLinked links k w (inr there) = there

one_more-HasLink :
    (k : Text) (links : Dict Text) (o : Option Text)
    → lookup k links ≡ o
    → HasLink (one_more k links o) k
one_more-HasLink k links none e = (_, lookup-insert_self k (codes "..data/" ++ k) links)
one_more-HasLink k links (some target) e = (target, e)

create_user_visible_files-HasLink :
    (payload : Dict FileProjection) (k : Text) (file : FileProjection) (links : Dict Text)
    → IsFlat k
    → lookup k payload ≡ some file
    → HasLink (create_user_visible_files payload links) k
unfolding create_user_visible_files lookup
create_user_visible_files-HasLink [] k file links w h = ground arith
create_user_visible_files-HasLink ((p, f) ∷ payload) k file links w h = elim (text_eq.dec p k) [
  | yes e ↦
      let name : link_name p ≡ k = ap link_name e ∙ w.own_link in
      HasLink-IsLinked _ k w (
        create_user_visible_files-IsLinked payload k _ (
          inr (
            subst (λ n. HasLink (one_more n links (lookup n links)) k) (sym name)
              (one_more-HasLink k links (lookup k links) refl))))
  | no n ↦ create_user_visible_files-HasLink payload k file _ w (ground arith)
]

remove_user_visible_paths-HasLink :
    (paths : List Text) (k : Text) (links : Dict Text)
    → is_member k paths ≡ false
    → HasLink links k
    → HasLink (remove_user_visible_paths paths links) k
unfolding remove_user_visible_paths is_member
remove_user_visible_paths-HasLink [] k links n h = h
remove_user_visible_paths-HasLink (p ∷ paths) k links n h =
    elim (Bool-cases (contains p (codes "/"))) [
      | inl e ↦ rw e (remove_user_visible_paths-HasLink paths k links (ground arith) h)
      | inr e ↦ rw e (
          remove_user_visible_paths-HasLink paths k (erase p links) (ground arith)
            (h.0, ground (arith, lookup-erase p k links)))
    ]

pub not_member-difference :
    (k : Text) (paths new : List Text)
    → is_member k new ≡ true
    → is_member k (difference paths new) ≡ false
unfolding difference is_member
not_member-difference k [] new h = refl
not_member-difference k (p ∷ paths) new h =
    elim (Bool-cases (is_member p new || is_member p (difference paths new))) [
      | inl e ↦ rw e (not_member-difference k paths new h)
      | inr e ↦ rw e (elim (text_eq.dec p k) [
        | yes same ↦ ground arith
        | no n ↦ ground (arith, not_member-difference k paths new h)
      ])
    ]

member-append :
    (k : Text) (xs ys : List Text) → is_member k ys ≡ true → is_member k (xs ++ ys) ≡ true
unfolding is_member
member-append k [] ys h = h
member-append k (x ∷ xs) ys h = ground (arith, member-append k xs ys)

pub all_paths-member :
    (payload : Dict FileProjection) (k : Text) (file : FileProjection)
    → IsFlat k
    → lookup k payload ≡ some file
    → is_member k (all_paths payload) ≡ true
unfolding all_paths lookup
all_paths-member [] k file w h = ground arith
all_paths-member ((p, f) ∷ payload) k file w h = elim (text_eq.dec p k) [
  | yes e ↦
      subst (λ q. is_member k (sub_paths (length q) q ++ all_paths payload) ≡ true) (sym e)
        (w.has_path (all_paths payload))
  | no n ↦
      member-append k (sub_paths (length p) p) (all_paths payload)
        (all_paths-member payload k file w (ground arith))
]

current_files-at :
    (vol : Volume) (dir : Text) → vol.data_dir ≡ some dir → current_files vol ≡ files_at vol dir
current_files-at vol dir e = rw e refl

module _ (ts_dir : Text) (payload : Dict FileProjection) (k : Text) (file : FileProjection)
    (w : IsFlat k) (listed : lookup k payload ≡ some file) where
  project-HasLink :
      (old : Dict FileProjection) (vol : Volume)
      → HasLink (project ts_dir payload (paths_to_remove payload old) vol).links k
  unfolding project paths_to_remove
  project-HasLink old vol =
      remove_user_visible_paths-HasLink (paths_to_remove payload old) k _
        (not_member-difference k (all_paths old) (all_paths payload)
          (all_paths-member payload k file w listed))
        (create_user_visible_files-HasLink payload k file vol.links w listed)

  -- After a write the name of a file of the payload has a link, if the file had one as far as it
  -- was there.
  pub write_over-HasLink :
      (vol : Volume) (o : Option Text)
      → vol.data_dir ≡ o
      → IsReachable vol k
      → HasLink (write_over ts_dir payload o vol).links k
  unfolding write_over
  write_over-HasLink vol none e reachable =
      create_user_visible_files-HasLink payload k file vol.links w listed
  write_over-HasLink vol (some dir) e reachable =
      let old = files_at vol dir in
      let remove = paths_to_remove payload old in
      elim (Bool-cases (not (should_write_payload payload old) && is_nil remove)) [
        | inl same ↦
            let (found, there, content) =
              should_write_payload_same payload old (ground arith) k file listed in
            rw same (reachable found (ap (lookup k) (current_files-at vol dir e) ∙ there))
        | inr other ↦ rw other (project-HasLink old vol)
      ]
