-- ===== src/Controller/Save/Shrink.antt =====
-- Saving a StatefulSet's status over a stored one.
use persistent_pod_state.Base.{
  ◌≤◌, ◌<◌, true, false, ◌≡◌, ◌⊎◌, inl, inr, refl, subst, sym, success, ok, arith, Bool-cases,
}
use persistent_pod_state.Base.GoMap.{NodupKeys, entries}
use persistent_pod_state.Api.{PersistentPodState}
use persistent_pod_state.Api.Equal.{status_equal}
use persistent_pod_state.Cluster.{Client}
use persistent_pod_state.Cluster.Laws.{IsQuiet, IsPlain, key_of}
use persistent_pod_state.Controller.Save.{count, save_set}
use persistent_pod_state.Controller.Save.Laws.{sent, write-Found, write_stores}
use native.Mathlib.Decide.{dec_lt}

module _ (C : Client) (Q : IsQuiet C) (p : PersistentPodState) (s : C.State) where
  module _ (x : PersistentPodState) (found : C.get_state s (key_of p.meta) ≡ success x) where
    save_set_kept : count p < count x → save_set C p s ≡ (ok tt, s)
    unfolding save_set
    save_set_kept e = ground arith

    save_set_same : status_equal x.status p.status ≡ true → save_set C p s ≡ (ok tt, s)
    unfolding save_set
    save_set_same e = ground arith

    save_set_differs :
        status_equal x.status p.status ≡ false
        → count x ≤ count p
        → save_set C p s ≡ (ok tt, (C.update_status (sent p x) s).1)
    unfolding save_set
    save_set_differs e fewer = ground (arith, write-Found C Q p s x found)

    -- What is stored afterwards lists at least as many pods as before, and it is the new status,
    -- or the old one where the new one lists fewer pods.
    abbrev pub Kept : C.State → Type 0
    Kept t =
        (save_set C p s ≡ (ok tt, t))
        × ((q : PersistentPodState) × (C.get_state t (key_of p.meta) ≡ success q)
            × (count x ≤ count q)
            × ((status_equal q.status p.status ≡ true) ⊎ ((count p < count x) × (q ≡ x))))

    save_set_writes :
        IsPlain p.status
        → status_equal p.status p.status ≡ true
        → status_equal x.status p.status ≡ false
        → count x ≤ count p
        → Kept (C.update_status (sent p x) s).1
    save_set_writes plain self e fewer =
        let q = write_stores C Q p s plain x found in
        (
          save_set_differs e fewer,
          (
            q.0,
            q.1,
            subst (λ st. count x ≤ count (record p { status = st })) (sym q.2) fewer,
            inl (subst (λ st. status_equal st p.status ≡ true) (sym q.2) self),
          ),
        )

    -- In a quiet cluster where a StatefulSet's object is stored, saving a status that is read back
    -- as it was written and equals itself succeeds, and what is stored then lists at least as many
    -- pods as before: it has the new status, or it is the old object, where the new status lists
    -- fewer pods.
    pub save_set_keeps :
        IsPlain p.status → status_equal p.status p.status ≡ true → (t : C.State) × Kept t
    save_set_keeps plain self = elim (Bool-cases (status_equal x.status p.status)) [
      | inl e ↦ (s, (save_set_same e, (x, found, omega arith, inl e)))
      | inr e ↦ elim (dec_lt (count p) (count x)) [
        | yes fewer ↦ (s, (save_set_kept fewer, (x, found, omega arith, inr (fewer, refl))))
        | no more ↦ ((C.update_status (sent p x) s).1, save_set_writes plain self e (omega arith))
      ]
    ]

    -- A status that lists no fewer pods is recorded.
    abbrev pub Recorded : C.State → Type 0
    Recorded t =
        (save_set C p s ≡ (ok tt, t))
        × ((q : PersistentPodState) × (C.get_state t (key_of p.meta) ≡ success q)
            × (status_equal q.status p.status ≡ true)
            × NodupKeys (entries q.status.pod_states))
        × ((t ≡ s) ⊎ (t ≡ (C.update_status (sent p x) s).1))

    save_set_stores :
        IsPlain p.status
        → status_equal p.status p.status ≡ true
        → NodupKeys (entries p.status.pod_states)
        → status_equal x.status p.status ≡ false
        → count x ≤ count p
        → Recorded (C.update_status (sent p x) s).1
    save_set_stores plain self once e fewer =
        let q = write_stores C Q p s plain x found in
        (
          save_set_differs e fewer,
          (
            q.0,
            q.1,
            subst (λ st. status_equal st p.status ≡ true) (sym q.2) self,
            subst (λ st. NodupKeys (entries st.pod_states)) (sym q.2) once,
          ),
          inr refl,
        )

    -- In a quiet cluster where a StatefulSet's object is stored, saving a status that is read back
    -- as it was written, equals itself and lists no fewer pods records it.
    pub save_set_records :
        IsPlain p.status
        → status_equal p.status p.status ≡ true
        → NodupKeys (entries p.status.pod_states)
        → count x ≤ count p
        → NodupKeys (entries x.status.pod_states)
        → (t : C.State) × Recorded t
    save_set_records plain self once fewer kept =
        elim (Bool-cases (status_equal x.status p.status)) [
          | inl e ↦ (s, (save_set_same e, (x, found, e, kept), inl refl))
          | inr e ↦ ((C.update_status (sent p x) s).1, save_set_stores plain self once e fewer)
        ]
