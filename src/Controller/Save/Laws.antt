-- ===== src/Controller/Save/Laws.antt =====
-- What storing a PersistentPodState leaves behind in a quiet cluster.
use persistent_pod_state.Base.{
  true, false, Text, ◌≡◌, inl, inr, refl, sym, subst, success, failure, ok, arith, Bool-cases, ◌∙◌,
  Reply,
}
use persistent_pod_state.Api.{PersistentPodState, zero_status}
use persistent_pod_state.Api.Equal.{status_equal}
use persistent_pod_state.Cluster.{Client, ApiError, not_found}
use persistent_pod_state.Cluster.Laws.{IsQuiet, IsPlain, key_of}
use persistent_pod_state.Controller.Reservations.{finish}
use persistent_pod_state.Controller.Save.{created, write_status, save_vmi, save_set}

created_success :
    {S : Type 0} (o : Reply ApiError (Unit {0}) × S) → o.0 ≡ success tt → created o ≡ (ok tt, o.1)
unfolding created
created_success (success _, s) h = refl
created_success (failure e, s) h = cc

finish_success :
    {S : Type 0} (o : Reply ApiError (Unit {0}) × S) → o.0 ≡ success tt → finish o ≡ (ok tt, o.1)
finish_success (success _, s) h = refl
finish_success (failure e, s) h = cc

-- The object that `write_status` sends, from the one that it has read.
abbrev pub sent : PersistentPodState → PersistentPodState → PersistentPodState
sent p x = record x { spec = p.spec; status = p.status }

module _ (C : Client) (p : PersistentPodState) where
  -- The stored object has the status of `p`.
  abbrev pub IsRecorded : C.State → Type 0
  IsRecorded t =
      (q : PersistentPodState) × (C.get_state t (key_of p.meta) ≡ success q)
      × (status_equal q.status p.status ≡ true)

  -- The object is stored, with no status yet.
  abbrev pub IsCreated : C.State → Type 0
  IsCreated t =
      (q : PersistentPodState) × (C.get_state t (key_of p.meta) ≡ success q)
      × (q.spec ≡ p.spec)
      × (q.status ≡ zero_status)

  -- No reservation has changed.
  abbrev pub KeepsReservations : C.State → C.State → Type 0
  KeepsReservations s t = (n : Text) → C.get_reservation t n ≡ C.get_reservation s n

  -- Where the status is recorded, saving it again writes nothing.
  pub save_vmi_again : (s : C.State) → IsRecorded s → save_vmi C p s ≡ (ok tt, s)
  unfolding save_vmi
  save_vmi_again s (q, found, same) = ground arith

  pub save_set_again : (s : C.State) → IsRecorded s → save_set C p s ≡ (ok tt, s)
  unfolding save_set
  save_set_again s (q, found, same) = ground arith

module _ (C : Client) (Q : IsQuiet C) (p : PersistentPodState) (s : C.State) where
  abbrev Absent : Type 0
  Absent = C.get_state s (key_of p.meta) ≡ failure not_found

  abbrev Found : PersistentPodState → Type 0
  Found x = C.get_state s (key_of p.meta) ≡ success x

  created_absent : Absent → created (C.create_state p s) ≡ (ok tt, (C.create_state p s).1)
  unfolding created
  created_absent h = created_success _ (Q.create_state_done s p h)

  save_vmi_absent : Absent → save_vmi C p s ≡ (ok tt, (C.create_state p s).1)
  unfolding save_vmi
  save_vmi_absent h = ground (arith, created_absent h)

  pub save_set_absent : Absent → save_set C p s ≡ (ok tt, (C.create_state p s).1)
  unfolding save_set
  save_set_absent h = ground (arith, created_absent h)

  write_status-Found :
      (x : PersistentPodState) → Found x → write_status C p s ≡ C.update_status (sent p x) s
  unfolding write_status
  write_status-Found x h = ground arith

  -- The key of what is found is the key that was asked for.
  Found-key : (x : PersistentPodState) → Found x → C.get_state s (key_of x.meta) ≡ success x
  Found-key x h = subst (λ k. C.get_state s k ≡ success x) (sym (Q.get_state_key s _ x h)) h

  retry-Found :
      (x : PersistentPodState)
      → Found x
      → C.retry_on_conflict (write_status C p) s ≡ C.update_status (sent p x) s
  retry-Found x h =
      let done = Q.update_status_done s x p.spec p.status (Found-key x h) in
      Q.retry_success (write_status C p) s (rw (write_status-Found x h) done)
      ∙ write_status-Found x h

  pub write-Found :
      (x : PersistentPodState)
      → Found x
      → finish (C.retry_on_conflict (write_status C p) s)
        ≡ (ok tt, (C.update_status (sent p x) s).1)
  write-Found x h =
      rw (retry-Found x h)
        (finish_success _ (Q.update_status_done s x p.spec p.status (Found-key x h)))

  -- What the write leaves behind: the very status that was sent.
  pub write_stores :
      IsPlain p.status
      → (x : PersistentPodState) → Found x
      → (q : PersistentPodState) × (C.get_state (C.update_status (sent p x) s).1 (key_of p.meta)
          ≡ success q)
        × (q.status ≡ p.status)
  write_stores plain x h =
      let q = Q.get-update_status s x p.spec p.status (Found-key x h) plain in
      let t : C.State = (C.update_status (sent p x) s).1 in
      (q.0, subst (λ k. C.get_state t k ≡ success q.0) (Q.get_state_key s _ x h) q.1, q.3)

  write-IsRecorded :
      IsPlain p.status
      → status_equal p.status p.status ≡ true
      → (x : PersistentPodState) → Found x
      → IsRecorded C p (C.update_status (sent p x) s).1
  write-IsRecorded plain self x h =
      let q = write_stores plain x h in
      (q.0, q.1, subst (λ st. status_equal st p.status ≡ true) (sym q.2) self)

  -- A VMI's object that is absent is created, with its status still to come.
  pub save_vmi_creates :
      Absent
      → (t : C.State) × (save_vmi C p s ≡ (ok tt, t)) × IsCreated C p t × KeepsReservations C p s t
  save_vmi_creates h = (
    (C.create_state p s).1,
    save_vmi_absent h,
    Q.get-create_state s p h,
    λ n. Q.get_reservation-create_state s p n,
  )

  pub save_set_creates :
      Absent
      → (t : C.State) × (save_set C p s ≡ (ok tt, t)) × IsCreated C p t × KeepsReservations C p s t
  save_set_creates h = (
    (C.create_state p s).1,
    save_set_absent h,
    Q.get-create_state s p h,
    λ n. Q.get_reservation-create_state s p n,
  )

  save_vmi_same :
      (x : PersistentPodState)
      → Found x
      → status_equal x.status p.status ≡ true
      → save_vmi C p s ≡ (ok tt, s)
  unfolding save_vmi
  save_vmi_same x h e = ground arith

  save_vmi_differs :
      (x : PersistentPodState)
      → Found x
      → status_equal x.status p.status ≡ false
      → save_vmi C p s ≡ (ok tt, (C.update_status (sent p x) s).1)
  unfolding save_vmi
  save_vmi_differs x h e = ground (arith, write-Found x h)

  -- The status of a VMI's object that is there is recorded.
  pub save_vmi_records :
      IsPlain p.status
      → status_equal p.status p.status ≡ true
      → (x : PersistentPodState) → Found x
      → (t : C.State) × (save_vmi C p s ≡ (ok tt, t)) × IsRecorded C p t × KeepsReservations C p s t
  save_vmi_records plain self x h = elim (Bool-cases (status_equal x.status p.status)) [
    | inl e ↦ (s, save_vmi_same x h e, (x, h, e), λ n. refl)
    | inr e ↦ (
      (C.update_status (sent p x) s).1,
      save_vmi_differs x h e,
      write-IsRecorded plain self x h,
      λ n. Q.get_reservation-update_status s (sent p x) n,
    )
  ]
