-- ===== src/Controller/Reservations/Laws.antt =====
-- What reserving an address leaves behind in a quiet cluster.
use persistent_pod_state.Base.{
  texts_eq, sym, subst, ◌≡◌, ◌≢◌, refl, inl, inr, success, failure, ok, arith,
}
use persistent_pod_state.Api.{NamespacedName, IpReservation}
use persistent_pod_state.Cluster.{Client, not_found}
use persistent_pod_state.Cluster.Laws.{IsQuiet}
use persistent_pod_state.Controller.Reservations.{ensure_reservation}

-- What a finished call guarantees: the address is reserved under the name.
abbrev pub IsReserved : (C : Client) → IpReservation → C.State → Type 0
IsReserved C want t =
    (x : IpReservation) × (C.get_reservation t want.name ≡ success x)
    × (x.reserved_cidrs ≡ want.reserved_cidrs)

module _ (C : Client) (Q : IsQuiet C) (want : IpReservation) (s : C.State) where
  -- The three ways through the call, by what was stored.
  abbrev Absent : Type 0
  Absent = C.get_reservation s want.name ≡ failure not_found

  abbrev Found : IpReservation → Type 0
  Found x = C.get_reservation s want.name ≡ success x

  ensure_absent : Absent → ensure_reservation C want s ≡ (ok tt, (C.create_reservation want s).1)
  unfolding ensure_reservation
  ensure_absent h = ground (arith, Q.create_reservation_done s want h)

  ensure_same :
      (x : IpReservation)
      → Found x
      → x.reserved_cidrs ≡ want.reserved_cidrs
      → ensure_reservation C want s ≡ (ok tt, s)
  unfolding ensure_reservation
  ensure_same x h e = ground arith

  ensure_differs :
      (x : IpReservation)
      → Found x
      → x.reserved_cidrs ≢ want.reserved_cidrs
      → ensure_reservation C want s
        ≡ (ok tt, (C.update_reservation (record x { reserved_cidrs = want.reserved_cidrs }) s).1)
  unfolding ensure_reservation
  ensure_differs x h e = ground (
    arith,
    Q.get_reservation_name s want.name x h,
    Q.update_reservation_done s x want.reserved_cidrs,
  )

  abbrev pub Ensured : C.State → Type 0
  Ensured t =
      (ensure_reservation C want s ≡ (ok tt, t))
      × IsReserved C want t
      × ((k : NamespacedName) → C.get_state t k ≡ C.get_state s k)

  ensure-Found : (x : IpReservation) → Found x → (t : C.State) × Ensured t
  ensure-Found x h = elim (texts_eq.dec x.reserved_cidrs want.reserved_cidrs) [
    | yes e ↦ (s, (ensure_same x h e, (x, h, e), λ k. refl))
    | no e ↦
        let n : x.name ≡ want.name = Q.get_reservation_name s want.name x h in
        let h' = subst (λ m. C.get_reservation s m ≡ success x) (sym n) h in
        let y = Q.get-update_reservation s x want.reserved_cidrs h' in
        let r : IpReservation = record x { reserved_cidrs = want.reserved_cidrs } in
        let t : C.State = (C.update_reservation r s).1 in
        let stored = subst (λ m. C.get_reservation t m ≡ success y.0) n y.1 in
        (t, (ensure_differs x h e, (y.0, stored, y.2), λ k. Q.get_state-update_reservation s r k))
  ]

  -- In a quiet cluster, reserving an address succeeds, the address is reserved under the name, and
  -- no PersistentPodState has changed.
  pub ensure_reservation_reserves : (t : C.State) × Ensured t
  ensure_reservation_reserves = elim (Q.get_reservation_answered s want.name) [
    | inl h ↦ (
      (C.create_reservation want s).1,
      (
        ensure_absent h,
        Q.get-create_reservation s want h,
        λ k. Q.get_state-create_reservation s want k,
      ),
    )
    | inr (x, h) ↦ ensure-Found x h
  ]

-- Where the address is reserved already, the call writes nothing.
pub ensure_reservation_again :
    (C : Client) (want : IpReservation) (s : C.State)
    → IsReserved C want s
    → ensure_reservation C want s ≡ (ok tt, s)
unfolding ensure_reservation
ensure_reservation_again C want s (x, h, e) = ground arith
