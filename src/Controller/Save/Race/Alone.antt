-- ===== src/Controller/Save/Race/Alone.antt =====
-- A run that nobody disturbs, beside the run as one function (Controller/Save).
use persistent_pod_state.Base.{
  ℕ, suc, ltb, true, false, Option, none, some, [], Reply, success, failure, Result, ok,
  Option-cases, Bool-cases, ◌≡◌, inl, inr, refl, arith,
}
use persistent_pod_state.Api.{PersistentPodState, zero_status}
use persistent_pod_state.Api.Equal.{status_equal}
use persistent_pod_state.Cluster.{Client, ApiError, not_found, already_exists, Write}
use persistent_pod_state.Controller.Save.{count, write_status, save_set}
use persistent_pod_state.Controller.Save.Race.{
  Stored, Server, put, returned, get_missing, get_same, get_larger, get_other, create_done,
  read_found, update_done, Reach, here, moved,
}

-- The server as it answers the calls of `client.Client`, when no call fails.
abbrev answer : Option Stored → Reply ApiError PersistentPodState
answer none = failure not_found
answer (some v) = success v.object

abbrev create_over : Option Stored → PersistentPodState → Write Server
create_over (some v) p m = (failure already_exists, m)
create_over none p m = (success tt, put (record p { status = zero_status }) m)

abbrev update_over : Option Stored → PersistentPodState → Write Server
update_over none p m = (failure not_found, m)
update_over (some v) p m = (success tt, put (record (v.object) { status = p.status }) m)

abbrev pub one_object : Client
one_object = record {
  State = Server;
  get_vmi = λ m k. failure not_found;
  get_stateful_set = λ m k. failure not_found;
  list_pods = λ m ns labels. success [];
  get_reservation = λ m n. failure not_found;
  create_reservation = λ r m. (success tt, m);
  update_reservation = λ r m. (success tt, m);
  get_state = λ m k. answer m.stored;
  create_state = λ p m. create_over m.stored p m;
  update_status = λ p m. update_over m.stored p m;
  retry_on_conflict = λ f. f;
}

-- Nobody else writes.
abbrev pub Nobody : PersistentPodState → Type 0
Nobody x = ⊥

-- The steps lead to the end that the function has.
pub record Agrees (steps : ℕ) (p : PersistentPodState) (m : Server) : Type 0 where
  pub taken : ℕ
  pub after : Server
  pub result : Result ApiError (Unit {0})
  pub reached : Reach steps p Nobody m taken after (returned result)
  pub same : save_set one_object p m ≡ (result, after)

module _ (steps : ℕ) (p : PersistentPodState) (m : Server) where
  Agrees-missing : m.stored ≡ none → Agrees steps p m
  unfolding save_set
  Agrees-missing e = record {
    taken = 2;
    after = put (record p { status = zero_status }) m;
    result = ok tt;
    reached = moved (moved here (get_missing e)) (create_done e);
    same = ground arith;
  }

  Agrees-same :
      (v : Stored)
      → m.stored ≡ some v
      → status_equal v.object.status p.status ≡ true
      → Agrees steps p m
  unfolding save_set
  Agrees-same v e s = record {
    taken = 1;
    after = m;
    result = ok tt;
    reached = moved here (get_same v e s);
    same = ground arith;
  }

  Agrees-larger :
      (v : Stored)
      → m.stored ≡ some v
      → status_equal v.object.status p.status ≡ false
      → ltb (count p) (count v.object) ≡ true
      → Agrees steps p m
  unfolding save_set
  Agrees-larger v e s l = record {
    taken = 1;
    after = m;
    result = ok tt;
    reached = moved here (get_larger v e s l);
    same = ground arith;
  }

Agrees-other :
    (steps : ℕ) (p : PersistentPodState) (m : Server) (v : Stored)
    → m.stored ≡ some v
    → status_equal v.object.status p.status ≡ false
    → ltb (count p) (count v.object) ≡ false
    → Agrees (suc steps) p m
unfolding save_set write_status
Agrees-other steps p m v e s l = record {
  taken = 3;
  after = put (record (v.object) { status = p.status }) m;
  result = ok tt;
  reached =
      moved (moved (moved here (get_other v e s l)) (read_found steps v e))
        (update_done steps v.object v.version v e refl);
  same = ground arith;
}

-- With at least one try: on a server that answers each call for one object, and where nobody else
-- writes, steps of the run lead to the end and to the server that the run as one function has.
pub save_set-Agrees : (steps : ℕ) (p : PersistentPodState) (m : Server) → Agrees (suc steps) p m
save_set-Agrees steps p m = elim (Option-cases m.stored) [
  | inl e ↦ Agrees-missing (suc steps) p m e
  | inr (v, e) ↦ elim (Bool-cases (status_equal v.object.status p.status)) [
    | inl s ↦ Agrees-same (suc steps) p m v e s
    | inr s ↦ elim (Bool-cases (ltb (count p) (count v.object))) [
      | inl l ↦ Agrees-larger (suc steps) p m v e s l
      | inr l ↦ Agrees-other steps p m v e s l
    ]
  ]
]
