-- ===== src/Health/Laws.antt =====
-- The first check and the later ones.
use persistent_pod_state.Base.{
  Text, Bool, true, false, ◌||◌, none, some, List, [], ◌∷◌, Reply, success, failure, Result, ok,
  err, panic, ◌≡◌, ◌≢◌, ◌⊎◌, inl, inr, refl, sym, subst, Bool-cases,
}
use persistent_pod_state.Base.Int.{ℤ}
use persistent_pod_state.Health.{
  HealthState, new_state, Op, WatchMessage, event, watch_error, closed, FirstCheck, Http,
  load_http_client, handle_watch_event, watched_again, watch_ca_cert, watch_first, loaded_first,
  do_once, sent, requested, ask, asked, probe_url, check_health, check_ready,
}

-- The first check is over, and there is a client.
abbrev pub HasClient : HealthState → Type 0
HasClient s = (s.is_done ≡ true) × ((ca_cert : Text) × (s.client ≡ some ca_cert))

load_http_client-HasClient :
    (file : Reply Text Text) (s : HealthState) → HasClient s → HasClient (load_http_client file s).1
unfolding load_http_client
load_http_client-HasClient (failure e) s h = h
load_http_client-HasClient (success ca_cert) s h = (h.0, (ca_cert, refl))

handle_watch_event-HasClient :
    (op : Op) (readded : Reply Text (Unit {0})) (file : Reply Text Text) (s : HealthState)
    → HasClient s
    → HasClient (handle_watch_event op readded file s)
unfolding handle_watch_event
handle_watch_event-HasClient op readded file s h =
    elim (Bool-cases (op.has_write || op.has_remove || op.has_create)) [
      | inl e ↦ rw e (load_http_client-HasClient file (watched_again op readded s) (again h))
      | inr e ↦ rw e h
    ]
  where
    again : HasClient s → HasClient (watched_again op readded s)
    again h = elim (Bool-cases op.has_remove) [ inl e ↦ rw e h | inr e ↦ rw e h ]

watch_ca_cert-HasClient :
    (messages : List WatchMessage) (s : HealthState)
    → HasClient s
    → HasClient (watch_ca_cert messages s)
unfolding watch_ca_cert
watch_ca_cert-HasClient [] s h = h
watch_ca_cert-HasClient (event op readded file ∷ messages) s h =
    watch_ca_cert-HasClient messages _ (handle_watch_event-HasClient op readded file s h)
watch_ca_cert-HasClient (watch_error e ∷ messages) s h = watch_ca_cert-HasClient messages s h
watch_ca_cert-HasClient (closed ∷ messages) s h = h

-- What the first check leaves: a client, unless it panics.
abbrev IsDecided : Result Text (Unit {0}) × HealthState → Type 0
IsDecided r = (r.0 ≡ panic) ⊎ HasClient r.1

watch_first-IsDecided :
    (watcher watching : Reply Text (Unit {0})) (s : HealthState)
    → HasClient s
    → IsDecided (watch_first watcher watching s)
watch_first-IsDecided (failure e) watching s h = inl refl
watch_first-IsDecided (success _) (failure e) s h = inl refl
watch_first-IsDecided (success _) (success _) s h = inr h

loaded_first-IsDecided :
    (first : FirstCheck) (file : Reply Text Text) (s : HealthState)
    → s.is_done ≡ true
    → IsDecided (loaded_first first (load_http_client file s))
unfolding load_http_client
loaded_first-IsDecided first (failure e) s h = inl refl
loaded_first-IsDecided first (success ca_cert) s h =
    watch_first-IsDecided first.watcher first.watching _ (h, (ca_cert, refl))

do_once-IsDecided : (first : FirstCheck) → IsDecided (do_once first new_state)
unfolding do_once
do_once-IsDecided first = loaded_first-IsDecided first first.file _ refl

do_once_again :
    (first : FirstCheck) (s : HealthState) → s.is_done ≡ true → do_once first s ≡ (ok tt, s)
unfolding do_once
do_once_again first s h = rw h refl

module _ (H : Http) (port : ℤ) where
  sent_done : (r : Reply Text (Unit {0})) → sent H port r ≢ panic
  sent_done (success _) h = cc
  sent_done (failure e) h = cc

  requested_done :
      (ca_cert : Text) (r : Reply Text (Unit {0})) → requested H port (some ca_cert) r ≢ panic
  requested_done ca_cert (success _) h = sent_done (H.send ca_cert (probe_url H port)) h
  requested_done ca_cert (failure e) h = cc

  ask_done : (s : HealthState) → HasClient s → ask H port s ≢ panic
  unfolding ask
  ask_done s (d, (ca_cert, e)) =
      subst (λ c. requested H port c (H.new_request (probe_url H port)) ≢ panic) (sym e)
        (requested_done ca_cert _)

  asked_state : (r : Result Text (Unit {0}) × HealthState) → (asked H port r).1 ≡ r.1
  asked_state (ok _, s) = refl
  asked_state (err e, s) = refl
  asked_state (panic, s) = refl

  asked_panic :
      (r : Result Text (Unit {0}) × HealthState) → (asked H port r).0 ≢ panic → r.0 ≢ panic
  asked_panic (ok _, s) h = λ e. cc
  asked_panic (err x, s) h = λ e. cc
  asked_panic (panic, s) h = h

  check_health-HasClient :
      (first : FirstCheck)
      → (check_health H port first new_state).0 ≢ panic
      → HasClient (check_health H port first new_state).1
  unfolding check_health
  check_health-HasClient first h = elim (do_once-IsDecided first) [
    | inl p ↦ absurd (asked_panic (do_once first new_state) h p)
    | inr c ↦ subst HasClient (sym (asked_state (do_once first new_state))) c
  ]

  check_ready_done :
      (is_inited : Bool) (first : FirstCheck) (s : HealthState)
      → HasClient s
      → (check_ready H port is_inited first s).0 ≢ panic
  unfolding check_ready check_health
  check_ready_done false first s h = λ e. cc
  check_ready_done true first s h =
      subst (λ r. (asked H port r).0 ≢ panic) (sym (do_once_again first s h.0)) (ask_done s h)

  -- Once a first check of a started webhook did not panic, no later one does, whatever has come on
  -- the channels of the watcher between them and whatever is read of the file.
  pub check_ready_later :
      (first again : FirstCheck) (messages : List WatchMessage) (is_inited : Bool)
      → (check_ready H port true first new_state).0 ≢ panic
      → (check_ready H port is_inited again
          (watch_ca_cert messages (check_ready H port true first new_state).1)).0
        ≢ panic
  unfolding check_ready
  check_ready_later first again messages is_inited h =
      check_ready_done is_inited again _
        (watch_ca_cert-HasClient messages _ (check_health-HasClient first h))

  -- Nothing was loaded, and nothing will be.
  abbrev IsStuck : HealthState → Type 0
  IsStuck s = (s.is_done ≡ true) × (s.client ≡ none)

  requested_stuck : (r : Reply Text (Unit {0})) → requested H port none r ≢ ok tt
  requested_stuck (success _) h = cc
  requested_stuck (failure e) h = cc

  check_ready_stuck :
      (is_inited : Bool) (again : FirstCheck) (s : HealthState)
      → IsStuck s
      → (check_ready H port is_inited again s).0 ≢ ok tt
  unfolding check_ready check_health ask
  check_ready_stuck false again s h = λ e. cc
  check_ready_stuck true again s (d, c) =
      subst (λ r. (asked H port r).0 ≢ ok tt) (sym (do_once_again again s d))
        (subst (λ k. requested H port k (H.new_request (probe_url H port)) ≢ ok tt) (sym c)
          (requested_stuck _))

  first-IsStuck :
      (first : FirstCheck) (e : Text)
      → first.file ≡ failure e
      → IsStuck (check_ready H port true first new_state).1
  unfolding check_ready check_health do_once load_http_client
  first-IsStuck first e h = rw h (refl, refl)

  -- Where the file of the authority cannot be read in the first check of a started webhook, that
  -- check panics, and a later one does not succeed, even if the file can then be read.
  pub check_ready_missing :
      (first again : FirstCheck) (is_inited : Bool) (e : Text)
      → first.file ≡ failure e
      → ((check_ready H port true first new_state).0 ≡ panic)
        × ((check_ready H port is_inited again (check_ready H port true first new_state).1).0
            ≢ ok tt)
  unfolding check_ready check_health do_once load_http_client
  check_ready_missing first again is_inited e h =
      (rw h refl, check_ready_stuck is_inited again _ (first-IsStuck first e h))
