-- ===== src/Examples/Probes.antt =====
-- The readiness check, with a server that answers.
use persistent_pod_state.Base.{
  codes, true, false, [], ◌∷◌, success, failure, ok, panic, ◌≡◌, ◌≢◌, refl,
}
use persistent_pod_state.Base.Int.{pos}
use persistent_pod_state.Health.{
  new_state, event, watch_error, FirstCheck, Http, load_http_client, watch_ca_cert, do_once, ask,
  check_health, check_ready, WatchMessage,
}
use persistent_pod_state.Health.Laws.{check_ready_later, check_ready_missing}
use persistent_pod_state.Base.{List}

abbrev pub http : Http
http = record { new_request = λ url. success tt; send = λ ca_cert url. success tt }

abbrev pub found : FirstCheck
found = record { file = success (codes "ca"); watcher = success tt; watching = success tt }

abbrev pub missing : FirstCheck
missing = record {
  file = failure (codes "no such file or directory");
  watcher = success tt;
  watching = success tt;
}

-- The file is replaced, and the second time it cannot be read.
abbrev messages : List WatchMessage
messages =
    event (record { has_write = false; has_create = true; has_remove = false }) (success tt)
      (success (codes "new"))
    ∷ event (record { has_write = false; has_create = false; has_remove = true }) (success tt)
        (failure (codes "no such file or directory"))
    ∷ watch_error (codes "overflow")
    ∷ []

first_fine : (check_ready http (pos 9876) true found new_state).0 ≢ panic
unfolding check_ready check_health do_once load_http_client ask
first_fine h = cc

check_ready_later_example :
    (check_ready http
      (pos 9876)
      true
      missing
      (watch_ca_cert messages (check_ready http (pos 9876) true found new_state).1)).0
    ≢ panic
check_ready_later_example = check_ready_later http (pos 9876) found missing messages true first_fine

check_ready_missing_example :
    ((check_ready http (pos 9876) true missing new_state).0 ≡ panic)
    × ((check_ready http
          (pos 9876)
          true
          found
          (check_ready http (pos 9876) true missing new_state).1).0
        ≢ ok tt)
check_ready_missing_example =
    check_ready_missing http (pos 9876) missing found true (codes "no such file or directory") refl
