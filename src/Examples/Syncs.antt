-- ===== src/Examples/Syncs.antt =====
-- The webhook controller with a generator over simple packages.
use persistent_pod_state.Examples.Packages.{
  packages, HasNotEnded, packages-IsSound, accepted-HasNotEnded,
}
use persistent_pod_state.Certs.Writer.{Artifacts}
use persistent_pod_state.Certs.DirectoryStore.RoundTrip.{AreReachable}
use persistent_pod_state.Certs.DirectoryStore.Settles.{Settles}
use persistent_pod_state.WebhookController.Laws.{dns_name_nonempty, sync-Serves}
use persistent_pod_state.WebhookController.{SyncState, settings_for, dns_name, secret_key, sync}
use persistent_pod_state.Examples.Certificates.{secrets, secrets-IsQuietSecret, empty_dir}
use persistent_pod_state.Examples.Configurations.{formats, configurations, before, path}
use persistent_pod_state.Base.GoMap.{map_equal, lookup, insert}
use persistent_pod_state.Configuration.{
  ensure, update_both, update_second, point_both, parse_template, remember, recall, point_parsed,
  point_webhooks, get_path, add_webhook, point_service, configuration_equal,
}
use persistent_pod_state.Atomic.Write.Laws.{IsFresh}
use persistent_pod_state.Atomic.Write.{Volume}
use persistent_pod_state.Base.{
  ◌+◌, Text, codes, Bool, true, false, Option, none, some, [], ◌∷◌, ok, ◌≡◌, refl, arith, text_eq,
  ◌==◌, if◌then◌else◌, ap, ◌∙◌,
}
use persistent_pod_state.Base.Int.{pos}
use persistent_pod_state.Base.Lists.{length}
use persistent_pod_state.Environment.{Env}
use persistent_pod_state.Certs.SecretStore.Laws.{Generates}
use persistent_pod_state.Certs.Generator.{self_signed, new_generator}
use persistent_pod_state.Certs.Generator.Laws.{crypto_at, self_signed-Generates}

abbrev server_name : Text
server_name = codes "svc.ns.svc"

abbrev env : Env
env variable =
    if variable == codes "POD_NAMESPACE"
    then codes "ns"
    else if variable == codes "SERVICE_NAME"
    then codes "svc"
    else []

-- A name that is longer than the one in use.
abbrev pub longer : Option Text → Text
longer none = codes "..1"
longer (some dir) = b'1' ∷ dir

pub longer-IsFresh : (o : Option Text) → IsFresh (longer o) o
longer-IsFresh none = tt
longer-IsFresh (some dir) = λ e. omega (arith, ap length e)

abbrev pub new_dir : Volume → Text
new_dir vol = longer vol.data_dir

initial : (self_signed packages).State
unfolding self_signed
initial = (record { ca_key = []; ca_cert = [] }, tt)

abbrev start_state : SyncState secrets configurations (self_signed packages)
start_state = record {
  secrets_state = none;
  configurations = (before, before);
  volume = empty_dir;
  generator = initial;
  is_inited = false;
}

abbrev handles : Text → Bool
handles p = p == path

can_ensure :
    (ca_bundle : Text)
    → (ensure formats configurations
        (settings_for env (pos 9876) handles ca_bundle)
        (before, before)).0
      ≡ ok tt
unfolding ensure update_both update_second point_both parse_template remember recall point_parsed
    point_webhooks get_path add_webhook point_service configuration_equal map_equal lookup insert
    settings_for text_eq
can_ensure ca_bundle = refl

generates : Generates (crypto_at packages (1000 + 180)) (self_signed packages) (dns_name env)
generates =
    self_signed-Generates packages HasNotEnded packages-IsSound (1000 + 180)
      (λ s. (omega arith, omega arith)) (dns_name env) (dns_name_nonempty env) accepted-HasNotEnded

pub empty_dir-AreReachable : AreReachable empty_dir
unfolding lookup
empty_dir-AreReachable = (
  λ f h. ground arith,
  (
    λ f h. ground arith,
    (λ f h. ground arith, (λ f h. ground arith, (λ f h. ground arith, (λ f h. ground arith, tt)))),
  ),
)

inited_after :
    (sync formats
      (crypto_at packages (1000 + 180))
      (self_signed packages)
      (new_generator packages)
      secrets
      configurations
      new_dir
      env
      (pos 9876)
      handles
      start_state).1.is_inited
    ≡ true
inited_after =
    let w =
      sync-Serves formats (crypto_at packages (1000 + 180)) (self_signed packages)
        (new_generator packages) secrets configurations new_dir env (pos 9876) handles
        (λ vol. longer-IsFresh vol.data_dir) generates (secrets-IsQuietSecret (secret_key env))
        start_state empty_dir-AreReachable can_ensure in
    ap (λ r. r.1.is_inited) w.runs ∙ w.inited

abbrev pub example_certs : Artifacts
example_certs = record {
  ca_key = some (codes "k");
  ca_cert = some (codes "c");
  cert = some (codes "s");
  key = none;
  resource_version = codes "7";
}
