-- ===== src/Examples/Configurations.antt =====
-- A webhook configuration with one webhook.
use persistent_pod_state.Base.{
  Text, codes, none, some, [], ◌∷◌, ◌≡◌, refl, success, ok, text_eq, ◌==◌,
}
use persistent_pod_state.Base.Lists.{All}
use persistent_pod_state.Base.GoMap.{lookup, insert}
use persistent_pod_state.Configuration.{
  ServiceReference, Webhook, WebhookConfiguration, Formats, Settings, ConfigurationApi, get_path,
  point_service, add_webhook, point_webhooks, point_parsed, parse_template, remember, recall,
  ensure, template_key,
}
use persistent_pod_state.Configuration.Laws.{pointed, pointed_again}
use persistent_pod_state.Configuration.Ensure.{
  IsPointed, IsSettled, point_webhooks-IsPointed, ensure_again,
}

abbrev pub path : Text
path = codes "/mutate-pod"

abbrev pub service : Text → ServiceReference
service name = record { namespace = codes "ns"; name = name; path = some path; port = none }

abbrev pub webhook : Webhook
webhook = record {
  client_config = record { ca_bundle = none; service = some (service (codes "old")); url = none };
  others = [];
}

abbrev webhook_pointed : Webhook
webhook_pointed = record {
  client_config = record {
    ca_bundle = some (codes "ca");
    service = some (service (codes "svc"));
    url = none;
  };
  others = [];
}

abbrev pub before : WebhookConfiguration
before = record { annotations = none; webhooks = webhook ∷ []; others = [] }

abbrev after : WebhookConfiguration
after = record {
  annotations = some ((template_key, codes "t") ∷ []);
  webhooks = webhook_pointed ∷ [];
  others = [];
}

-- It encodes the one list.
abbrev pub formats : Formats
formats = record {
  unmarshal = λ t. success (webhook ∷ []);
  marshal = λ ws. success (codes "t");
  url_path = λ url. success url;
}

abbrev settings : Settings
settings = record {
  host = [];
  port = codes "9876";
  namespace = codes "ns";
  service_name = codes "svc";
  has_handler = λ p. p == path;
  ca_bundle = codes "ca";
}

abbrev pub configurations : ConfigurationApi
configurations = record {
  State = WebhookConfiguration × WebhookConfiguration;
  get_mutating = λ s. success s.0;
  get_validating = λ s. success s.1;
  update_mutating = λ c s. (success tt, (c, s.1));
  update_validating = λ c s. (success tt, (s.0, c));
}

pointed_again_example : pointed formats settings after ≡ ok after
unfolding parse_template remember recall point_parsed point_webhooks get_path add_webhook
    point_service text_eq lookup insert
pointed_again_example =
    pointed_again formats settings before after (codes "t", refl, refl, refl) refl

point_webhooks-IsPointed_example : All (IsPointed settings) (webhook_pointed ∷ [])
unfolding point_webhooks get_path add_webhook point_service text_eq
point_webhooks-IsPointed_example =
    point_webhooks-IsPointed formats settings (webhook ∷ []) (webhook_pointed ∷ []) refl

after-IsSettled : IsSettled formats settings after
unfolding lookup parse_template recall point_parsed point_webhooks get_path add_webhook
    point_service text_eq
after-IsSettled = (refl, (refl, tt))

ensure_again_example :
    ensure formats configurations settings (after, after) ≡ (ok tt, (after, after))
ensure_again_example =
    ensure_again formats configurations settings (after, after) after after refl refl
      after-IsSettled after-IsSettled
