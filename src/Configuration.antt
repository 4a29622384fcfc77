-- ===== src/Configuration.antt =====
-- internal/webhook/util/configuration/configuration.go: the webhook configurations of the cluster
-- are made to call this server. MutatingWebhook and ValidatingWebhook are treated alike by two
-- copies of the code, which are one definition here. Their other fields pass through by their
-- encoding.
pub mod Laws
pub mod Ensure
pub mod Kept
use persistent_pod_state.Base.{
  Text, codes, ◌==◌, text_eq, if◌then◌else◌, Bool, not, ◌&&◌, Option, none, some, List, [], ◌∷◌,
  ◌++◌, Reply, success, failure, Result, ok, err, panic, ◌>>=◌, pass_on, Eq,
}
use persistent_pod_state.Base.Strings.{is_empty}
use persistent_pod_state.Base.GoMap.{GoMap, entries, get_or, insert, map_equal}
use persistent_pod_state.Cluster.{ApiError, Write}
use native.Mathlib.Decide.{ℕ_discrete}

-- `admissionregistrationv1.ServiceReference`
pub record ServiceReference : Type 0 where
  pub namespace : Text
  pub name : Text
  pub path : Option Text
  pub port : Option Text

-- `admissionregistrationv1.WebhookClientConfig`
pub record WebhookClientConfig : Type 0 where
  pub ca_bundle : Option Text
  pub service : Option ServiceReference
  pub url : Option Text

-- `MutatingWebhook` or `ValidatingWebhook`
pub record Webhook : Type 0 where
  pub client_config : WebhookClientConfig
  pub others : Text

-- `MutatingWebhookConfiguration` or `ValidatingWebhookConfiguration`
pub record WebhookConfiguration : Type 0 where
  pub annotations : GoMap Text
  pub webhooks : List Webhook
  pub others : Text

-- `encoding/json` on lists of webhooks, and the path that `net/url` finds.
pub record Formats : Type 0 where
  pub unmarshal : Text → Reply Text (List Webhook)
  pub marshal : List Webhook → Reply Text Text
  pub url_path : Text → Reply Text Text

-- What `Ensure` reads of the process: the environment by the getters of
-- internal/webhook/util/util.go, with the port as it is printed, and its arguments.
pub record Settings : Type 0 where
  pub host : Text
  pub port : Text
  pub namespace : Text
  pub service_name : Text
  -- Whether there is a handler for the path.
  pub has_handler : Text → Bool
  pub ca_bundle : Text

abbrev pub template_key : Text
template_key = codes "template"

module _ (F : Formats) where
  -- `getPath`, which dereferences a path that may be nil
  unfoldable pub url_path_of : Option Text → Result Text Text
  url_path_of none = err (codes "invalid clientConfig")
  url_path_of (some url) = pass_on (F.url_path url)

  unfoldable pub get_path : WebhookClientConfig → Result Text Text
  unfolding url_path_of
  get_path c = elim c.service [
    | none ↦ url_path_of c.url
    | some service ↦ elim service.path [ none ↦ panic | some path ↦ ok path ]
  ]

  -- `parseMutatingTemplate` and `parseValidatingTemplate`: the webhooks as they were first, and the
  -- configuration that remembers them.
  unfoldable pub remember :
      WebhookConfiguration → Reply Text Text → Result Text (List Webhook × WebhookConfiguration)
  remember config (failure e) = err e
  remember config (success bytes) = ok (
    config.webhooks,
    record config { annotations = some (insert template_key bytes (entries config.annotations)) },
  )

  unfoldable pub recall :
      WebhookConfiguration
      → Reply Text (List Webhook)
      → Result Text (List Webhook × WebhookConfiguration)
  recall config (failure e) = err e
  recall config (success webhooks) = ok (webhooks, config)

  unfoldable pub parse_template :
      WebhookConfiguration → Result Text (List Webhook × WebhookConfiguration)
  unfolding remember recall
  parse_template config =
      let template = get_or config.annotations template_key [] in
      if is_empty template
      then remember config (F.marshal config.webhooks)
      else recall config (F.unmarshal template)

  module _ (env : Settings) where
    -- `convertClientConfig`, given the path
    unfoldable pub convert_client_config : Text → WebhookClientConfig → WebhookClientConfig
    convert_client_config path c = record c {
      service = none;
      url = some (codes "https://" ++ (env.host ++ (codes ":" ++ (env.port ++ path))));
    }

    -- What is done to a webhook that has a handler.
    unfoldable pub point_service : Text → WebhookClientConfig → WebhookClientConfig
    unfolding convert_client_config
    point_service path c = elim c.service [
      | none ↦ c
      | some service ↦
          let here = record c {
            service = some (record service { namespace = env.namespace; name = env.service_name });
          } in
          if is_empty env.host then here else convert_client_config path here
    ]

    -- One round of the loop, with the path
    unfoldable pub add_webhook : Webhook → List Webhook → Text → List Webhook
    unfolding point_service
    add_webhook wh rest path =
        if env.has_handler path
        then record wh { client_config = point_service path wh.client_config } ∷ rest
        else rest

    abbrev pub with_bundle : Webhook → Webhook
    with_bundle wh = record wh {
      client_config = record (wh.client_config) { ca_bundle = some env.ca_bundle };
    }

    -- The loop over the template. An error or a panic ends it.
    unfoldable pub point_webhooks : List Webhook → Result Text (List Webhook)
    unfolding get_path add_webhook
    point_webhooks [] = ok []
    point_webhooks (wh ∷ template) =
        let rest = point_webhooks template in
        get_path (with_bundle wh).client_config >>= λ path.
        rest >>= λ webhooks. ok (add_webhook (with_bundle wh) webhooks path)

    -- The loop on a parsed configuration.
    unfoldable pub point_parsed :
        List Webhook × WebhookConfiguration → Result Text WebhookConfiguration
    unfolding point_webhooks
    point_parsed (template, config) =
        point_webhooks template >>= λ webhooks. ok (record config { webhooks = webhooks })

-- The calls of client-go on the two configurations, by their names.
pub record ConfigurationApi : Type 1 where
  pub State : Type 0
  pub get_mutating : State → Reply ApiError WebhookConfiguration
  pub get_validating : State → Reply ApiError WebhookConfiguration
  pub update_mutating : WebhookConfiguration → Write State
  pub update_validating : WebhookConfiguration → Write State

unfoldable pub webhooks_dec : Discrete (List Webhook)
webhooks_dec = hlevel ℕ_discrete

instance unfoldable pub webhooks_eq : Eq (List Webhook)
unfolding webhooks_dec
webhooks_eq = record { dec = webhooks_dec }

abbrev pub text_equal : Text → Text → Bool
text_equal a b = a == b

-- `reflect.DeepEqual`
unfoldable pub configuration_equal : WebhookConfiguration → WebhookConfiguration → Bool
configuration_equal a b =
    map_equal text_equal a.annotations b.annotations
    && a.webhooks == b.webhooks
    && a.others == b.others

-- What an update returns.
abbrev pub update_result : {S : Type 0} → Reply ApiError (Unit {0}) × S → Result Text (Unit {0}) × S
update_result (success _, s) = (ok tt, s)
update_result (failure e, s) = (err (codes "failed to update"), s)

-- An update that is skipped where nothing has changed.
abbrev pub update_if_changed :
    {S : Type 0}
    → (WebhookConfiguration → Write S)
    → WebhookConfiguration
    → WebhookConfiguration
    → S
    → Result Text (Unit {0}) × S
update_if_changed update config old s =
    if configuration_equal config old then (ok tt, s) else update_result (update config s)

module _ (F : Formats) (A : ConfigurationApi) (env : Settings) where
  -- The second update, which is skipped where the first one failed.
  unfoldable pub update_second :
      WebhookConfiguration
      → WebhookConfiguration
      → Result Text (Unit {0}) × A.State
      → Result Text (Unit {0}) × A.State
  update_second v old (ok _, s) = update_if_changed A.update_validating v old s
  update_second v old (err e, s) = (err e, s)
  update_second v old (panic, s) = (panic, s)

  unfoldable pub update_both :
      WebhookConfiguration
      → WebhookConfiguration
      → Result Text (WebhookConfiguration × WebhookConfiguration)
      → A.State
      → Result Text (Unit {0}) × A.State
  unfolding update_second
  update_both old_m old_v (err e) s = (err e, s)
  update_both old_m old_v panic s = (panic, s)
  update_both old_m old_v (ok (m, v)) s =
      update_second v old_v (update_if_changed A.update_mutating m old_m s)

  -- Both configurations anew: both templates come first.
  unfoldable pub point_both :
      WebhookConfiguration
      → WebhookConfiguration
      → Result Text (WebhookConfiguration × WebhookConfiguration)
  unfolding point_parsed parse_template
  point_both m v = parse_template F m >>= λ pm. parse_template F v >>= λ pv.
      point_parsed F env pm >>= λ m'. point_parsed F env pv >>= λ v'. ok (m', v')

  -- `Ensure`
  unfoldable pub ensure : A.State → Result Text (Unit {0}) × A.State
  unfolding update_both point_both
  ensure s = elim (A.get_mutating s) [
    | failure e ↦ (err (codes "not found MutatingWebhookConfiguration"), s)
    | success m ↦ elim (A.get_validating s) [
      | failure e ↦ (err (codes "not found ValidatingWebhookConfiguration"), s)
      | success v ↦ update_both m v (point_both m v) s
    ]
  ]
