-- ===== src/Configuration/Ensure.antt =====
-- What the configurations look like after a run, and `Ensure` on settled ones.
use persistent_pod_state.Base.{
  Text, true, text_eq, Option, none, some, List, [], ◌∷◌, ◌≡◌, ◌⊎◌, inl, inr, refl, ap, subst, ◌∙◌,
  success, Result, ok, err, panic, ◌>>=◌, Bool-cases, arith,
}
use persistent_pod_state.Base.Lists.{All}
use persistent_pod_state.Base.Strings.{is_empty}
use persistent_pod_state.Base.GoMap.{Dict, entries, NodupKeys, SelfEqual, map_equal_refl}
use persistent_pod_state.Configuration.{
  Webhook, WebhookConfiguration, ServiceReference, Formats, Settings, get_path, parse_template,
  point_service, add_webhook, with_bundle, point_webhooks, point_parsed, ConfigurationApi,
  webhooks_eq, configuration_equal, text_equal, update_both, update_second, point_both, ensure,
}
use persistent_pod_state.Configuration.Laws.{pointed}

-- The API server trusts the bundle, and the service that it calls is this one.
abbrev pub IsPointed : Settings → Webhook → Type 0
IsPointed env wh =
    (wh.client_config.ca_bundle ≡ some env.ca_bundle)
    × ((wh.client_config.service ≡ none)
        ⊎ ((service : ServiceReference) × (wh.client_config.service ≡ some service)
            × (service.namespace ≡ env.namespace)
            × (service.name ≡ env.service_name)
            × (is_empty env.host ≡ true)))

bind_success :
    {A B : Type 0} (r : Result Text A) (f : A → Result Text B) (b : B)
    → (r >>= f) ≡ ok b
    → (a : A) × (r ≡ ok a) × (f a ≡ ok b)
bind_success (ok a) f b h = (a, refl, h)
bind_success (err e) f b h = cc
bind_success panic f b h = cc

ok_of : {A : Type 0} {a b : A} → ◌≡◌ {A = Result Text A} (ok a) (ok b) → a ≡ b
ok_of h = cc

module _ (F : Formats) (env : Settings) where
  point_service-IsPointed :
      (path others : Text) (service : Option ServiceReference) (url : Option Text)
      → IsPointed env (record {
        client_config =
            point_service F env path
              (record { ca_bundle = some env.ca_bundle; service = service; url = url });
        others = others;
      })
  unfolding point_service
  point_service-IsPointed path others none url = (refl, inl refl)
  point_service-IsPointed path others (some service) url = elim (Bool-cases (is_empty env.host)) [
    | inl e ↦ rw e (refl, inr (_, refl, refl, refl, refl))
    | inr e ↦ rw e (refl, inl refl)
  ]

  add_webhook-IsPointed :
      (wh : Webhook) (rest : List Webhook) (path : Text)
      → All (IsPointed env) rest
      → All (IsPointed env) (add_webhook F env (with_bundle F env wh) rest path)
  unfolding add_webhook
  add_webhook-IsPointed wh rest path h = elim (Bool-cases (env.has_handler path)) [
    | inl e ↦
        rw e
          (point_service-IsPointed path wh.others wh.client_config.service wh.client_config.url, h)
    | inr e ↦ rw e h
  ]

  -- Every webhook that a run leaves in a configuration trusts the given bundle, and has no service
  -- or, without a host, this one.
  pub point_webhooks-IsPointed :
      (template webhooks : List Webhook)
      → point_webhooks F env template ≡ ok webhooks
      → All (IsPointed env) webhooks
  unfolding point_webhooks
  point_webhooks-IsPointed [] webhooks h = subst (All (IsPointed env)) (ok_of h) tt
  point_webhooks-IsPointed (wh ∷ template) webhooks h =
      let add : Text → List Webhook → Result Text (List Webhook) =
        λ path rest. ok (add_webhook F env (with_bundle F env wh) rest path) in
      let (path, found, more) =
        bind_success (get_path F (with_bundle F env wh).client_config)
          (λ path. point_webhooks F env template >>= add path) webhooks h in
      let (rest, done, made) =
        bind_success (point_webhooks F env template) (add path) webhooks more in
      subst (All (IsPointed env)) (ok_of made)
        (add_webhook-IsPointed wh rest path (point_webhooks-IsPointed template rest done))

texts_self : (d : Dict Text) → SelfEqual text_equal d
texts_self [] = tt
texts_self ((k, v) ∷ d) = (ground arith, texts_self d)

configuration_equal_refl :
    (c : WebhookConfiguration) → NodupKeys (entries c.annotations) → configuration_equal c c ≡ true
unfolding configuration_equal
configuration_equal_refl c h =
    ground (arith, map_equal_refl text_equal c.annotations h (texts_self _))

-- A run leaves the configuration as it is, and its annotations list no key twice.
abbrev pub IsSettled : Formats → Settings → WebhookConfiguration → Type 0
IsSettled F env c = (pointed F env c ≡ ok c) × NodupKeys (entries c.annotations)

module _ (F : Formats) (A : ConfigurationApi) (env : Settings) where
  point_both_settled :
      (m v : WebhookConfiguration)
      → pointed F env m ≡ ok m
      → pointed F env v ≡ ok v
      → point_both F A env m v ≡ ok (m, v)
  unfolding point_both
  point_both_settled m v hm hv =
      let (pm, parsed_m, made_m) = bind_success (parse_template F m) (point_parsed F env) m hm in
      let (pv, parsed_v, made_v) = bind_success (parse_template F v) (point_parsed F env) v hv in
      rw (parsed_m, parsed_v) (rw (made_m, made_v) refl)

  update_both_same :
      (m v : WebhookConfiguration) (s : A.State)
      → configuration_equal m m ≡ true
      → configuration_equal v v ≡ true
      → update_both F A env m v (ok (m, v)) s ≡ (ok tt, s)
  unfolding update_both update_second
  update_both_same m v s hm hv = rw hm (rw hv refl)

  -- Where both configurations are stored and settled, with no annotation listed twice, Ensure
  -- succeeds and writes nothing.
  pub ensure_again :
      (s : A.State) (m v : WebhookConfiguration)
      → A.get_mutating s ≡ success m
      → A.get_validating s ≡ success v
      → IsSettled F env m
      → IsSettled F env v
      → ensure F A env s ≡ (ok tt, s)
  unfolding ensure
  ensure_again s m v found_m found_v (hm, nm) (hv, nv) =
      rw (found_m, found_v, ensure)
        (ap (λ r. update_both F A env m v r s) (point_both_settled m v hm hv)
          ∙ update_both_same m v s (configuration_equal_refl m nm) (configuration_equal_refl v nv))
