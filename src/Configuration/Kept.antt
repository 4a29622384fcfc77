-- ===== src/Configuration/Kept.antt =====
-- `Ensure` on a server that answers: with templates that can be read it succeeds, and it can be run
-- again.
use persistent_pod_state.Cluster.{ApiError, Write}
use persistent_pod_state.Base.{
  Text, true, false, text_eq, List, [], ◌∷◌, ◌≡◌, ◌⊎◌, inl, inr, refl, ap, subst, ◌∙◌, sym, success,
  Result, ok, Bool-cases, Reply,
}
use persistent_pod_state.Base.Lists.{All}
use persistent_pod_state.Base.Strings.{is_empty}
use persistent_pod_state.Base.GoMap.{GoMap, get_or}
use persistent_pod_state.Configuration.{
  Webhook, WebhookConfiguration, Formats, Settings, get_path, parse_template, remember,
  template_key, with_bundle, add_webhook, point_webhooks, point_parsed, ConfigurationApi,
  configuration_equal, update_both, update_second, update_if_changed, point_both, ensure,
}
use persistent_pod_state.Configuration.Laws.{
  RoundTrips, remembered, get_or-insert, parse_recalled, parse_new,
}

-- The path of the webhook can be read.
abbrev pub HasPath : Formats → Webhook → Type 0
HasPath F wh = (p : Text) × (get_path F wh.client_config ≡ ok p)

-- The annotations hold the template.
abbrev pub Holds : Formats → List Webhook → GoMap Text → Type 0
Holds F template annotations =
    (is_empty (get_or annotations template_key []) ≡ false)
    × (F.unmarshal (get_or annotations template_key []) ≡ success template)

-- No template is held yet, and the webhooks are read back as they are encoded.
abbrev pub Starts : Formats → List Webhook → WebhookConfiguration → Type 0
Starts F template m =
    (is_empty (get_or m.annotations template_key []) ≡ true)
    × (m.webhooks ≡ template)
    × RoundTrips F template

-- There is a template, and its webhooks have paths.
abbrev pub IsReadable : Formats → WebhookConfiguration → Type 0
IsReadable F m =
    (template : List Webhook) × (All (HasPath F) template)
    × (Holds F template m.annotations ⊎ Starts F template m)

-- What a run makes of a configuration: another one with webhooks made of the same template.
record Made (F : Formats) (env : Settings) (m : WebhookConfiguration) : Type 0 where
  template : List Webhook
  parsed : WebhookConfiguration
  made : WebhookConfiguration
  have_paths : All (HasPath F) template
  parses : parse_template F m ≡ ok (template, parsed)
  points : point_parsed F env (template, parsed) ≡ ok made
  holds : Holds F template made.annotations

module _ (F : Formats) (env : Settings) where
  with_bundle-HasPath :
      (wh : Webhook) → get_path F (with_bundle F env wh).client_config ≡ get_path F wh.client_config
  unfolding get_path
  with_bundle-HasPath wh = refl

  point_webhooks_done :
      (template : List Webhook)
      → All (HasPath F) template
      → (webhooks : List Webhook) × (point_webhooks F env template ≡ ok webhooks)
  unfolding point_webhooks
  point_webhooks_done [] h = ([], refl)
  point_webhooks_done (wh ∷ template) ((p, found), h) =
      let (rest, done) = point_webhooks_done template h in
      (
        add_webhook F env (with_bundle F env wh) rest p,
        rw (with_bundle-HasPath wh, found, done) refl,
      )

  point_parsed_done :
      (template : List Webhook) (c : WebhookConfiguration)
      → All (HasPath F) template
      → (webhooks : List Webhook) × (point_parsed F env (template, c)
          ≡ ok (record c { webhooks = webhooks }))
  unfolding point_parsed
  point_parsed_done template c h =
      let (webhooks, done) = point_webhooks_done template h in (webhooks, rw done refl)

  from_template :
      (template : List Webhook) (m c : WebhookConfiguration)
      → All (HasPath F) template
      → parse_template F m ≡ ok (template, c)
      → Holds F template c.annotations
      → Made F env m
  from_template template m c h parses holds =
      let (webhooks, points) = point_parsed_done template c h in
      record {
        template = template;
        parsed = c;
        made = record c { webhooks = webhooks };
        have_paths = h;
        parses = parses;
        points = points;
        holds = holds;
      }

  readable-Made : (m : WebhookConfiguration) → IsReadable F m → Made F env m
  unfolding remember
  readable-Made m (template, h, inl (held, read)) =
      from_template template m m h (parse_recalled F m _ template refl held read) (held, read)
  readable-Made m (template, h, inr (fresh, same, (bytes, written, some_bytes, read))) =
      let stored = get_or-insert F m bytes in
      let c = remembered F m bytes in
      from_template template m c h
        (parse_new F m fresh
          ∙ ap (λ ws. remember F m (F.marshal ws)) same
          ∙ ap (remember F m) written
          ∙ ap (λ (ws : List Webhook). ok (ws, c)) same)
        (ap is_empty stored ∙ some_bytes, ap F.unmarshal stored ∙ read)

-- A configuration that is written is there afterwards, with its annotations, and the other one is
-- as it was.
abbrev pub IsStoredBy :
    {S : Type 0}
    → (WebhookConfiguration → Write S)
    → (S → Reply ApiError WebhookConfiguration)
    → (S → Reply ApiError WebhookConfiguration)
    → Type 0
IsStoredBy {S = S} update get other =
    (x : WebhookConfiguration) (s : S)
    → (s' : S) × (z : WebhookConfiguration) × (update x s ≡ (success tt, s'))
      × (get s' ≡ success z)
      × (z.annotations ≡ x.annotations)
      × (other s' ≡ other s)

-- A server that answers each update, where nobody else writes the two configurations.
pub record IsQuiet (A : ConfigurationApi) : Type 0 where
  pub mutating : IsStoredBy A.update_mutating A.get_mutating A.get_validating
  pub validating : IsStoredBy A.update_validating A.get_validating A.get_mutating

-- What an update leaves.
abbrev IsKept :
    {S : Type 0}
    → Formats
    → Result Text (Unit {0}) × S
    → (S → Reply ApiError WebhookConfiguration)
    → (S → Reply ApiError WebhookConfiguration)
    → S
    → Type 0
IsKept {S = S} F r get other s =
    (s' : S) × (z : WebhookConfiguration) × (r ≡ (ok tt, s'))
    × (get s' ≡ success z)
    × IsReadable F z
    × (other s' ≡ other s)

module _ {S : Type 0} (F : Formats) (env : Settings) (update : WebhookConfiguration → Write S)
    (get other : S → Reply ApiError WebhookConfiguration) where
  update_if_changed-IsKept :
      IsStoredBy update get other
      → (m : WebhookConfiguration) (w : Made F env m) (s : S) → get s ≡ success m
      → IsReadable F m
      → IsKept F (update_if_changed update w.made m s) get other s
  update_if_changed-IsKept stored m w s found readable =
      elim (Bool-cases (configuration_equal w.made m)) [
        | inl e ↦ rw e (s, m, refl, found, readable, refl)
        | inr e ↦
            let (s', z, written, there, same, others) = stored w.made s in
            rw (e, written)
              (
                s',
                z,
                refl,
                there,
                (w.template, w.have_paths, inl (subst (Holds F w.template) (sym same) w.holds)),
                others,
              )
      ]

-- Both configurations are there, with templates that can be read.
abbrev pub IsEnsurable : Formats → (A : ConfigurationApi) → A.State → Type 0
IsEnsurable F A s =
    (m : WebhookConfiguration) × (v : WebhookConfiguration) × (A.get_mutating s ≡ success m)
    × (A.get_validating s ≡ success v)
    × IsReadable F m
    × IsReadable F v

module _ (F : Formats) (A : ConfigurationApi) (env : Settings) where
  point_both_made :
      (m v : WebhookConfiguration) (wm : Made F env m) (wv : Made F env v)
      → point_both F A env m v ≡ ok (wm.made, wv.made)
  unfolding point_both
  point_both_made m v wm wv = rw (wm.parses, wv.parses) (rw (wm.points, wv.points) refl)

  ensure_found :
      (s : A.State) (m v : WebhookConfiguration)
      → A.get_mutating s ≡ success m
      → A.get_validating s ≡ success v
      → ensure F A env s ≡ update_both F A env m v (point_both F A env m v) s
  unfolding ensure
  ensure_found s m v found_m found_v = rw (found_m, found_v, ensure) refl

  -- On a quiet server whose configurations have templates that can be read, Ensure succeeds and
  -- leaves them so.
  pub ensure-IsEnsurable :
      IsQuiet A
      → (s : A.State) → IsEnsurable F A s
      → (s' : A.State) × (ensure F A env s ≡ (ok tt, s')) × IsEnsurable F A s'
  unfolding update_both update_second
  ensure-IsEnsurable quiet s (m, v, found_m, found_v, rm, rv) =
      let wm = readable-Made F env m rm in
      let wv = readable-Made F env v rv in
      let (s1, m1, first, there_m, rm1, same_v) =
        update_if_changed-IsKept F env A.update_mutating A.get_mutating A.get_validating
          quiet.mutating m wm s found_m rm in
      let (s2, v2, second, there_v, rv2, same_m) =
        update_if_changed-IsKept F env A.update_validating A.get_validating A.get_mutating
          quiet.validating v wv s1 (same_v ∙ found_v) rv in
      (
        s2,
        ensure_found s m v found_m found_v
            ∙ ap (λ r. update_both F A env m v r s) (point_both_made m v wm wv)
            ∙ ap (update_second F A env wv.made v) first
            ∙ second,
        (m1, v2, same_m ∙ there_m, there_v, rm1, rv2),
      )
