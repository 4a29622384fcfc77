-- ===== src/Configuration/Laws.antt =====
-- Runs over the same configuration, one after another.
use persistent_pod_state.Base.{
  Text, true, false, text_eq, some, List, [], ◌≡◌, inl, inr, refl, sym, ap, subst, ◌∙◌, Reply,
  success, failure, Result, ok, err, panic, ◌>>=◌, Bool-cases, arith,
}
use persistent_pod_state.Base.Strings.{is_empty}
use persistent_pod_state.Base.GoMap.{entries, get_or, insert, lookup-insert_self}
use persistent_pod_state.Configuration.{
  Webhook, WebhookConfiguration, Formats, Settings, template_key, remember, recall, parse_template,
  point_webhooks, point_parsed,
}

-- The webhooks are encoded, by a text that is not empty, and decoded again.
abbrev pub RoundTrips : Formats → List Webhook → Type 0
RoundTrips F ws =
    (bytes : Text) × (F.marshal ws ≡ success bytes)
    × (is_empty bytes ≡ false)
    × (F.unmarshal bytes ≡ success ws)

ok_injective : {A : Type 0} {a b : A} → ◌≡◌ {A = Result Text A} (ok a) (ok b) → a ≡ b
ok_injective h = cc

abbrev Parsed : Type 0
Parsed = List Webhook × WebhookConfiguration

module _ (F : Formats) where
  -- With a template, that is what is parsed, whatever the webhooks have become.
  parse_known :
      (c : WebhookConfiguration) (template : Text)
      → get_or c.annotations template_key [] ≡ template
      → is_empty template ≡ false
      → parse_template F c ≡ recall F c (F.unmarshal template)
  unfolding parse_template
  parse_known c template e n = rw e (rw n refl)

  pub parse_new :
      (c : WebhookConfiguration)
      → is_empty (get_or c.annotations template_key []) ≡ true
      → parse_template F c ≡ remember F c (F.marshal c.webhooks)
  unfolding parse_template
  parse_new c e = rw e refl

  pub get_or-insert :
      (c : WebhookConfiguration) (bytes : Text)
      → get_or (some (insert template_key bytes (entries c.annotations))) template_key [] ≡ bytes
  get_or-insert c bytes =
      ground (arith, lookup-insert_self template_key bytes (entries c.annotations))

  recall_success :
      (c c1 : WebhookConfiguration) (ws : List Webhook) (r : Reply Text (List Webhook))
      → recall F c r ≡ ok (ws, c1)
      → (r ≡ success ws) × (c1 ≡ c)
  unfolding recall
  recall_success c c1 ws (failure e) h = cc
  recall_success c c1 ws (success w) h =
      let p = ok_injective h in
      (ap (λ (q : Parsed). success q.0) p, sym (ap (λ (q : Parsed). q.1) p))

  abbrev pub remembered : WebhookConfiguration → Text → WebhookConfiguration
  remembered c bytes = record c {
    annotations = some (insert template_key bytes (entries c.annotations));
  }

  remember_success :
      (c : WebhookConfiguration) (bytes : Text) (c1 : WebhookConfiguration) (ws : List Webhook)
      → remember F c (success bytes) ≡ ok (ws, c1)
      → (c.webhooks ≡ ws) × (remembered c bytes ≡ c1)
  unfolding remember
  remember_success c bytes c1 ws h =
      let p = ok_injective h in (ap (λ (q : Parsed). q.0) p, ap (λ (q : Parsed). q.1) p)

  pub parse_recalled :
      (c : WebhookConfiguration) (template : Text) (ws : List Webhook)
      → get_or c.annotations template_key [] ≡ template
      → is_empty template ≡ false
      → F.unmarshal template ≡ success ws
      → parse_template F c ≡ ok (ws, c)
  unfolding recall
  parse_recalled c template ws e n u = parse_known c template e n ∙ ap (recall F c) u

  module _ (c c1 : WebhookConfiguration) (ws webhooks : List Webhook)
      (h : parse_template F c ≡ ok (ws, c1)) where
    abbrev Again : Type 0
    Again =
        parse_template F (record c1 { webhooks = webhooks })
        ≡ ok (ws, record c1 { webhooks = webhooks })

    again_known : is_empty (get_or c.annotations template_key []) ≡ false → Again
    again_known n =
        let (u, same) = recall_success c c1 ws _ (sym (parse_known c _ refl n) ∙ h) in
        parse_recalled (record c1 { webhooks = webhooks }) (get_or c.annotations template_key []) ws
          (ap (λ k. get_or k.annotations template_key []) same) n u

    again_new :
        RoundTrips F c.webhooks → is_empty (get_or c.annotations template_key []) ≡ true → Again
    again_new R e =
        let (bytes, made, n, u) = R in
        let (first, same) =
          remember_success c bytes c1 ws (sym (parse_new c e ∙ ap (remember F c) made) ∙ h) in
        parse_recalled (record c1 { webhooks = webhooks }) bytes ws
          (ap (λ k. get_or k.annotations template_key []) (sym same) ∙ get_or-insert c bytes) n
          (u ∙ ap success first)

    -- The same template is found again in what was parsed, with any webhooks.
    pub parse_template_again : RoundTrips F c.webhooks → Again
    parse_template_again R = elim (Bool-cases (is_empty (get_or c.annotations template_key []))) [
      | inl e ↦ again_new R e
      | inr n ↦ again_known n
    ]

-- What a run makes of a configuration.
abbrev pub pointed : Formats → Settings → WebhookConfiguration → Result Text WebhookConfiguration
pointed F env c = parse_template F c >>= point_parsed F env

module _ (F : Formats) (env : Settings) where
  point_parsed_success :
      (ws : List Webhook) (c1 c2 : WebhookConfiguration) (r : Result Text (List Webhook))
      → (r >>= λ webhooks. ok (record c1 { webhooks = webhooks })) ≡ ok c2
      → (webhooks : List Webhook) × (r ≡ ok webhooks) × (record c1 { webhooks = webhooks } ≡ c2)
  point_parsed_success ws c1 c2 (ok webhooks) h = (webhooks, refl, ok_injective h)
  point_parsed_success ws c1 c2 (err e) h = cc
  point_parsed_success ws c1 c2 panic h = cc

  point_parsed_again :
      (ws webhooks : List Webhook) (c1 : WebhookConfiguration)
      → point_webhooks F env ws ≡ ok webhooks
      → point_parsed F env (ws, record c1 { webhooks = webhooks })
        ≡ ok (record c1 { webhooks = webhooks })
  unfolding point_parsed
  point_parsed_again ws webhooks c1 h = ap (λ r. r >>= λ w. ok (record c1 { webhooks = w })) h

  settled :
      (c c2 : WebhookConfiguration) (r : Result Text Parsed)
      → RoundTrips F c.webhooks
      → parse_template F c ≡ r
      → (r >>= point_parsed F env) ≡ ok c2
      → pointed F env c2 ≡ ok c2
  unfolding point_parsed
  settled c c2 (err e) R p h = cc
  settled c c2 panic R p h = cc
  settled c c2 (ok (ws, c1)) R p h =
      let (webhooks, made, same) = point_parsed_success ws c1 c2 (point_webhooks F env ws) h in
      subst (λ k. pointed F env k ≡ ok k) same
        (ap (λ r. r >>= point_parsed F env) (parse_template_again F c c1 ws webhooks p R)
          ∙ point_parsed_again ws webhooks c1 made)

  -- Where the webhooks of a configuration are encoded, by a text that is not empty, and decoded
  -- again: what a run makes of the configuration, the next one makes of that again.
  pub pointed_again :
      (c c2 : WebhookConfiguration)
      → RoundTrips F c.webhooks
      → pointed F env c ≡ ok c2
      → pointed F env c2 ≡ ok c2
  pointed_again c c2 R h = settled c c2 _ R refl h
