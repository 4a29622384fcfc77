-- ===== src/Clients/Laws.antt =====
-- What client is given out once the registry is set up.
use persistent_pod_state.Base.{
  Text, some, Reply, success, failure, and_then, ok, ◌≡◌, refl, ap, sym, ◌∙◌, arith, codes, ◌++◌,
}
use persistent_pod_state.Clients.{
  RestConfig, Constructors, content_type_protobuf, GenericClientset, Registry, new_for_config,
  or_die, kept_clients, new_registry, with_name, get_generic_client_with_name,
}

-- Whether a client can be made does not go by the name that it gives itself: documented of
-- client-go, which only sends it along.
pub record IgnoresUserAgent (N : Constructors) : Type 0 where
  pub discovery :
      (c : RestConfig N.Rest) (name : Text) (d : N.DiscoveryClient)
      → N.new_discovery_client c ≡ success d
      → (d' : N.DiscoveryClient) × (N.new_discovery_client (record c { user_agent = name })
          ≡ success d')
  pub kube :
      (c : RestConfig N.Rest) (name : Text) (k : N.KubeClient)
      → N.new_kube_client c ≡ success k
      → (k' : N.KubeClient) × (N.new_kube_client (record c { user_agent = name }) ≡ success k')
  pub kruise :
      (c : RestConfig N.Rest) (name : Text) (x : N.KruiseClient)
      → N.new_kruise_client c ≡ success x
      → (x' : N.KruiseClient) × (N.new_kruise_client (record c { user_agent = name }) ≡ success x')

and_then-eq-success :
    {E A B : Type 0} (r : Reply E A) (f : A → Reply E B) {b : B}
    → and_then r f ≡ success b
    → (a : A) × (r ≡ success a) × (f a ≡ success b)
and_then-eq-success (success a) f h = (a, refl, h)
and_then-eq-success (failure e) f h = absurd (ground arith)

module _ (N : Constructors) (I : IgnoresUserAgent N) where
  -- What is made under the one name is made under another.
  new_for_config_named :
      (c : RestConfig N.Rest) (name : Text) (gc : GenericClientset N)
      → new_for_config N c ≡ success gc
      → (gc' : GenericClientset N) × (new_for_config N (record c { user_agent = name })
          ≡ success gc')
  unfolding new_for_config
  new_for_config_named c name gc h =
      let p : RestConfig N.Rest = record c { content_type = content_type_protobuf } in
      let (d, made_d, h1) = and_then-eq-success (N.new_discovery_client p) _ h in
      let (k, made_k, h2) = and_then-eq-success (N.new_kube_client p) _ h1 in
      let (x, made_x, h3) = and_then-eq-success (N.new_kruise_client c) _ h2 in
      let (d', again_d) = I.discovery p name d made_d in
      let (k', again_k) = I.kube p name k made_k in
      let (x', again_x) = I.kruise c name x made_x in
      (
        record { discovery_client = d'; kube_client = k'; kruise_client = x' },
        rw again_d (rw again_k (rw again_x refl)),
      )

  kept_clients_success :
      (c : RestConfig N.Rest) (r after : Registry N) (reply : Reply Text (GenericClientset N))
      → kept_clients N c r reply ≡ (success tt, after)
      → (gc : GenericClientset N) × (reply ≡ success gc)
        × (after ≡ record { cfg = some c; default_generic_client = some gc })
  kept_clients_success c r after (success gc) h = (gc, refl, sym (ap (λ o. o.1) h))
  kept_clients_success c r after (failure e) h = absurd (ground arith)

  with_name_lem :
      (name : Text) (c : RestConfig N.Rest) (gc' gc : GenericClientset N)
      → new_for_config N (with_name N name c) ≡ success gc
      → get_generic_client_with_name N name
          (record { cfg = some c; default_generic_client = some gc' })
        ≡ ok (some gc)
  unfolding get_generic_client_with_name
  with_name_lem name c gc' gc h = ap (or_die N) h

  -- Where it does not go by the user agent whether a client can be made: after NewRegistry has
  -- succeeded for a configuration, the client of any name is given out, without a panic, and it is
  -- the one made of that configuration with a slash and the name put at the end of its user agent.
  pub get_generic_client_with_name-new_registry :
      (c : RestConfig N.Rest) (name : Text) (r after : Registry N)
      → new_registry N c r ≡ (success tt, after)
      → (gc : GenericClientset N) × (get_generic_client_with_name N name after ≡ ok (some gc))
        × (new_for_config N (record c { user_agent = c.user_agent ++ (codes "/" ++ name) })
            ≡ success gc)
  unfolding new_registry
  get_generic_client_with_name-new_registry c name r after h =
      let (first, made, place) = kept_clients_success c r after (new_for_config N c) h in
      let (gc, again) = new_for_config_named c (with_name N name c).user_agent first made in
      (
        gc,
        ap (get_generic_client_with_name N name) place ∙ with_name_lem name c first gc again,
        again,
      )
