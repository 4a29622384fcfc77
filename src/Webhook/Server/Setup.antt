-- ===== src/Webhook/Server/Setup.antt =====
-- SetupWithManager in internal/webhook/server.go: the routes of the webhook server, and the handlers
-- that Ensure is given. A builder stands for the handler that it builds.
use persistent_pod_state.Base.{
  Text, codes, ◌==◌, text_eq, nat_eq, if◌then◌else◌, Option, none, some, List, [], ◌∷◌, ◌≡◌, ◌≢◌,
  inl, inr, refl, sym, ap, subst, ◌∙◌, Result, ok, ◌>>=◌, Bool-cases, arith, Bool, true, false,
  Option-cases,
}
use persistent_pod_state.Base.GoMap.{
  Dict, NodupKeys, lookup, insert, erase, lookup-erase, lookup-insert,
}
use persistent_pod_state.Webhook.Server.Laws.{lookup-filter_active_handlers}
use persistent_pod_state.Webhook.Server.{
  is_disabled, Handlers, disable_paths, delete_all, filter_active_handlers,
}

-- What is served at a path.
pub data Route (B : Type 0) : Type 0 where
  admission : B → Route B
  conversion health : Route B

names_differ : codes "/convert" ≢ codes "/healthz"
names_differ e = ground arith

-- What is used of the webhook server of controller-runtime: `Register`, and what a request to a path
-- is answered by.
pub record WebhookServer (B : Type 0) : Type 1 where
  pub State : Type 0
  pub register : Text → Route B → State → Result Text State
  pub route_at : Text → State → Option (Route B)

-- What is documented of `Register`, which panics only at a path that is taken.
pub record RegistersFree {B : Type 0} (S : WebhookServer B) : Type 0 where
  pub register_free :
      (path : Text) (route : Route B) (s : S.State)
      → S.route_at path s ≡ none
      → (s' : S.State) × (S.register path route s ≡ ok s')
        × ((q : Text) → S.route_at q s' ≡ (if path == q then some route else S.route_at q s))

module _ {B : Type 0} where
  abbrev or_else : Option B → Option B → Option B
  or_else none o = o
  or_else (some b) o = some b

  later_found :
      (path p : Text) (b : B) (builders handlers : Dict B)
      → lookup path builders ≡ none
      → or_else (lookup p builders) (lookup p (insert path b handlers))
        ≡ or_else (lookup p ((path, b) ∷ builders)) (lookup p handlers)
  unfolding lookup
  later_found path p b builders handlers h = elim (text_eq.dec path p) [
    | yes e ↦ ground (arith, lookup-insert path p b handlers)
    | no n ↦ ground (arith, lookup-insert path p b handlers)
  ]

  lookup-erase-none : (k j : Text) (m : Dict B) → lookup k m ≡ none → lookup k (erase j m) ≡ none
  lookup-erase-none k j m h = ground (arith, lookup-erase j k m)

  erase-NodupKeys : (j : Text) (m : Dict B) → NodupKeys m → NodupKeys (erase j m)
  unfolding erase
  erase-NodupKeys j [] h = tt
  erase-NodupKeys j ((k, b) ∷ m) h = elim (Bool-cases (k == j)) [
    | inl e ↦ rw e (erase-NodupKeys j m h.1)
    | inr e ↦ rw e (lookup-erase-none k j m h.0, erase-NodupKeys j m h.1)
  ]

  delete_all-NodupKeys :
      (paths : List Text) (m : Dict B) → NodupKeys m → NodupKeys (delete_all paths m)
  unfolding delete_all
  delete_all-NodupKeys [] m h = h
  delete_all-NodupKeys (p ∷ paths) m h =
      delete_all-NodupKeys paths (erase p m) (erase-NodupKeys p m h)

  lookup-delete_all-none :
      (k : Text) (paths : List Text) (m : Dict B)
      → lookup k m ≡ none
      → lookup k (delete_all paths m) ≡ none
  unfolding delete_all
  lookup-delete_all-none k [] m h = h
  lookup-delete_all-none k (p ∷ paths) m h =
      lookup-delete_all-none k paths (erase p m) (lookup-erase-none k p m h)

  or_else_nil : (path : Text) (o : Option B) → or_else o (lookup path []) ≡ o
  unfolding lookup
  or_else_nil path none = refl
  or_else_nil path (some b) = refl

  lookup_differs :
      (path k : Text) (b : B) (m : Dict B) → lookup path m ≡ some b → lookup k m ≡ none → k ≢ path
  lookup_differs path k b m found gone e = ground (arith, subst (λ q. lookup q m ≡ none) e gone)

  abbrev as_route : Option B → Option (Route B)
  as_route none = none
  as_route (some b) = some (admission b)

module _ {B : Type 0} (S : WebhookServer B) where
  -- The loop, which fills `handlerMap` too
  unfoldable pub register_handlers : Dict B → S.State × Dict B → Result Text (S.State × Dict B)
  register_handlers [] (routes, handlers) = ok (routes, handlers)
  register_handlers ((path, builder) ∷ builders) (routes, handlers) =
      S.register path (admission builder) routes >>= λ more.
      register_handlers builders (more, insert path builder handlers)

  -- The two routes that there are always.
  abbrev pub register_others : S.State × Dict B → Result Text (S.State × Dict B)
  register_others (routes, handlers) = S.register (codes "/convert") conversion routes >>= λ more.
      S.register (codes "/healthz") health more >>= λ all. ok (all, handlers)

  -- `SetupWithManager`, on a server and with an empty `handlerMap`
  unfoldable pub setup_with_manager : Handlers B → S.State → Result Text (S.State × Dict B)
  unfolding register_handlers
  setup_with_manager h s =
      register_handlers (filter_active_handlers h).builders (s, []) >>= register_others

  -- No builder's path is taken.
  abbrev AreFree : Dict B → S.State → Type 0
  AreFree [] s = Unit
  AreFree ((path, builder) ∷ builders) s = (S.route_at path s ≡ none) × AreFree builders s

  -- A route more, at a path that was free.
  abbrev IsAdded : Text → Route B → S.State → S.State → Type 0
  IsAdded path route s s' =
      (q : Text) → S.route_at q s' ≡ (if path == q then some route else S.route_at q s)

  AreFree-added :
      (path : Text) (route : Route B) (builders : Dict B) (s s' : S.State)
      → IsAdded path route s s'
      → lookup path builders ≡ none
      → AreFree builders s
      → AreFree builders s'
  unfolding lookup
  AreFree-added path route [] s s' a h f = tt
  AreFree-added path route ((p, b) ∷ builders) s s' a h f =
      (ground (arith, a p, f.0), AreFree-added path route builders s s' a (ground arith) f.1)

  -- The routes are those of the handlers.
  abbrev IsServedBy : S.State × Dict B → Type 0
  IsServedBy r = (path : Text) → S.route_at path r.0 ≡ as_route (lookup path r.1)

  IsServedBy-added :
      (path : Text) (b : B) (s s' : S.State) (handlers : Dict B)
      → IsAdded path (admission b) s s'
      → IsServedBy (s, handlers)
      → IsServedBy (s', insert path b handlers)
  IsServedBy-added path b s s' handlers a h p = elim (text_eq.dec path p) [
    | yes e ↦ ground (arith, a p, lookup-insert path p b handlers)
    | no n ↦ ground (arith, a p, h p, lookup-insert path p b handlers)
  ]

  -- The loop ends with the routes of all handlers.
  record Registers (builders : Dict B) (before : S.State × Dict B) : Type 0 where
    after : S.State × Dict B
    runs : register_handlers builders before ≡ ok after
    served : IsServedBy after
    found :
        (path : Text) → lookup path after.1 ≡ or_else (lookup path builders) (lookup path before.1)

  -- What is there behind a gate, if there is a gate.
  abbrev pub behind : Option Bool → Option B → Option B
  behind none o = o
  behind (some true) o = o
  behind (some false) o = none

  behind_gate :
      (path : Text) (gates : Dict Bool) (o : Option B)
      → (if is_disabled gates path then none else o) ≡ behind (lookup path gates) o
  unfolding is_disabled
  behind_gate path gates o = elim (Option-cases (lookup path gates)) [
    | inl e ↦ rw (e, is_disabled) refl
    | inr (gate, e) ↦
        rw (e, is_disabled) (elim (Bool-cases gate) [ inl e2 ↦ rw e2 refl | inr e2 ↦ rw e2 refl ])
  ]

  -- The setup succeeds; the handlers are the active ones, and each has its route.
  pub record SetsUp (h : Handlers B) (s : S.State) : Type 0 where
    pub routes : S.State
    pub handlers : Dict B
    pub runs : setup_with_manager h s ≡ ok (routes, handlers)
    pub active :
        (path : Text) → lookup path handlers ≡ behind (lookup path h.gates) (lookup path h.builders)
    pub served :
        (path : Text) (b : B)
        → lookup path handlers ≡ some b
        → S.route_at path routes ≡ some (admission b)
    pub convert : S.route_at (codes "/convert") routes ≡ some conversion
    pub healthz : S.route_at (codes "/healthz") routes ≡ some health

  module _ (laws : RegistersFree S) where
    register_handlers-Registers :
        (builders : Dict B) (s : S.State) (handlers : Dict B)
        → NodupKeys builders
        → AreFree builders s
        → IsServedBy (s, handlers)
        → Registers builders (s, handlers)
    unfolding register_handlers lookup
    register_handlers-Registers [] s handlers n f served = record {
      after = (s, handlers);
      runs = refl;
      served = served;
      found = λ path. refl;
    }
    register_handlers-Registers ((path, b) ∷ builders) s handlers n f served =
        let (s', done, added) = laws.register_free path (admission b) s f.0 in
        let rest =
          register_handlers-Registers builders s' (insert path b handlers) n.1
            (AreFree-added path (admission b) builders s s' added n.0 f.1)
            (IsServedBy-added path b s s' handlers added served) in
        record {
          after = rest.after;
          runs =
              ap (λ r. r >>= λ more. register_handlers builders (more, insert path b handlers)) done
              ∙ rest.runs;
          served = rest.served;
          found = λ p. rest.found p ∙ later_found path p b builders handlers n.0;
        }

    AreFree-all :
        (builders : Dict B) (s : S.State)
        → ((path : Text) → S.route_at path s ≡ none)
        → AreFree builders s
    AreFree-all [] s h = tt
    AreFree-all ((path, b) ∷ builders) s h = (h path, AreFree-all builders s h)

    -- The two routes, beside the others.
    record HasOthers (r : S.State × Dict B) : Type 0 where
      all : S.State
      runs : register_others r ≡ ok (all, r.1)
      convert : S.route_at (codes "/convert") all ≡ some conversion
      healthz : S.route_at (codes "/healthz") all ≡ some health
      others :
          (path : Text)
          → codes "/convert" ≢ path
          → codes "/healthz" ≢ path
          → S.route_at path all ≡ S.route_at path r.0

    register_others-HasOthers :
        (r : S.State × Dict B)
        → S.route_at (codes "/convert") r.0 ≡ none
        → S.route_at (codes "/healthz") r.0 ≡ none
        → HasOthers r
    register_others-HasOthers r c z =
        let (s1, done1, added1) = laws.register_free (codes "/convert") conversion r.0 c in
        let free : S.route_at (codes "/healthz") s1 ≡ none =
          at_other (codes "/convert") (codes "/healthz") conversion r.0 s1 added1 names_differ
          ∙ z in
        let (s2, done2, added2) = laws.register_free (codes "/healthz") health s1 free in
        record {
          all = s2;
          runs =
              ap
                (λ o.
                  o >>= λ more. S.register (codes "/healthz") health more >>= λ all. ok (all, r.1))
                done1
              ∙ ap (λ o. o >>= λ all. ok (all, r.1)) done2;
          convert =
              at_other (codes "/healthz") (codes "/convert") health s1 s2 added2
                (λ e. names_differ (sym e))
              ∙ at_self (codes "/convert") conversion r.0 s1 added1;
          healthz = at_self (codes "/healthz") health s1 s2 added2;
          others = λ path m n.
              at_other (codes "/healthz") path health s1 s2 added2 n
              ∙ at_other (codes "/convert") path conversion r.0 s1 added1 m;
        }
      where
        at_self :
            (path : Text) (route : Route B) (s s' : S.State)
            → IsAdded path route s s'
            → S.route_at path s' ≡ some route
        at_self path route s s' a = ground (arith, a path)

        at_other :
            (path q : Text) (route : Route B) (s s' : S.State)
            → IsAdded path route s s'
            → path ≢ q
            → S.route_at q s' ≡ S.route_at q s
        at_other path q route s s' a n = ground (arith, a q)

    no_routes : (s : S.State) → ((path : Text) → S.route_at path s ≡ none) → IsServedBy (s, [])
    unfolding lookup
    no_routes s h path = h path

    -- With a server that registers a route at any path that is free, and has none yet: where each
    -- path has one builder, and none is at /convert or /healthz, the setup does not panic. A path
    -- then has its handler, unless its gate is shut, each handler is served at its path, and the
    -- two other routes are there.
    pub setup_with_manager-SetsUp :
        (h : Handlers B) (s : S.State)
        → NodupKeys h.builders
        → lookup (codes "/convert") h.builders ≡ none
        → lookup (codes "/healthz") h.builders ≡ none
        → ((path : Text) → S.route_at path s ≡ none)
        → SetsUp h s
    unfolding setup_with_manager filter_active_handlers
    setup_with_manager-SetsUp h s nodup no_convert no_healthz empty =
        let gone = disable_paths h.builders h.gates in
        let left = delete_all gone h.builders in
        let reg =
          register_handlers-Registers left s [] (delete_all-NodupKeys gone h.builders nodup)
            (AreFree-all left s empty) (no_routes s empty) in
        let active : (path : Text) → lookup path reg.after.1 ≡ lookup path left =
          λ path. reg.found path ∙ or_else_nil path (lookup path left) in
        let convert_gone =
          active (codes "/convert")
          ∙ lookup-delete_all-none (codes "/convert") gone h.builders no_convert in
        let healthz_gone =
          active (codes "/healthz")
          ∙ lookup-delete_all-none (codes "/healthz") gone h.builders no_healthz in
        let others =
          register_others-HasOthers reg.after
            (reg.served (codes "/convert") ∙ ap as_route convert_gone)
            (reg.served (codes "/healthz") ∙ ap as_route healthz_gone) in
        record {
          routes = others.all;
          handlers = reg.after.1;
          runs = ap (λ r. r >>= register_others) reg.runs ∙ others.runs;
          active = λ path.
              active path
              ∙ lookup-filter_active_handlers path h
              ∙ behind_gate path h.gates (lookup path h.builders);
          served = λ path b found.
              others.others path
                (lookup_differs path (codes "/convert") b reg.after.1 found convert_gone)
                (lookup_differs path (codes "/healthz") b reg.after.1 found healthz_gone)
              ∙ reg.served path
              ∙ ap as_route found;
          convert = others.convert;
          healthz = others.healthz;
        }
