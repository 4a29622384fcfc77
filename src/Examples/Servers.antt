-- ===== src/Examples/Servers.antt =====
-- One handler whose gate is shut and one without a gate, on a server that keeps a table.
use persistent_pod_state.Base.{
  ℕ, Text, codes, false, Option, none, some, [], ◌∷◌, refl, ap, Result, ok, panic, text_eq,
}
use persistent_pod_state.Base.GoMap.{Dict, NodupKeys, lookup, insert, lookup-insert}
use persistent_pod_state.Webhook.Server.{Handlers}
use persistent_pod_state.Webhook.Server.Setup.{
  Route, WebhookServer, RegistersFree, SetsUp, setup_with_manager-SetsUp,
}

abbrev handlers : Handlers ℕ
handlers = record {
  builders = (codes "/mutate-pod", 1) ∷ (codes "/other", 2) ∷ [];
  gates = (codes "/mutate-pod", false) ∷ [];
}

handlers-NodupKeys : NodupKeys handlers.builders
unfolding lookup text_eq
handlers-NodupKeys = (refl, (refl, tt))

-- A path that is taken panics.
abbrev put : Text → Route ℕ → Dict (Route ℕ) → Option (Route ℕ) → Result Text (Dict (Route ℕ))
put path route table none = ok (insert path route table)
put path route table (some taken) = panic

abbrev server : WebhookServer ℕ
server = record {
  State = Dict (Route ℕ);
  register = λ path route table. put path route table (lookup path table);
  route_at = λ path table. lookup path table;
}

server-RegistersFree : RegistersFree server
server-RegistersFree = record {
  register_free = λ path route table free. (
    insert path route table,
    ap (put path route table) free,
    λ q. lookup-insert path q route table,
  );
}

setup_with_manager-SetsUp_example : SetsUp server handlers []
unfolding lookup text_eq
setup_with_manager-SetsUp_example =
    setup_with_manager-SetsUp server server-RegistersFree handlers [] handlers-NodupKeys refl refl
      (λ path. refl)
