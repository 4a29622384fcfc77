-- ===== src/Clients.antt =====
-- pkg/client/registry.go and pkg/client/generic_client.go: the clients that the process keeps.
pub mod Laws
use persistent_pod_state.Base.{
  Text, codes, Option, none, some, ◌++◌, Reply, success, failure, and_then, Result, ok, err, panic,
}

-- `rest.Config`, by the fields that are read or set here and the others.
pub record RestConfig (Rest : Type 0) : Type 0 where
  pub user_agent : Text
  pub content_type : Text
  pub rest : Rest

-- The constructors of client-go, and the generated one.
pub record Constructors : Type 1 where
  pub Rest : Type 0
  pub DiscoveryClient : Type 0
  pub KubeClient : Type 0
  pub KruiseClient : Type 0
  pub new_discovery_client : RestConfig Rest → Reply Text DiscoveryClient
  pub new_kube_client : RestConfig Rest → Reply Text KubeClient
  pub new_kruise_client : RestConfig Rest → Reply Text KruiseClient

-- `runtime.ContentTypeProtobuf`
abbrev pub content_type_protobuf : Text
content_type_protobuf = codes "application/vnd.kubernetes.protobuf"

module _ (N : Constructors) where
  pub record GenericClientset : Type 0 where
    pub discovery_client : N.DiscoveryClient
    pub kube_client : N.KubeClient
    pub kruise_client : N.KruiseClient

  -- `cfg` and `defaultGenericClient`; nil is `none`.
  pub record Registry : Type 0 where
    pub cfg : Option (RestConfig N.Rest)
    pub default_generic_client : Option GenericClientset

  abbrev pub new_registry_state : Registry
  new_registry_state = record { cfg = none; default_generic_client = none }

  -- `newForConfig`
  unfoldable pub new_for_config : RestConfig N.Rest → Reply Text GenericClientset
  new_for_config c =
      let c_with_protobuf : RestConfig N.Rest = record c { content_type = content_type_protobuf } in
      and_then (N.new_discovery_client c_with_protobuf) λ discovery.
        and_then (N.new_kube_client c_with_protobuf) λ kube.
          and_then (N.new_kruise_client c) λ kruise.
            success
              (record { discovery_client = discovery; kube_client = kube; kruise_client = kruise })

  abbrev pub or_die : Reply Text GenericClientset → Result Text (Option GenericClientset)
  or_die (success gc) = ok (some gc)
  or_die (failure e) = panic

  -- `NewRegistry`: the default client is nil after an error, and `cfg` as it was.
  abbrev pub kept_clients :
      RestConfig N.Rest → Registry → Reply Text GenericClientset → Reply Text (Unit {0}) × Registry
  kept_clients c r (failure e) = (failure e, record r { default_generic_client = none })
  kept_clients c r (success gc) =
      (success tt, record { cfg = some c; default_generic_client = some gc })

  unfoldable pub new_registry : RestConfig N.Rest → Registry → Reply Text (Unit {0}) × Registry
  unfolding new_for_config
  new_registry c r = kept_clients c r (new_for_config c)

  abbrev pub with_name : Text → RestConfig N.Rest → RestConfig N.Rest
  with_name name c = record c { user_agent = c.user_agent ++ (codes "/" ++ name) }

  -- `GetGenericClientWithName`
  unfoldable pub get_generic_client_with_name :
      Text → Registry → Result Text (Option GenericClientset)
  unfolding new_for_config
  get_generic_client_with_name name r = elim r.cfg [
    | none ↦ ok none
    | some c ↦ or_die (new_for_config (with_name name c))
  ]
