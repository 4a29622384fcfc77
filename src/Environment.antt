-- ===== src/Environment.antt =====
-- internal/webhook/util/util.go: what the process reads of its environment.
pub mod Laws
use persistent_pod_state.Base.{Text, codes, if◌then◌else◌, Option, none, some}
use persistent_pod_state.Base.Int.{ℤ, pos}
use persistent_pod_state.Base.Strings.{is_empty}
use persistent_pod_state.Base.Decimal.{parse_int32}

-- `os.Getenv`, which gives the empty string for a variable that is not set.
abbrev pub Env : Type 0
Env = Text → Text

-- A variable, or the default where it is empty.
unfoldable pub get_or_default : Env → Text → Text → Text
get_or_default env variable default_value =
    if is_empty (env variable) then default_value else env variable

module _ (env : Env) where
  unfoldable pub get_mutating_webhook_name : Text
  unfolding get_or_default
  get_mutating_webhook_name =
      get_or_default env (codes "MUTATING_WEBHOOK_NAME")
        (codes "persistentpodstate-mutating-webhook-configuration")

  unfoldable pub get_validating_webhook_name : Text
  unfolding get_or_default
  get_validating_webhook_name =
      get_or_default env (codes "VALIDATING_WEBHOOK_NAME")
        (codes "persistentpodstate-validating-webhook-configuration")

  unfoldable pub get_host : Text
  get_host = env (codes "WEBHOOK_HOST")

  unfoldable pub get_namespace : Text
  unfolding get_or_default
  get_namespace = get_or_default env (codes "POD_NAMESPACE") (codes "persistent-pod-state-system")

  unfoldable pub get_secret_name : Text
  unfolding get_or_default
  get_secret_name =
      get_or_default env (codes "SECRET_NAME") (codes "persistentpodstate-webhook-certs")

  unfoldable pub get_service_name : Text
  unfolding get_or_default
  get_service_name =
      get_or_default env (codes "SERVICE_NAME") (codes "persistentpodstate-webhook-service")

  -- `none` where the process ends by `klog.Fatalf`
  unfoldable pub get_port : Option ℤ
  get_port =
      if is_empty (env (codes "WEBHOOK_PORT"))
      then some (pos 9876)
      else parse_int32 (env (codes "WEBHOOK_PORT"))

  unfoldable pub get_cert_dir : Text
  unfolding get_or_default
  get_cert_dir =
      get_or_default env (codes "WEBHOOK_CERT_DIR") (codes "/tmp/persistentpodstate-webhook-certs")

  unfoldable pub get_cert_writer : Text
  get_cert_writer = env (codes "WEBHOOK_CERT_WRITER")
