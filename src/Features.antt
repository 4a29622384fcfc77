-- ===== src/Features.antt =====
-- The persistence switches of pkg/features/features.go.
use persistent_pod_state.Base.{Bool, true}

pub record PersistenceConfig : Type 0 where
  pub enable_vmi_persistence : Bool
  pub enable_stateful_set_persistence : Bool

-- `GlobalConfig`
abbrev pub default_config : PersistenceConfig
default_config = record { enable_vmi_persistence = true; enable_stateful_set_persistence = true }

-- `SetPersistenceConfig`
abbrev pub set_persistence_config : Bool → Bool → PersistenceConfig → PersistenceConfig
set_persistence_config vmi set config = record {
  enable_vmi_persistence = vmi;
  enable_stateful_set_persistence = set;
}
