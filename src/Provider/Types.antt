-- ===== src/Provider/Types.antt =====
-- The types of the provider runtime and of Kubernetes that the handlers of internal/provider build or
-- read, as far as they use their fields.
use provider_cloudnative_pg.Common.{String, Bool, Option, List}
use provider_cloudnative_pg.Common.Dict.{Dict}
use provider_cloudnative_pg.Common.Int.{ℤ}
use provider_cloudnative_pg.Cnpg.Types.{Opaque, Cluster}
use provider_cloudnative_pg.Cnpg.Status.{Message}
use provider_cloudnative_pg.Barman.Types.{BackupState}

pub record ObjectRef : Type 0 where
  pub group : String
  pub kind : String
  pub name : String

pub record BackupExecutionStatus : Type 0 where
  pub state : BackupState
  pub message : String
  pub operator_backup_ref : Option ObjectRef
  pub started_at : Option Opaque
  pub completed_at : Option Opaque

pub record RestoreExecutionStatus : Type 0 where
  pub state : BackupState
  pub message : Message
  pub operator_restore_ref : Option ObjectRef
  pub started_at : Option Opaque
  pub completed_at : Option Opaque

-- The methods of CloudNativePG's Cluster that the program calls.
pub record ClusterMethods : Type 0 where
  pub should_create_application_database : Cluster → Bool
  pub get_application_secret_name : Cluster → String
  pub get_application_database_name : Cluster → String
  pub get_enable_superuser_access : Cluster → Bool
  pub get_superuser_secret_name : Cluster → String
  pub get_service_read_write_name : Cluster → String
  pub get_service_read_name : Cluster → String
  pub get_service_read_only_name : Cluster → String
  pub is_read_service_enabled : Cluster → Bool
  pub is_read_only_service_enabled : Cluster → Bool
  pub is_initialized : Cluster → Bool

-- The phases that the program names, the failed one with the operator's text for it; any other
-- carries its text.
pub data PoolerPhase : Type 0 where
  active : PoolerPhase
  failed : String → PoolerPhase
  other_phase : String → PoolerPhase

pub record Pooler : Type 0 where
  pub name : String
  pub cluster : String
  pub kind : String
  pub instances : Option ℤ
  pub pool_mode : String
  pub parameters : Dict String
  pub labels : Dict String
  -- The resources of the container "pgbouncer", where the template has that container.
  pub container_resources : Option Opaque
  pub phase : PoolerPhase
  pub phase_reason : String

pub record Deployment : Type 0 where
  pub name : String
  pub namespace : String
  pub labels : Dict String
  pub ready_replicas : ℤ

pub record JobCondition : Type 0 where
  pub type_name : String
  pub status : String

pub record Job : Type 0 where
  pub name : String
  pub conditions : List JobCondition
