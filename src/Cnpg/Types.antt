-- ===== src/Cnpg/Types.antt =====
-- The CloudNativePG resources, as far as the program reads or writes their fields.
use provider_cloudnative_pg.Common.{String, Bool, Option, List}
use provider_cloudnative_pg.Common.Dict.{Dict}
use provider_cloudnative_pg.Common.Int.{ℤ}

-- A value that the program passes on unread, as its serialised text.
abbrev pub Opaque : Type 0
Opaque = String

pub record ExtensionConfiguration : Type 0 where
  pub name : String
  pub image : Opaque

pub record Synchronous : Type 0 where
  pub number : ℤ
  pub standby_names_pre : List String
  pub standby_names_post : List String

pub record PostgresConfiguration : Type 0 where
  pub parameters : Dict String
  pub pg_hba : List String
  pub additional_libraries : List String
  pub extensions : List ExtensionConfiguration
  pub synchronous : Option Synchronous

pub record BootstrapInitDb : Type 0 where
  pub database : String
  pub owner : String
  -- The name in the Secret reference.
  pub secret : Option String
  pub post_init_application_sql : List String

pub record CertificatesConfiguration : Type 0 where
  pub server_ca_secret : String
  pub server_tls_secret : String
  pub client_ca_secret : String
  pub replication_tls_secret : String
  pub server_alt_dns_names : List String

pub record StorageConfiguration : Type 0 where
  pub size : String
  pub storage_class : Option String
  pub resize_in_use_volumes : Option Bool
  pub pvc_template : Option Opaque

pub record AffinityConfiguration : Type 0 where
  pub enable_pod_anti_affinity : Option Bool
  pub node_selector : Dict String
  pub tolerations : List Opaque
  pub node_affinity : Option Opaque
  pub additional_pod_affinity : Option Opaque
  pub additional_pod_anti_affinity : Option Opaque

pub record ManagedConfiguration : Type 0 where
  -- The names of the configured roles.
  pub roles : List String
  pub services : Opaque

pub record MonitoringConfiguration : Type 0 where
  pub enable_pod_monitor : Bool
  pub custom_queries : Opaque

pub record RecoveryTarget : Type 0 where
  pub backup_id : String
  pub target_time : String
  pub target_immediate : Option Bool

pub record BootstrapRecovery : Type 0 where
  pub source : String
  pub recovery_target : Option RecoveryTarget
  pub database : String
  pub owner : String
  pub secret : Option String

pub record BootstrapOptions : Type 0 where
  pub init_db : Option BootstrapInitDb
  pub recovery : Option BootstrapRecovery

pub record PluginConfiguration : Type 0 where
  pub name : String
  pub enabled : Option Bool
  pub is_wal_archiver : Option Bool
  pub parameters : Dict String

pub record ExternalCluster : Type 0 where
  pub name : String
  pub plugin : PluginConfiguration

pub record ResourceAmounts : Type 0 where
  pub cpu : Opaque
  pub memory : Opaque

pub record ClusterSpec : Type 0 where
  pub instances : ℤ
  pub image_name : String
  pub image_pull_policy : String
  pub priority_class_name : String
  pub scheduler_name : String
  pub storage : StorageConfiguration
  pub wal_storage : Option StorageConfiguration
  pub requests : ResourceAmounts
  pub limits : ResourceAmounts
  pub affinity : AffinityConfiguration
  pub topology_spread_constraints : List Opaque
  pub postgresql : PostgresConfiguration
  pub bootstrap : Option BootstrapOptions
  pub certificates : Option CertificatesConfiguration
  pub monitoring : Option MonitoringConfiguration
  pub managed : Option ManagedConfiguration
  pub inherited_labels : Dict String
  pub plugins : List PluginConfiguration
  pub external_clusters : List ExternalCluster

-- The phases that the program names; any other carries its text.
pub data ClusterPhase : Type 0 where
  unrecoverable failure_plugin unknown_plugin cannot_create_cluster_objects : ClusterPhase
  image_catalog_error architecture_binary_missing definition_invalid : ClusterPhase
  other_phase : String → ClusterPhase

pub record Condition : Type 0 where
  pub type_name : String
  pub status : String
  pub reason : String
  pub message : String
  pub last_transition_time : Opaque

pub record ManagedRoles : Type 0 where
  -- The errors of each role that cannot be reconciled, in the order of iteration.
  pub cannot_reconcile : List (String × List String)
  -- The roles with status "reconciled".
  pub reconciled : List String

pub record ClusterStatus : Type 0 where
  pub phase : ClusterPhase
  pub phase_reason : String
  pub conditions : List Condition
  pub instances : ℤ
  pub ready_instances : ℤ
  pub current_primary : String
  pub managed_roles : ManagedRoles

pub record Cluster : Type 0 where
  pub name : String
  pub creation_timestamp : Opaque
  pub spec : ClusterSpec
  pub status : ClusterStatus

-- One entry of `Database.spec.extensions`.
pub record ExtensionSpec : Type 0 where
  pub name : String
  pub ensure : String
  pub version : String

pub record DatabaseSpec : Type 0 where
  pub name : String
  pub owner : String
  pub cluster : String
  pub reclaim_policy : String
  pub extensions : List ExtensionSpec

pub record DatabaseObjectStatus : Type 0 where
  pub name : String
  pub applied : Bool
  pub message : String

pub record DatabaseStatus : Type 0 where
  pub observed_generation : ℤ
  pub applied : Option Bool
  pub message : String
  pub extensions : List DatabaseObjectStatus

pub record Database : Type 0 where
  pub generation : ℤ
  pub spec : DatabaseSpec
  pub status : DatabaseStatus
