-- ===== src/Cnpg/Components.antt =====
-- definition/components/types.go: the parameters of the engine and the proxy components; and the
-- constants of internal/common.
use provider_cloudnative_pg.Common.{String, Bool, Option}
use provider_cloudnative_pg.Cnpg.Types.{
  Opaque, StorageConfiguration, AffinityConfiguration, PostgresConfiguration, ManagedConfiguration,
  BootstrapInitDb, CertificatesConfiguration, MonitoringConfiguration,
}

pub record ExtensionToggle : Type 0 where
  pub enabled : Bool

pub record ExtensionsSpec : Type 0 where
  pub timescaledb : Option ExtensionToggle
  pub timescaledb_community : Option ExtensionToggle
  pub pgvector : Option ExtensionToggle
  pub pgaudit : Option ExtensionToggle
  pub postgis : Option ExtensionToggle
  pub pgrouting : Option ExtensionToggle
  pub pgivm : Option ExtensionToggle
  pub wal2json : Option ExtensionToggle
  pub age : Option ExtensionToggle

pub record BootstrapConfiguration : Type 0 where
  pub init_db : Option BootstrapInitDb

pub record CnpgCustomSpec : Type 0 where
  pub priority_class_name : String
  pub require_tls : Option Bool
  pub wal_storage : Option StorageConfiguration
  pub resize_in_use_volumes : Option Bool
  pub pvc_template : Option Opaque
  pub affinity : Option AffinityConfiguration
  pub postgresql : Option PostgresConfiguration
  pub managed : Option ManagedConfiguration
  pub bootstrap : Option BootstrapConfiguration
  pub certificates : Option CertificatesConfiguration
  pub monitoring : Option MonitoringConfiguration
  pub extensions : Option ExtensionsSpec

pub record PgBouncerParameters : Type 0 where
  pub pool_mode : String

abbrev pub postgres_default_version : String
postgres_default_version = "18.6"

abbrev pub default_extension_catalog : String
default_extension_catalog = "provider-cloudnative-pg-extensions"

abbrev pub provider_name : String
provider_name = "provider-cloudnative-pg"

abbrev pub component_engine : String
component_engine = "engine"

abbrev pub component_proxy : String
component_proxy = "proxy"

abbrev pub component_type_pgbouncer : String
component_type_pgbouncer = "pgbouncer"
