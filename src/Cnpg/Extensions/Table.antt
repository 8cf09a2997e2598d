-- ===== src/Cnpg/Extensions/Table.antt =====
-- The table of first-class extensions of internal/cnpg/extensions.go, and which of them are on.
use provider_cloudnative_pg.Common.{
  String, ◌<>◌, Bool, false, not, ◌&&◌, ◌||◌, Option, none, some, List, [], ◌∷◌, is_empty, is_some,
  is_nil, filter,
}
use provider_cloudnative_pg.Common.Dict.{Dict}
use provider_cloudnative_pg.Common.Texts.{replace_all}
use provider_cloudnative_pg.Cnpg.Components.{CnpgCustomSpec, ExtensionsSpec, ExtensionToggle}

abbrev pub image_volume_postgres_major : String
image_volume_postgres_major = "18"

abbrev pub sql_version_annotation_prefix : String
sql_version_annotation_prefix = "sql-version.extensions.openeverest.io/"

abbrev pub postgres_superuser : String
postgres_superuser = "postgres"

pub record Extension : Type 0 where
  pub field : String
  pub toggle : ExtensionsSpec → Option ExtensionToggle
  pub catalog_entry : String
  pub sql_extension : String
  pub min_postgres_version : String
  pub preload_libraries : List String
  pub default_parameters : Dict String
  pub requires : List String
  pub conflicts : List String
  pub bootstrap_sql : Option (String → String)

unfoldable pub quote_identifier : String → String
unfolding replace_all
quote_identifier name = "\"" <> (replace_all b'"' "\"\"" name <> "\"")

-- The Go zero value, of which the entries below set the fields that the source sets.
abbrev blank : Extension
blank = record {
  field = "";
  toggle = λ e. none;
  catalog_entry = "";
  sql_extension = "";
  min_postgres_version = "";
  preload_libraries = [];
  default_parameters = [];
  requires = [];
  conflicts = [];
  bootstrap_sql = none;
}

abbrev timescaledb_parameters : Dict String
timescaledb_parameters =
    ("timescaledb.telemetry_level", "off") ∷ ("max_locks_per_transaction", "128") ∷ []

abbrev pub timescaledb : Extension
timescaledb = record blank {
  field = "timescaledb";
  toggle = λ e. e.timescaledb;
  catalog_entry = "timescaledb-oss";
  sql_extension = "timescaledb";
  preload_libraries = "timescaledb" ∷ [];
  conflicts = "timescaledbCommunity" ∷ [];
  default_parameters = timescaledb_parameters;
}

abbrev pub timescaledb_community : Extension
timescaledb_community = record blank {
  field = "timescaledbCommunity";
  toggle = λ e. e.timescaledb_community;
  catalog_entry = "timescaledb";
  sql_extension = "timescaledb";
  min_postgres_version = "18.6";
  preload_libraries = "timescaledb" ∷ [];
  conflicts = "timescaledb" ∷ [];
  default_parameters = timescaledb_parameters;
}

abbrev pub postgis : Extension
postgis = record blank {
  field = "postgis";
  toggle = λ e. e.postgis;
  catalog_entry = "postgis";
  sql_extension = "postgis";
}

abbrev pub pgrouting : Extension
pgrouting = record blank {
  field = "pgrouting";
  toggle = λ e. e.pgrouting;
  catalog_entry = "pgrouting";
  sql_extension = "pgrouting";
  requires = "postgis" ∷ [];
}

abbrev pub pgvector : Extension
pgvector = record blank { field = "pgvector"; toggle = λ e. e.pgvector; sql_extension = "vector" }

abbrev pub pgivm : Extension
pgivm = record blank {
  field = "pgivm";
  toggle = λ e. e.pgivm;
  catalog_entry = "pg-ivm";
  sql_extension = "pg_ivm";
  preload_libraries = "pg_ivm" ∷ [];
}

abbrev pub pgaudit : Extension
pgaudit = record blank {
  field = "pgaudit";
  toggle = λ e. e.pgaudit;
  default_parameters = ("pgaudit.log", "ddl, role") ∷ [];
}

abbrev pub wal2json : Extension
wal2json = record blank { field = "wal2json"; toggle = λ e. e.wal2json; catalog_entry = "wal2json" }

abbrev grant_usage : String → String
grant_usage owner =
    "ALTER DEFAULT PRIVILEGES FOR ROLE "
    <> (postgres_superuser <> (" GRANT USAGE ON SCHEMAS TO " <> quote_identifier owner))

abbrev pub age : Extension
age = record blank {
  field = "age";
  toggle = λ e. e.age;
  catalog_entry = "age";
  sql_extension = "age";
  preload_libraries = "age" ∷ [];
  bootstrap_sql = some grant_usage;
}

unfoldable pub first_class_extensions : List Extension
first_class_extensions =
    timescaledb ∷ timescaledb_community ∷ postgis ∷ pgrouting ∷ pgvector ∷ pgivm ∷ pgaudit
    ∷ wal2json ∷ age ∷ []

abbrev is_on : Option ExtensionToggle → Bool
is_on none = false
is_on (some t) = t.enabled

-- `none` is a nil custom spec.
unfoldable pub enabled : Extension → Option CnpgCustomSpec → Bool
enabled e none = false
enabled e (some custom) = elim custom.extensions [
  | none ↦ false
  | some spec ↦ is_on (e.toggle spec)
]

unfoldable pub creation_only : Extension → Bool
creation_only e =
    is_some e.bootstrap_sql || (not (is_empty e.catalog_entry) && not (is_nil e.preload_libraries))

unfoldable pub enabled_extensions : Option CnpgCustomSpec → List Extension
enabled_extensions custom = filter (λ e. enabled e custom) first_class_extensions

unfoldable pub created_extensions : Option CnpgCustomSpec → List Extension
created_extensions custom = filter (λ e. not (is_empty e.sql_extension)) (enabled_extensions custom)
