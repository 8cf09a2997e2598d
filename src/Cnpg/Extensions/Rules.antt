-- ===== src/Cnpg/Extensions/Rules.antt =====
-- The checks of internal/cnpg/extensions.go: on the spec alone, on the existing Cluster, and on the
-- existing Database. The two reads of the Kubernetes API are parameters.
pub mod Spec
pub mod Lifecycle
use provider_cloudnative_pg.Common.{
  String, ◌<>◌, Bool, true, false, not, ◌&&◌, ◌||◌, Option, List, ◌==◌, is_empty, any, Result, ok,
  err, ◌>>◌, reject, each, Got, found, not_found, failed, if◌then◌else◌,
}
use provider_cloudnative_pg.Cnpg.Types.{Cluster, Database}
use provider_cloudnative_pg.Cnpg.Components.{CnpgCustomSpec}
use provider_cloudnative_pg.Cnpg.Extensions.Table.{
  Extension, enabled, creation_only, enabled_extensions, first_class_extensions,
  image_volume_postgres_major,
}
use provider_cloudnative_pg.Cnpg.Extensions.Versions.{
  postgres_version, postgres_major, version_at_least,
}

-- One constructor for each error text of the three functions, with what the text shows.
pub data Error : Type 0 where
  requires_postgres_18 : String → String → Error
  requires_version : String → String → String → Error
  requires_extension : String → String → Error
  conflicting : String → String → Error
  only_at_creation : String → Error
  cannot_disable : String → Error
  get_failed : String → String → Error

abbrev pub has_field : String → List Extension → Bool
has_field field = any (λ e. e.field == field)

-- One round of the loop of `ValidateExtensions`.
unfoldable pub validate_extension :
    String → String → List Extension → Extension → Result Error (Unit {0})
validate_extension version major on ext = do
  reject (not (is_empty ext.catalog_entry) && not (major == image_volume_postgres_major))
      (requires_postgres_18 ext.field major)
  reject
      (not (is_empty ext.min_postgres_version)
        && not (version_at_least version ext.min_postgres_version))
      (requires_version ext.field ext.min_postgres_version version)
  each (λ r. reject (not (has_field r on)) (requires_extension ext.field r)) ext.requires
  each (λ c. reject (has_field c on) (conflicting ext.field c)) ext.conflicts

unfoldable pub validate_extensions :
    Option CnpgCustomSpec → String → String → Result Error (Unit {0})
unfolding validate_extension
validate_extensions custom engine_version instance_version =
    let version = postgres_version engine_version instance_version in
    let major = postgres_major engine_version instance_version in
    let on = enabled_extensions custom in each (validate_extension version major on) on

unfoldable pub validate_extensions_at_creation :
    (String → Got Cluster) → String → Option CnpgCustomSpec → Result Error (Unit {0})
validate_extensions_at_creation get_cluster name custom = elim (get_cluster name) [
  | not_found ↦ ok tt
  | failed e ↦ err (get_failed "get Cluster" e)
  | found pg ↦
      each
        (λ ext.
          reject
            (creation_only ext
              && not (any (λ c. c.name == ext.catalog_entry) pg.spec.postgresql.extensions))
            (only_at_creation ext.field))
        (enabled_extensions custom)
]

unfoldable pub extensions_database_name : String → String
extensions_database_name instance = instance <> "-extensions"

-- One round of the loop of `ValidateExtensionsNotDisabled`.
unfoldable pub validate_not_disabled_one :
    Database → Option CnpgCustomSpec → Extension → Result Error (Unit {0})
validate_not_disabled_one db custom ext =
    if is_empty ext.sql_extension || enabled ext custom
    then ok tt
    else if any (λ e. e.sql_extension == ext.sql_extension) (enabled_extensions custom)
    then ok tt
    else reject (any (λ s. s.name == ext.sql_extension) db.spec.extensions)
        (cannot_disable ext.field)

unfoldable pub validate_extensions_not_disabled :
    (String → Got Database) → String → Option CnpgCustomSpec → Result Error (Unit {0})
unfolding validate_not_disabled_one
validate_extensions_not_disabled get_database name custom =
    elim (get_database (extensions_database_name name)) [
      | not_found ↦ ok tt
      | failed e ↦ err (get_failed "get extensions Database" e)
      | found db ↦ each (validate_not_disabled_one db custom) first_class_extensions
    ]
