-- ===== src/Cnpg/Extensions/Images.antt =====
-- The extension images of internal/cnpg/extensions.go: their lookup in the ClusterImageCatalog, and
-- the settings of the enabled extensions on the Cluster. The read of the catalog, and the catalog's
-- own lookup by PostgreSQL major, are parameters.
pub mod Defaults
pub mod Resolve
pub mod Applied
pub mod Apply
pub mod Keeps
use provider_cloudnative_pg.Common.{
  String, ◌<>◌, Bool, true, false, not, ◌&&◌, Option, none, some, List, [], ◌∷◌, ◌++◌, ◌==◌,
  is_empty, is_none, is_nil, any, find, filter, contains, Result, ok, err, ◌>>=◌, Got, found,
  not_found, failed, if◌then◌else◌,
}
use provider_cloudnative_pg.Common.Dict.{Dict, lookup, insert, value}
use provider_cloudnative_pg.Common.Int.{ℤ}
use provider_cloudnative_pg.Common.Texts.{atoi}
use provider_cloudnative_pg.Cnpg.Types.{
  Cluster, ClusterSpec, PostgresConfiguration, ExtensionConfiguration, BootstrapOptions,
  BootstrapInitDb,
}
use provider_cloudnative_pg.Cnpg.Components.{CnpgCustomSpec}
use provider_cloudnative_pg.Cnpg.Extensions.Table.{
  Extension, enabled_extensions, sql_version_annotation_prefix,
}
use provider_cloudnative_pg.Cnpg.Extensions.Versions.{postgres_major}

pub record ExtensionImage : Type 0 where
  pub config : ExtensionConfiguration
  pub sql_version : String

abbrev pub ExtensionImages : Type 0
ExtensionImages = Dict ExtensionImage

pub data Error : Type 0 where
  invalid_major : String → Error
  catalog_failed : String → String → Error
  no_entry : String → String → String → ℤ → Error

-- The ClusterImageCatalog: its annotations, and what `FindExtensionsForMajor` returns.
pub record Catalog : Type 0 where
  pub annotations : Dict String
  pub find_extensions_for_major : ℤ → List ExtensionConfiguration

abbrev pub not_found_text : String
not_found_text = "not found"

-- The loop of `ResolveExtensionImages` over the wanted extensions.
resolve_all :
    String → Catalog → String → ℤ → List Extension → ExtensionImages → Result Error ExtensionImages
resolve_all name catalog major number [] images = ok images
resolve_all name catalog major number (ext ∷ wanted) images =
    elim (find (λ e. e.name == ext.catalog_entry) (catalog.find_extensions_for_major number)) [
      | none ↦ err (no_entry ext.field name ext.catalog_entry number)
      | some config ↦ resolve_all name catalog major number wanted (
          insert ext.catalog_entry
            (record {
              config = config;
              sql_version =
                  value (sql_version_annotation_prefix <> (major <> ("." <> ext.catalog_entry)))
                    catalog.annotations;
            })
            images)
    ]

abbrev wanted_extensions : Option CnpgCustomSpec → List Extension
wanted_extensions custom = filter (λ e. not (is_empty e.catalog_entry)) (enabled_extensions custom)

-- From the test for an empty list on.
resolve_wanted :
    (String → Got Catalog) → String → String → List Extension → Result Error ExtensionImages
unfolding resolve_all
resolve_wanted get_catalog name major [] = ok []
resolve_wanted get_catalog name major (ext ∷ wanted) =
    let (number, parsed) = atoi major in
    if not parsed then err (invalid_major major) else elim (get_catalog name) [
      | not_found ↦ err (catalog_failed name not_found_text)
      | failed e ↦ err (catalog_failed name e)
      | found catalog ↦ resolve_all name catalog major number (ext ∷ wanted) []
    ]

unfoldable pub resolve_extension_images :
    (String → Got Catalog)
    → String
    → Option CnpgCustomSpec
    → String
    → String
    → Result Error ExtensionImages
unfolding resolve_wanted
resolve_extension_images get_catalog name custom engine_version instance_version =
    resolve_wanted get_catalog name (postgres_major engine_version instance_version)
      (wanted_extensions custom)

-- `applicationDatabaseIdentity`: CloudNativePG's defaults are parameters.
unfoldable pub application_database_identity :
    String → String → Option CnpgCustomSpec → String × String
application_database_identity default_database default_user none = (default_database, default_user)
application_database_identity default_database default_user (some custom) = elim custom.bootstrap [
  | none ↦ (default_database, default_user)
  | some bootstrap ↦ elim bootstrap.init_db [
    | none ↦ (default_database, default_user)
    | some init ↦ (
      if not (is_empty init.database) then init.database else default_database,
      if not (is_empty init.owner) then init.owner else default_user,
    )
  ]
]

-- `if !slices.Contains(xs, x) { xs = append(xs, x) }`
abbrev pub add_one : List String → String → List String
add_one xs y = if contains xs y then xs else xs ++ (y ∷ [])

unfoldable pub add_missing : List String → List String → List String
add_missing xs [] = xs
add_missing xs (y ∷ ys) = add_missing (add_one xs y) ys

-- `if _, set := m[name]; !set { m[name] = value }`
abbrev pub set_default : Dict String → String → String → Dict String
set_default m k v = if is_none (lookup k m) then insert k v m else m

unfoldable pub add_defaults : Dict String → Dict String → Dict String
add_defaults m [] = m
add_defaults m ((k, v) ∷ defaults) = add_defaults (set_default m k v) defaults

unfoldable pub add_image :
    ExtensionImages → String → List ExtensionConfiguration → List ExtensionConfiguration
add_image images entry extensions = elim (lookup entry images) [
  | none ↦ extensions
  | some image ↦
      if any (λ e. e.name == entry) extensions
      then extensions
      else extensions ++ (image.config ∷ [])
]

abbrev empty_init_db : BootstrapInitDb
empty_init_db = record { database = ""; owner = ""; secret = none; post_init_application_sql = [] }

abbrev pub init_db_of : Option BootstrapOptions → BootstrapInitDb
init_db_of none = empty_init_db
init_db_of (some b) = elim b.init_db [ none ↦ empty_init_db | some i ↦ i ]

unfoldable pub add_bootstrap_sql : String → Option BootstrapOptions → Option BootstrapOptions
unfolding add_missing
add_bootstrap_sql statement bootstrap =
    let init = init_db_of bootstrap in
    let init' = record init {
      post_init_application_sql = add_missing init.post_init_application_sql (statement ∷ []);
    } in
    elim bootstrap [
      | none ↦ some (record { init_db = some init'; recovery = none })
      | some b ↦ some (record b { init_db = some init' })
    ]

-- One round of the loop of `ApplyExtensions`, on the spec of the Cluster.
unfoldable pub apply_extension : String → ExtensionImages → Extension → ClusterSpec → ClusterSpec
unfolding add_missing add_defaults add_image add_bootstrap_sql
apply_extension owner images ext spec =
    let cfg = spec.postgresql in
    record spec {
      postgresql = record cfg {
        extensions = add_image images ext.catalog_entry cfg.extensions;
        additional_libraries = add_missing cfg.additional_libraries ext.preload_libraries;
        parameters = add_defaults cfg.parameters ext.default_parameters;
      };
      bootstrap = elim ext.bootstrap_sql [
        | none ↦ spec.bootstrap
        | some sql ↦ add_bootstrap_sql (sql owner) spec.bootstrap
      ];
    }

unfoldable pub apply_all : String → ExtensionImages → List Extension → ClusterSpec → ClusterSpec
apply_all owner images [] spec = spec
apply_all owner images (ext ∷ exts) spec =
    apply_all owner images exts (apply_extension owner images ext spec)

unfoldable pub apply_extensions :
    String → String → Option CnpgCustomSpec → ExtensionImages → ClusterSpec → ClusterSpec
unfolding apply_all apply_extension
apply_extensions default_database default_user custom images spec =
    apply_all (application_database_identity default_database default_user custom).1 images
      (enabled_extensions custom) spec
