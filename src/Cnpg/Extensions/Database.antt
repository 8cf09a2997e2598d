-- ===== src/Cnpg/Extensions/Database.antt =====
-- The Database resource of internal/cnpg/extensions.go that installs the SQL extensions, and its
-- part in the readiness of the Instance. The runtime's read and write are parameters.
pub mod Laws
pub mod Unready
use provider_cloudnative_pg.Common.{
  String, ◌<>◌, Bool, true, false, not, ◌&&◌, Option, none, some, List, [], ◌∷◌, ◌==◌, is_empty,
  Result, ok, err, Got, found, not_found, failed, if◌then◌else◌, map,
}
use provider_cloudnative_pg.Common.Dict.{lookup}
use provider_cloudnative_pg.Common.Int.{eqb_ℤ}
use provider_cloudnative_pg.Cnpg.Types.{Database, DatabaseSpec, DatabaseObjectStatus, ExtensionSpec}
use provider_cloudnative_pg.Cnpg.Components.{CnpgCustomSpec}
use provider_cloudnative_pg.Cnpg.Status.{Status, provisioning, text}
use provider_cloudnative_pg.Cnpg.Extensions.Table.{Extension, created_extensions}
use provider_cloudnative_pg.Cnpg.Extensions.Rules.{extensions_database_name}
use provider_cloudnative_pg.Cnpg.Extensions.Images.{
  ExtensionImage, ExtensionImages, application_database_identity,
}

abbrev sql_version_of : Option ExtensionImage → String
sql_version_of none = ""
sql_version_of (some image) = image.sql_version

unfoldable pub extension_spec : ExtensionImages → Extension → ExtensionSpec
extension_spec images ext = record {
  name = ext.sql_extension;
  ensure = "present";
  version = sql_version_of (lookup ext.catalog_entry images);
}

-- From the test for an empty list on; `none` is the nil Database.
database_of : String × String → String → ExtensionImages → List Extension → Option DatabaseSpec
database_of identity cluster images [] = none
database_of (database, owner) cluster images (ext ∷ exts) = some (record {
  name = database;
  owner = owner;
  cluster = cluster;
  reclaim_policy = "retain";
  extensions = map (extension_spec images) (ext ∷ exts);
})

unfoldable pub build_extensions_database :
    String → String → String → Option CnpgCustomSpec → ExtensionImages → Option DatabaseSpec
unfolding database_of extension_spec
build_extensions_database default_database default_user cluster custom images =
    database_of (application_database_identity default_database default_user custom) cluster images
      (created_extensions custom)

-- `SyncExtensionsDatabase`: `apply` writes a Database under a name; it returns an error or none, and the
-- new state.
unfoldable pub sync_extensions_database :
    {S : Type 0}
    → (String → DatabaseSpec → S → Option String × S)
    → String
    → String
    → String
    → Option CnpgCustomSpec
    → ExtensionImages
    → S
    → Option String × S
sync_extensions_database apply default_database default_user instance custom images s =
    elim (build_extensions_database default_database default_user instance custom images) [
      | none ↦ (none, s)
      | some db ↦ apply (extensions_database_name instance) db s
    ]

-- The two nested loops at the end of `ExtensionsStatus`.
unfoldable pub pending_one : Extension → List DatabaseObjectStatus → Option Status
pending_one ext [] = none
pending_one ext (s ∷ statuses) =
    if s.name == ext.sql_extension && not s.applied
    then some (
        provisioning (
          text (
            if is_empty s.message
            then "waiting for extension " <> (ext.sql_extension <> " to be created")
            else s.message)))
    else pending_one ext statuses

unfoldable pub first_pending : List Extension → List DatabaseObjectStatus → Option Status
unfolding pending_one
first_pending [] statuses = none
first_pending (ext ∷ exts) statuses =
    let rest = first_pending exts statuses in
    elim (pending_one ext statuses) [ none ↦ rest | some status ↦ some status ]

abbrev is_applied : Option Bool → Bool
is_applied none = false
is_applied (some b) = b

-- The part of `ExtensionsStatus` after the Database is read.
unfoldable pub database_status : Database → List Extension → Option Status
unfolding first_pending
database_status db created =
    if not (eqb_ℤ db.status.observed_generation db.generation)
    then some (provisioning (text "waiting for the extensions Database to be reconciled"))
    else if not (is_applied db.status.applied)
    then some (
        provisioning (
          text (
            if is_empty db.status.message
            then "waiting for the extensions Database to be applied"
            else db.status.message)))
    else first_pending created db.status.extensions

status_of : (String → Got Database) → String → List Extension → Option Status
unfolding database_status
status_of get_database instance [] = none
status_of get_database instance (ext ∷ exts) =
    elim (get_database (extensions_database_name instance)) [
      | not_found ↦ some (provisioning (text "waiting for the extensions Database resource"))
      | failed e ↦ some (provisioning (text ("waiting to get the extensions Database: " <> e)))
      | found db ↦ database_status db (ext ∷ exts)
    ]

-- `none` is the second result false; a status comes with true.
unfoldable pub extensions_status :
    (String → Got Database) → String → Option CnpgCustomSpec → Option Status
unfolding status_of
extensions_status get_database instance custom =
    status_of get_database instance (created_extensions custom)
