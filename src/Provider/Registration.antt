-- ===== src/Provider/Registration.antt =====
-- What internal/provider registers with the runtime: `New` of provider.go, the watches, and the handlers
-- that have nothing to do. The schemes are no part of it: they only name the types.
use provider_cloudnative_pg.Common.{
  String, Bool, true, List, [], ◌∷◌, is_empty, Result, ok, if◌then◌else◌,
}
use provider_cloudnative_pg.Cnpg.Components.{default_extension_catalog, provider_name}
use provider_cloudnative_pg.Provider.Types.{Deployment}
use provider_cloudnative_pg.Provider.Pooler.{instance_of_pooler_deployment}

-- The types of the objects that the provider watches.
pub data Kind : Type 0 where
  cluster database pooler deployment object_store scheduled_backup backup job : Kind

-- A change of an object that is owned reconciles its owner; one of a Deployment of others reconciles the
-- Instances that the function names, by namespace and name.
pub data WatchConfig : Type 0 where
  watch_owned : Kind → WatchConfig
  watch_external : Kind → (Deployment → List (String × String)) → WatchConfig

pub record Provider : Type 0 where
  pub extension_catalog : String
  pub provider_name : String
  pub watch_configs : List WatchConfig

-- `New`, with the value of the environment variable EXTENSION_CATALOG.
unfoldable pub new : String → Provider
unfolding instance_of_pooler_deployment
new catalog = record {
  extension_catalog = if is_empty catalog then default_extension_catalog else catalog;
  provider_name = provider_name;
  watch_configs =
      watch_owned cluster
      ∷ watch_owned database
      ∷ watch_owned pooler
      ∷ watch_external deployment instance_of_pooler_deployment
      ∷ watch_owned object_store
      ∷ watch_owned scheduled_backup
      ∷ [];
}

unfoldable pub backup_watches : List WatchConfig
backup_watches = watch_owned backup ∷ watch_owned job ∷ []

unfoldable pub restore_watches : List WatchConfig
restore_watches = []

-- The type of the objects that `Mirror` reads.
unfoldable pub operator_backup_type : Kind
operator_backup_type = backup

-- The objects that `Sync` makes go with their owner.
unfoldable pub cleanup : {E S : Type 0} → S → Result E (Unit {0}) × S
cleanup s = (ok tt, s)

unfoldable pub cleanup_restore : {E S : Type 0} → S → Result E Bool × S
cleanup_restore s = (ok true, s)
