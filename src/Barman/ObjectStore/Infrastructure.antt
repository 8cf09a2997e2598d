-- ===== src/Barman/ObjectStore/Infrastructure.antt =====
-- What `SyncBackupInfrastructure` of internal/cnpg/barman/backup.go returns for the Cluster.
use provider_cloudnative_pg.Common.{String, List, [], ◌∷◌, ◌≡◌, refl, sym, Result, ok, err}
use provider_cloudnative_pg.Common.Dict.{lookup}
use provider_cloudnative_pg.Cnpg.Types.{PluginConfiguration}
use provider_cloudnative_pg.Barman.Types.{Instance, InstanceBackupStorage}
use provider_cloudnative_pg.Barman.Plugin.{archive_object_store_name}
use provider_cloudnative_pg.Barman.ObjectStore.{
  Client, Error, backup_storages, sync_storages, sync_enabled, sync_backup_infrastructure,
  plugins_for, with_plugins,
}

-- The storage that comes first, as the WAL archive; the empty text without one.
abbrev pub main_storage : List InstanceBackupStorage → String
main_storage [] = ""
main_storage (strg ∷ storages) = strg.storage_ref

plugins_for-archive : (main : String) → archive_object_store_name (plugins_for main) ≡ main
unfolding archive_object_store_name lookup
plugins_for-archive main = refl

archive-nil : archive_object_store_name [] ≡ ""
unfolding archive_object_store_name
archive-nil = refl

module _ (c : Client) where
  sync_enabled-archive :
      (self : Instance) (storages : List InstanceBackupStorage) (s : c.State)
      (plugins : List PluginConfiguration)
      → (sync_enabled c self storages s).0 ≡ ok plugins
      → archive_object_store_name plugins ≡ main_storage storages
  unfolding sync_enabled
  sync_enabled-archive self [] s plugins h =
      let same : [] ≡ plugins = cc in rw (sym same) archive-nil
  sync_enabled-archive self (strg ∷ storages) s plugins h =
      go (sync_storages c self (strg ∷ storages) s) h
    where
      go :
          (r : Result Error (Unit {0}) × c.State)
          → (with_plugins strg.storage_ref r).0 ≡ ok plugins
          → archive_object_store_name plugins ≡ strg.storage_ref
      go (err e, s') h' = cc
      go (ok _, s') h' =
          let same : plugins_for strg.storage_ref ≡ plugins = cc in
          rw (sym same) (plugins_for-archive strg.storage_ref)

  -- When the infrastructure of the backups is in place, the Cluster with the returned plugins archives
  -- to the first storage of the Instance, and without enabled backups to none.
  pub sync_backup_infrastructure-archive :
      (self : Instance) (s : c.State) (plugins : List PluginConfiguration)
      → (sync_backup_infrastructure c self s).0 ≡ ok plugins
      → archive_object_store_name plugins ≡ main_storage (backup_storages self.backup)
  unfolding sync_backup_infrastructure
  sync_backup_infrastructure-archive self s plugins h =
      sync_enabled-archive self (backup_storages self.backup) s plugins h
