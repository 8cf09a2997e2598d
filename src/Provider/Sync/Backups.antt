-- ===== src/Provider/Sync/Backups.antt =====
-- `Sync` of internal/provider/provider.go and `SyncBackup` of backup.go: which backups the Cluster that a run
-- has written lets start.
use provider_cloudnative_pg.Common.{String, Bool, none, [], ◌≡◌, ◌≢◌, ◌↔◌, ap, ◌∙◌}
use provider_cloudnative_pg.Cnpg.Types.{Cluster}
use provider_cloudnative_pg.Cnpg.Components.{CnpgCustomSpec}
use provider_cloudnative_pg.Cnpg.Quantities.{Quantities}
use provider_cloudnative_pg.Barman.ObjectStore.{backup_storages}
use provider_cloudnative_pg.Barman.ObjectStore.Infrastructure.{main_storage}
use provider_cloudnative_pg.Provider.Backup.{backup_storage_blocker}
use provider_cloudnative_pg.Provider.Backup.Laws.{backup_storage_blocker-main}
use provider_cloudnative_pg.Provider.Desired.Laws.{desired_spec-plugins}
use provider_cloudnative_pg.Provider.Sync.Applied.{Writes}
use provider_cloudnative_pg.Provider.Sync.{Client, Input, engine_of, sync}

-- On a Cluster with the specification that a run of `Sync` has written, nothing blocks a new backup exactly
-- when the Instance has backup storages and the backup names the first of them.
pub sync-backup_storage_blocker :
    (q : Quantities) (c : Client) (i : Input q.Quantity) (custom : CnpgCustomSpec) (done : Bool)
    (s reconciled : c.stores.State) (w : Writes q c i custom done reconciled (sync q c i s))
    (cluster : Cluster) (name : String)
    → cluster.spec ≡ w.spec
    → (backup_storage_blocker i.self cluster name ≡ none) ↔ (
        (backup_storages i.self.backup ≢ [])
        × (main_storage (backup_storages i.self.backup) ≡ name))
sync-backup_storage_blocker q c i custom done s reconciled w cluster name same =
    backup_storage_blocker-main c.stores i.self reconciled w.plugins cluster name
      (ap (λ r. r.0) w.archived)
      (ap (λ s. s.plugins) same
        ∙ desired_spec-plugins q w.runtime (engine_of i.components) custom w.images w.recovery
            w.plugins w.spec w.desired)
