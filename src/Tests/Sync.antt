-- ===== src/Tests/Sync.antt =====
-- The theorems on `Sync` of internal/provider/provider.go, applied to a concrete API and Instance.
use provider_cloudnative_pg.Common.{
  String, Bool, true, false, Option, none, some, List, [], ◌∷◌, ◌==◌, ◌≡◌, refl, ◌≢◌, ◌↔◌, contains,
  Result, ok, err, if◌then◌else◌,
}
use provider_cloudnative_pg.Common.Int.{ℤ, pos}
use provider_cloudnative_pg.Cnpg.Tls.{access}
use provider_cloudnative_pg.Cnpg.Components.{CnpgCustomSpec}
use provider_cloudnative_pg.Barman.Types.{ScheduledBackup}
use provider_cloudnative_pg.Barman.Schedule.{build_scheduled_backups, scheduled_backup_name}
use provider_cloudnative_pg.Barman.Schedule.Sync.{names_of}
use provider_cloudnative_pg.Barman.Schedule.Refines.{last_named}
use provider_cloudnative_pg.Provider.Validation.{zero_custom}
use provider_cloudnative_pg.Provider.Desired.{or_keep, empty_postgres}
use provider_cloudnative_pg.Provider.Sync.{
  Client, Input, Error, sync, schedule_client, engine_of, custom_of,
}
use provider_cloudnative_pg.Provider.Sync.Ends.{sync-refines}
use provider_cloudnative_pg.Provider.Sync.Guarded.{Keeps, sync-keeps}
use provider_cloudnative_pg.Provider.Sync.Errors.{sync_early_error}
use provider_cloudnative_pg.Provider.Sync.Applied.{Writes, sync-Writes, sync-access}
use provider_cloudnative_pg.Provider.Sync.Poolers.{IsWanted, sync-IsWanted}
use provider_cloudnative_pg.Provider.Sync.Monitors.{IsMonitored, sync-IsMonitored}
use provider_cloudnative_pg.Provider.Sync.Backups.{sync-backup_storage_blocker}
use provider_cloudnative_pg.Provider.Backup.{backup_storage_blocker}
use provider_cloudnative_pg.Barman.ObjectStore.{backup_storages}
use provider_cloudnative_pg.Barman.ObjectStore.Infrastructure.{main_storage}
use provider_cloudnative_pg.Cnpg.Types.{Cluster}
use provider_cloudnative_pg.Provider.Sync.Safe.{IsCalm, validate-sync-IsCalm}
use provider_cloudnative_pg.Tests.Provider
use provider_cloudnative_pg.Tests.Data.{
  free_names, engine, cluster, milli, instance, unmarshal, names_client,
}
use provider_cloudnative_pg.Tests.Api.{
  pooler_client, pooler_client-HoldsPooler, client, input, wanted, backups_client,
  backups_client-IsStore, content, monitor_client, monitor_client-HoldsMonitor,
}

wanted_built : build_scheduled_backups unmarshal instance.name instance.backup ≡ ok wanted
unfolding build_scheduled_backups provider_cloudnative_pg.Barman.Schedule.to_cnpg_schedule
    provider_cloudnative_pg.Barman.Schedule.decode_backup_parameters scheduled_backup_name
    provider_cloudnative_pg.Common.Texts.join
    provider_cloudnative_pg.Barman.Plugin.plugin_configuration
wanted_built = refl

abbrev old : ScheduledBackup
old = record {
  name = "old";
  schedule = "0 0 1 * * *";
  cluster = "db";
  backup_owner_reference = "none";
  method = "plugin";
  plugin = record { name = "barman-cloud.cloudnative-pg.io"; parameters = [] };
  target = "";
}

-- The parameters of an engine that requires TLS.
abbrev tls_custom : CnpgCustomSpec
tls_custom = record zero_custom { require_tls = some true }

abbrev tls_input : Input ℤ
tls_input = record input { try_decode = λ c. true; decode_custom = λ c. ok tls_custom }

abbrev bad_input : Input ℤ
bad_input = record input { try_decode = λ c. true; decode_custom = λ c. err "unknown field" }

-- An API that refuses the Cluster.
abbrev refusing : Client
refusing = record (client names_client) { apply_cluster = λ n spec s. (err "conflict", s) }

-- An Instance with a proxy.
abbrev proxied : Input ℤ
proxied = record input {
  components =
      ("engine", engine)
      ∷ ("proxy", record engine { kind = "pgbouncer"; replicas = some (pos 2); storage = none })
      ∷ [];
}

-- An Instance with Prometheus turned on.
abbrev monitored : Input ℤ
monitored = record input {
  topology = some "{}";
  decode_topology = λ raw. ok (record {
    monitoring = some (some (record { enabled = true; pod_monitor_labels = ("team", "db") ∷ [] }));
  });
}

abbrev bad : Error
bad = Error.bad_custom_spec "unknown field"

runs :
    ((sync milli (client names_client) input ("old" ∷ [])).0 ≡ ok tt)
    × ((sync milli (client backups_client) input (old ∷ [])).0 ≡ ok tt)
    × ((sync milli (client names_client) tls_input ("old" ∷ [])).0 ≡ ok tt)
    × ((sync milli (client names_client) bad_input ("old" ∷ [])).0 ≡ err bad)
    × ((sync milli pooler_client proxied none).0 ≡ ok tt)
    × ((sync milli refusing input ("old" ∷ [])).0 ≡ err (Error.apply_failed "conflict"))
    × ((sync milli monitor_client monitored none).0 ≡ ok tt)
unfolding sync provider_cloudnative_pg.Provider.Sync.chain
    provider_cloudnative_pg.Provider.Sync.check
    provider_cloudnative_pg.Provider.Desired.build_cluster_spec
    provider_cloudnative_pg.Common.Dict.lookup
    provider_cloudnative_pg.Cnpg.Extensions.Images.resolve_extension_images
    provider_cloudnative_pg.Cnpg.Extensions.Table.enabled_extensions
    provider_cloudnative_pg.Cnpg.Extensions.Table.first_class_extensions
    provider_cloudnative_pg.Cnpg.Extensions.Table.enabled
    provider_cloudnative_pg.Cnpg.Extensions.Table.created_extensions
    provider_cloudnative_pg.Barman.ObjectStore.sync_backup_infrastructure
    provider_cloudnative_pg.Barman.ObjectStore.prepare
    provider_cloudnative_pg.Barman.Schedule.storage_retention_policy
    provider_cloudnative_pg.Barman.Schedule.schedule_duration
    provider_cloudnative_pg.Provider.PodMonitor.sync_pod_monitor
    provider_cloudnative_pg.Provider.Pooler.sync_pooler
    provider_cloudnative_pg.Cnpg.Extensions.Database.sync_extensions_database
    provider_cloudnative_pg.Cnpg.Extensions.Database.build_extensions_database
    provider_cloudnative_pg.Barman.Schedule.Sync.sync_scheduled_backups
    provider_cloudnative_pg.Barman.Schedule.to_cnpg_schedule
    provider_cloudnative_pg.Barman.Schedule.decode_backup_parameters build_scheduled_backups
    scheduled_backup_name
runs = (refl, refl, refl, refl, refl, refl, refl)

sync-refines_example :
    content (sync milli (client backups_client) input (old ∷ [])).1 "db-daily"
    ≡ last_named "db-daily" wanted
sync-refines_example =
    sync-refines milli (client backups_client) input wanted wanted_built backups_client-IsStore
      (old ∷ []) (old ∷ []) refl runs.1 "db-daily"

sync_early_error_example :
    (sync milli (client names_client) bad_input ("old" ∷ [])).1 ≡ ("old" ∷ [])
sync_early_error_example =
    sync_early_error milli (client names_client) bad_input ("old" ∷ []) bad refl runs.3

-- An API that is still restoring.
abbrev restoring : Client
restoring = record (client names_client) { reconcile_data_source = λ s. (ok false, s) }

abbrev HasOld : List String → Type 0
HasOld s = contains s "old" ≡ true

abbrev keeps_old : Keeps restoring HasOld
keeps_old = record {
  store = λ o s h. h;
  cluster = λ n spec s h. h;
  monitor = λ m s h. h;
  no_monitor = λ n s h. h;
  pooler = λ p s h. h;
  no_pooler = λ n s h. h;
}

sync-keeps_example : contains (sync milli restoring input ("old" ∷ [])).1 "old" ≡ true
sync-keeps_example =
    sync-keeps restoring HasOld keeps_old milli input ("old" ∷ []) ("old" ∷ []) refl refl

abbrev api : Client
api = client names_client

abbrev decide : String → Bool → Option Bool
decide rule tls =
    if rule == "hostnossl all all all reject" then (if tls then none else some false) else none

sync-access_example :
    (done : Bool) × (reconciled : List String) × (w : Writes milli api tls_input tls_custom done
      reconciled
      (sync milli api tls_input ("old" ∷ [])))
    × (access (λ tls. tls) decide w.spec.postgresql.pg_hba false ≡ some false)
sync-access_example =
    sync-access milli api tls_input (λ tls. tls) decide false tls_custom ("old" ∷ []) refl refl refl
      runs.2

-- What the run has done, and a Cluster with the specification that it wrote.
done_by :
    (done : Bool) × (reconciled : List String) × (custom : CnpgCustomSpec)
    × (api.reconcile_data_source ("old" ∷ []) ≡ (ok done, reconciled))
    × (custom_of milli api input (engine_of input.components) ≡ ok custom)
    × Writes milli api input custom done reconciled (sync milli api input ("old" ∷ []))
done_by = sync-Writes milli api input ("old" ∷ []) runs.0

abbrev stored : Cluster
stored = record cluster { spec = done_by.5.spec }

sync-backup_storage_blocker_example : (backup_storage_blocker instance stored "main" ≡ none) ↔ (
    (backup_storages instance.backup ≢ [])
    × (main_storage (backup_storages instance.backup) ≡ "main"))
sync-backup_storage_blocker_example =
    sync-backup_storage_blocker milli api input done_by.2 done_by.0 ("old" ∷ []) done_by.1 done_by.5
      stored "main" refl

validate-sync-IsCalm_example : IsCalm (Error.apply_failed "conflict")
validate-sync-IsCalm_example =
    validate-sync-IsCalm milli free_names refusing input Provider.input ("old" ∷ [])
      (Error.apply_failed "conflict") refl refl Provider.input_valid runs.5

sync-IsMonitored_example :
    IsMonitored milli monitor_client monitored (sync milli monitor_client monitored none).1
sync-IsMonitored_example =
    sync-IsMonitored milli monitor_client monitored monitor_client-HoldsMonitor none runs.6

sync-IsWanted_example :
    IsWanted milli pooler_client proxied false (sync milli pooler_client proxied none).1
sync-IsWanted_example =
    sync-IsWanted milli pooler_client proxied pooler_client-HoldsPooler zero_custom none refl runs.4
