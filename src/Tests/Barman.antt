-- ===== src/Tests/Barman.antt =====
-- The theorems on internal/cnpg/barman, applied to concrete inputs.
use provider_cloudnative_pg.Common.{
  String, ◌<>◌, len, ◌≤◌, ◌<◌, Bool, true, false, Option, none, some, List, [], ◌∷◌, ◌≡◌, ◌≢◌, refl,
  ◌↔◌, ◌⊎◌, inl, inr, In, subst, text_cases, eq_iff, ◌==◌, All, contains, map, Result, ok, err, Got,
  found, not_found,
}
use provider_cloudnative_pg.Barman.Types.{
  BackupSchedule, DataSource, Instance, InstanceBackupStorage, ObjectStore, ScheduledBackup,
  point_in_time, time,
}
use provider_cloudnative_pg.Barman.Plugin.{archive_object_store_name}
use provider_cloudnative_pg.Barman.Schedule.{
  scheduled_backup_name, schedule_duration, storage_retention_policy, validate_schedules,
  build_scheduled_backups,
}
use provider_cloudnative_pg.Barman.Schedule.Names.{len-scheduled_backup_name}
use provider_cloudnative_pg.Barman.Schedule.Retained.{storage_retention_policy_iff}
use provider_cloudnative_pg.Barman.Schedule.Build.{build_scheduled_backups_total, all_schedules}
use provider_cloudnative_pg.Barman.ObjectStore.{check_shared_retention, sync_backup_infrastructure}
use provider_cloudnative_pg.Barman.ObjectStore.Stable.{
  IsShared, no_run, then_run, by_owner, by_peer, sync_backup_infrastructure-keeps_policy,
}
use provider_cloudnative_pg.Barman.ObjectStore.Shared.{
  check_shared_retention_iff, PeerAgrees, Keeps,
}
use provider_cloudnative_pg.Barman.Restore
use provider_cloudnative_pg.Barman.Restore.{Origin, panics, build_recovery_config, backup_origin}
use provider_cloudnative_pg.Barman.Restore.Recovery.{
  build_recovery_config-never_panics, backup_origin-Restorable, Restorable,
}
use provider_cloudnative_pg.Tests.Data.{
  daily, free_names, unmarshal, main_storage, backup_spec, instance, backup, cnpg_backup, custom,
  stores,
}

len-scheduled_backup_name_example :
    (len (scheduled_backup_name "db" "daily") ≤ 63)
    × ((scheduled_backup_name "db" "daily" ≡ "db" <> ("-" <> "daily"))
        ⊎ (63 < len ("db" <> ("-" <> "daily"))))
len-scheduled_backup_name_example = len-scheduled_backup_name "db" "daily"

abbrev seven : String
seven = "7d"

storage_retention_policy_iff_example : (storage_retention_policy main_storage ≡ ok "7d") ↔ (
    All (λ s. schedule_duration s ≡ ok "7d") main_storage.schedules
    × (main_storage.schedules ≡ [] → seven ≡ ""))
storage_retention_policy_iff_example = storage_retention_policy_iff main_storage "7d"

schedules_valid : validate_schedules unmarshal free_names (some backup_spec) ≡ ok tt
unfolding validate_schedules storage_retention_policy schedule_duration
    provider_cloudnative_pg.Barman.Schedule.to_cnpg_schedule
    provider_cloudnative_pg.Barman.Schedule.decode_backup_parameters
schedules_valid = refl

build_scheduled_backups_total_example :
    (sbs : List ScheduledBackup) × (build_scheduled_backups unmarshal "db" (some backup_spec)
      ≡ ok sbs)
    × (map (λ (sb : ScheduledBackup). sb.name) sbs
        ≡ map
            (λ (s : BackupSchedule). scheduled_backup_name "db" s.name)
            (all_schedules backup_spec.storages))
build_scheduled_backups_total_example =
    build_scheduled_backups_total unmarshal free_names "db" backup_spec schedules_valid refl

abbrev desired : List ScheduledBackup
desired =
    (record {
      name = "db-daily";
      schedule = "0 0 2 * * *";
      cluster = "db";
      backup_owner_reference = "none";
      method = "plugin";
      plugin = record {
        name = "barman-cloud.cloudnative-pg.io";
        parameters = ("barmanObjectName", "main") ∷ [];
      };
      target = "";
    })
    ∷ []

desired_built : build_scheduled_backups unmarshal "db" (some backup_spec) ≡ ok desired
unfolding build_scheduled_backups provider_cloudnative_pg.Barman.Schedule.to_cnpg_schedule
    provider_cloudnative_pg.Barman.Schedule.decode_backup_parameters scheduled_backup_name
    provider_cloudnative_pg.Common.Texts.join
    provider_cloudnative_pg.Barman.Plugin.plugin_configuration
desired_built = refl

check_shared_retention_iff_example :
    (check_shared_retention stores [] instance "main" "7d" ≡ ok tt) ↔ (
      All (PeerAgrees instance "main" "7d") (instance ∷ [])
      ⊎ Keeps (stores.get_object_store [] "main") "7d")
check_shared_retention_iff_example =
    check_shared_retention_iff stores [] instance "main" "7d" (instance ∷ []) refl

-- A second Instance that names the same storage and keeps its backups longer.
abbrev monthly : BackupSchedule
monthly = record daily { retention = some (record { kind = time; duration = "30d" }) }

abbrev peer : Instance
peer = record instance {
  name = "db2";
  backup =
      some
        (record backup_spec { storages = (record main_storage { schedules = monthly ∷ [] }) ∷ [] });
}

found_again :
    (o store : ObjectStore) (s : List ObjectStore)
    → stores.get_object_store (o ∷ s) "main" ≡ found store
    → (stores.get_object_store s "main" ≡ found store) ⊎ ((o.name ≡ "main") × (store ≡ o))
found_again o store s h = elim (text_cases o.name "main") [
  | inl same ↦ inr (same, cc (rw ((eq_iff o.name "main").1 same, stores) at h))
  | inr other ↦ inl (rw (other, stores) at h)
]

only_instance :
    (instances : List Instance)
    → Path (Result String (List Instance)) (ok (instance ∷ [])) (ok instances)
    → In instance instances
only_instance instances e =
    let same : (instance ∷ []) ≡ instances = cc e in subst (In instance) same (inl refl)

main_policy : storage_retention_policy main_storage ≡ ok "7d"
unfolding storage_retention_policy schedule_duration
main_policy = refl

only_main :
    (strg : InstanceBackupStorage) (retention : String)
    → In strg (main_storage ∷ [])
    → storage_retention_policy strg ≡ ok retention
    → retention ≡ "7d"
only_main strg retention (inl e) h =
    let there = subst (λ x. storage_retention_policy x ≡ ok retention) e h in
    cc (there, main_policy)
only_main strg retention (inr none_there) h = absurd none_there

abbrev shared : IsShared stores instance "main" "7d"
shared = record {
  listed = λ s instances e. only_instance instances e;
  read_back = λ o store s h. found_again o store s h;
  claim = main_storage;
  claimed = inl refl;
  claim_names = refl;
  claim_policy = main_policy;
  only = λ strg retention there named h. only_main strg retention there h;
}

abbrev kept_store : ObjectStore
kept_store = record {
  name = "main";
  endpoint_url = "http://s3";
  endpoint_ca = none;
  destination_path = "s3://bucket/";
  access_key_id = some (record { name = "keys"; key = "AWS_ACCESS_KEY_ID" });
  secret_access_key = some (record { name = "keys"; key = "AWS_SECRET_ACCESS_KEY" });
  region = none;
  wal_compression = "gzip";
  retention_policy = "7d";
}

abbrev twice_run : List ObjectStore
twice_run =
    (sync_backup_infrastructure stores peer (sync_backup_infrastructure stores instance []).1).1

kept : stores.get_object_store twice_run "main" ≡ found kept_store
unfolding sync_backup_infrastructure provider_cloudnative_pg.Barman.ObjectStore.prepare
    provider_cloudnative_pg.Barman.ObjectStore.build_object_store storage_retention_policy
    schedule_duration
kept = refl

sync_backup_infrastructure-keeps_policy_example : kept_store.retention_policy ≡ "7d"
sync_backup_infrastructure-keeps_policy_example =
    sync_backup_infrastructure-keeps_policy stores instance "main" "7d" shared kept_store
      (then_run (then_run no_run (by_owner [])) (by_peer peer _ refl refl)) (λ store e. cc e) kept

abbrev source : DataSource
source = record {
  kind = point_in_time;
  backup = none;
  point_in_time = some (record {
    storage_ref = "main";
    instance_ref = none;
    to_date = true;
    date = some "2026-01-01T00:00:00Z";
  });
}

source_valid : Restore.validate_data_source (some source) ≡ ok tt
unfolding Restore.validate_data_source Restore.check_source
source_valid = refl

build_recovery_config-never_panics_example :
    build_recovery_config (λ n. found backup) (λ n. found cnpg_backup) "db" source custom
    ≢ err panics
build_recovery_config-never_panics_example =
    build_recovery_config-never_panics (λ n. found backup) (λ n. found cnpg_backup) "db" source
      custom source_valid

abbrev origin : Origin
origin = record {
  object_store = "main";
  server = "db";
  target = some (record { backup_id = "id"; target_time = ""; target_immediate = some true });
}

origin_found : backup_origin (λ n. found backup) (λ n. found cnpg_backup) (some "b") ≡ ok origin
unfolding backup_origin
origin_found = refl

backup_origin-Restorable_example :
    Restorable (λ n. found backup) (λ n. found cnpg_backup) "b" origin
backup_origin-Restorable_example =
    backup_origin-Restorable (λ n. found backup) (λ n. found cnpg_backup) "b" origin origin_found
