-- ===== src/Barman/Schedule.antt =====
-- internal/cnpg/barman/schedule.go: the checks on backup schedules, and the ScheduledBackups that
-- are built from them. The decoding of JSON is a parameter, as are the checks of names.
pub mod Retained
pub mod Names
pub mod Build
pub mod Sync
pub mod Refines
pub mod Kept
pub mod Lookup
use Prim.Native.Char.{Char, code}
use Prim.Native.String.{[], ◌∷◌}
use provider_cloudnative_pg.Common.{
  String, len, ◌<>◌, Bool, true, false, not, ◌&&◌, ◌||◌, Option, none, some, List, [], ◌∷◌, ◌++◌,
  ◌==◌, is_empty, is_nil, leb, eqb, length, contains, find, Result, ok, err, ◌>>=◌, ◌>>◌, reject,
  wrap, each, if◌then◌else◌,
}
use provider_cloudnative_pg.Common.Texts.{trim_space, fields, join}
use provider_cloudnative_pg.Common.Sha256.{sha256_hex}
use provider_cloudnative_pg.Cnpg.Quantities.{NameChecks}
use provider_cloudnative_pg.Barman.Types.{
  RetentionKind, time, other_kind, Retention, BackupSchedule, InstanceBackupStorage,
  InstanceBackupSpec, BackupConfig, ScheduledBackup,
}
use provider_cloudnative_pg.Barman.Names.{cut_name}
use provider_cloudnative_pg.Barman.Plugin.{plugin_configuration}

pub data Error : Type 0 where
  invalid_name : String → List String → Error
  only_time_retention : String → Error
  invalid_duration : String → String → Error
  mixed_retention : String → Error
  bad_cron : String → Error
  bad_parameters : String → Error
  of_schedule : String → Error → Error

abbrev pub max_scheduled_backup_name_length : Prim.Native.Nat.ℕ
max_scheduled_backup_name_length = 63

abbrev pub cron_descriptors : List String
cron_descriptors =
    "@yearly" ∷ "@annually" ∷ "@monthly" ∷ "@weekly" ∷ "@daily" ∷ "@midnight" ∷ "@hourly" ∷ []

unfoldable pub is_unit : Char → Bool
is_unit c = eqb (code c) b'd' || eqb (code c) b'w' || eqb (code c) b'm'

-- The rest `[0-9]*[dwm]$` of the retention pattern.
unfoldable pub duration_rest : String → Bool
unfolding is_unit
duration_rest [] = false
duration_rest (c ∷ s) =
    (is_empty s && is_unit c) || (leb b'0' (code c) && leb (code c) b'9' && duration_rest s)

-- The expression `^[1-9][0-9]*[dwm]$`.
unfoldable pub is_retention_duration : String → Bool
unfolding duration_rest
is_retention_duration [] = false
is_retention_duration (c ∷ s) = leb b'1' (code c) && leb (code c) b'9' && duration_rest s

abbrev is_time : RetentionKind → Bool
is_time time = true
is_time (other_kind _) = false

-- The duration of one schedule in the loop of `storageRetentionPolicy`.
unfoldable pub schedule_duration : BackupSchedule → Result Error String
unfolding is_retention_duration
schedule_duration schedule = elim schedule.retention [
  | none ↦ ok ""
  | some r ↦
      if not (is_time r.kind)
      then err (only_time_retention schedule.name)
      else if not (is_retention_duration r.duration)
      then err (invalid_duration schedule.name r.duration)
      else ok r.duration
]

-- The loop from its second round on, with the policy of the rounds before.
unfoldable pub retention_loop : String → String → List BackupSchedule → Result Error String
retention_loop storage policy [] = ok policy
retention_loop storage policy (schedule ∷ schedules) = do
  duration ← schedule_duration schedule
  reject (not (duration == policy)) (mixed_retention storage)
  retention_loop storage duration schedules

retention_of : String → List BackupSchedule → Result Error String
retention_of storage [] = ok ""
retention_of storage (schedule ∷ schedules) = do
  duration ← schedule_duration schedule
  retention_loop storage duration schedules

unfoldable pub storage_retention_policy : InstanceBackupStorage → Result Error String
unfolding retention_of retention_loop
storage_retention_policy storage = retention_of storage.storage_ref storage.schedules

unfoldable pub to_cnpg_schedule : String → Result Error String
unfolding trim_space fields
to_cnpg_schedule cron =
    let cron' = trim_space cron in
    if contains cron_descriptors cron'
    then ok cron'
    else if eqb (length (fields cron')) 5
    then ok ("0 " <> join " " (fields cron'))
    else err (bad_cron cron')

unfoldable pub scheduled_backup_name : String → String → String
scheduled_backup_name instance_name schedule_name =
    let name = instance_name <> ("-" <> schedule_name) in
    if leb (len name) max_scheduled_backup_name_length
    then name
    else cut_name name (sha256_hex name)

-- The loop over the schedules of one storage, looking for a name.
find_schedule : String → String → List BackupSchedule → Option BackupSchedule
find_schedule instance_name sb_name =
    find (λ s. scheduled_backup_name instance_name s.name == sb_name)

find_in_storages : String → String → List InstanceBackupStorage → Option BackupSchedule
unfolding find_schedule
find_in_storages instance_name sb_name [] = none
find_in_storages instance_name sb_name (storage ∷ storages) =
    let rest = find_in_storages instance_name sb_name storages in
    elim (find_schedule instance_name sb_name storage.schedules) [ none ↦ rest | some s ↦ some s ]

-- `none` is the second result false.
unfoldable pub schedule_for_scheduled_backup :
    String → Option InstanceBackupSpec → String → Option BackupSchedule
unfolding find_in_storages
schedule_for_scheduled_backup instance_name none sb_name = none
schedule_for_scheduled_backup instance_name (some backup) sb_name =
    find_in_storages instance_name sb_name backup.storages

abbrev pub scheduled_backup :
    String → String → BackupSchedule → String → BackupConfig → ScheduledBackup
scheduled_backup cluster storage schedule cron params = record {
  name = scheduled_backup_name cluster schedule.name;
  schedule = cron;
  cluster = cluster;
  backup_owner_reference = "none";
  method = "plugin";
  plugin = plugin_configuration storage;
  target = params.target;
}

module _ (unmarshal : String → Result String BackupConfig) where
  -- `decodeBackupParameters`: nil and empty parameters are the zero configuration.
  unfoldable pub decode_backup_parameters : Option String → Result Error BackupConfig
  decode_backup_parameters none = ok (record { target = "" })
  decode_backup_parameters (some raw) =
      if is_empty raw
      then ok (record { target = "" })
      else wrap (λ e. bad_parameters e) (unmarshal raw)

  unfoldable pub validate_schedule : NameChecks → BackupSchedule → Result Error (Unit {0})
  validate_schedule names schedule = do
    let faults = names.is_dns1123_label schedule.name
    reject (not (is_nil faults)) (invalid_name schedule.name faults)
    _ ← wrap (of_schedule schedule.name) (to_cnpg_schedule schedule.cron)
    _ ← wrap (of_schedule schedule.name) (decode_backup_parameters schedule.parameters)
    ok tt

  unfoldable pub validate_storage : NameChecks → InstanceBackupStorage → Result Error (Unit {0})
  unfolding validate_schedule
  validate_storage names storage = do
    _ ← storage_retention_policy storage
    each (validate_schedule names) storage.schedules

  unfoldable pub validate_schedules :
      NameChecks → Option InstanceBackupSpec → Result Error (Unit {0})
  unfolding validate_storage
  validate_schedules names none = ok tt
  validate_schedules names (some backup) = each (validate_storage names) backup.storages

  -- One round of the inner loop of `buildScheduledBackups`.
  unfoldable pub build_one : String → String → BackupSchedule → Result Error ScheduledBackup
  build_one cluster storage schedule = do
    cron ← wrap (of_schedule schedule.name) (to_cnpg_schedule schedule.cron)
    params ← wrap (of_schedule schedule.name) (decode_backup_parameters schedule.parameters)
    ok (scheduled_backup cluster storage schedule cron params)

  unfoldable pub build_storage :
      String → String → List BackupSchedule → Result Error (List ScheduledBackup)
  unfolding build_one
  build_storage cluster storage [] = ok []
  build_storage cluster storage (schedule ∷ schedules) =
      let rest = build_storage cluster storage schedules in
      if not schedule.enabled
      then rest
      else (build_one cluster storage schedule >>= λ sb. rest >>= λ sbs. ok (sb ∷ sbs))

  unfoldable pub build_storages :
      String → List InstanceBackupStorage → Result Error (List ScheduledBackup)
  unfolding build_storage
  build_storages cluster [] = ok []
  build_storages cluster (storage ∷ storages) =
      let rest = build_storages cluster storages in
      build_storage cluster storage.storage_ref storage.schedules >>= λ sbs.
      rest >>= λ more. ok (sbs ++ more)

  unfoldable pub build_scheduled_backups :
      String → Option InstanceBackupSpec → Result Error (List ScheduledBackup)
  unfolding build_storages
  build_scheduled_backups cluster none = ok []
  build_scheduled_backups cluster (some backup) =
      if not backup.enabled then ok [] else build_storages cluster backup.storages
