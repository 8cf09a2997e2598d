-- ===== src/Barman/Schedule/Build.antt =====
-- A validated spec builds its ScheduledBackups, one for each enabled schedule.
use provider_cloudnative_pg.Common.{
  String, true, some, List, [], ◌∷◌, ◌++◌, ◌≡◌, refl, inl, inr, map, filter, All, Result, ok, err,
  each-eq-ok, arith, Bool-cases,
}
use mathlib.Core.List.{map-append}
use provider_cloudnative_pg.Cnpg.Quantities.{NameChecks}
use provider_cloudnative_pg.Barman.Types.{
  BackupSchedule, InstanceBackupStorage, InstanceBackupSpec, BackupConfig, ScheduledBackup,
}
use provider_cloudnative_pg.Barman.Schedule.{
  Error, to_cnpg_schedule, scheduled_backup_name, decode_backup_parameters, validate_schedule,
  validate_storage, validate_schedules, build_one, build_storage, build_storages,
  build_scheduled_backups, scheduled_backup,
}

abbrev pub enabled_schedules : List BackupSchedule → List BackupSchedule
enabled_schedules = filter (λ s. s.enabled)

-- The schedules of all storages, in order.
abbrev pub all_schedules : List InstanceBackupStorage → List BackupSchedule
all_schedules [] = []
all_schedules (storage ∷ storages) = enabled_schedules storage.schedules ++ all_schedules storages

module _ (unmarshal : String → Result String BackupConfig) (names : NameChecks)
    (cluster : String) where
  abbrev expected : List BackupSchedule → List String
  expected = map (λ (s : BackupSchedule). scheduled_backup_name cluster s.name)

  abbrev Builds : Result Error (List ScheduledBackup) → List BackupSchedule → Type 0
  Builds r schedules =
      (sbs : List ScheduledBackup) × (r ≡ ok sbs)
      × (map (λ (sb : ScheduledBackup). sb.name) sbs ≡ expected schedules)

  build_one_total :
      (storage : String) (s : BackupSchedule)
      → validate_schedule unmarshal names s ≡ ok tt
      → (sb : ScheduledBackup) × (build_one unmarshal cluster storage s ≡ ok sb)
        × (sb.name ≡ scheduled_backup_name cluster s.name)
  unfolding validate_schedule build_one
  build_one_total storage s h =
      go (to_cnpg_schedule s.cron) refl (decode_backup_parameters unmarshal s.parameters) refl
    where
      go :
          (c : Result Error String)
          → to_cnpg_schedule s.cron ≡ c
          → (d : Result Error BackupConfig) → decode_backup_parameters unmarshal s.parameters ≡ d
          → (sb : ScheduledBackup) × (build_one unmarshal cluster storage s ≡ ok sb)
            × (sb.name ≡ scheduled_backup_name cluster s.name)
      go (ok cron) ce (ok config) de =
          (scheduled_backup cluster storage s cron config, rw (ce, de, build_one) refl, refl)
      go (err e) ce d de = ground arith
      go (ok cron) ce (err e) de = ground arith

  build_storage_total :
      (storage : String) (schedules : List BackupSchedule)
      → All (λ s. validate_schedule unmarshal names s ≡ ok tt) schedules
      → Builds (build_storage unmarshal cluster storage schedules) (enabled_schedules schedules)
  unfolding build_storage
  build_storage_total storage [] h = ([], refl, refl)
  build_storage_total storage (s ∷ schedules) (here, later) =
      let (sbs, built, named) = build_storage_total storage schedules later in
      elim (Bool-cases s.enabled) [
        | inr off ↦ rw (off, build_storage) (sbs, built, named)
        | inl on ↦
            let (sb, one, name) = build_one_total storage s here in
            rw (on, build_storage) (sb ∷ sbs, rw (one, built) refl, cc (name, named))
      ]

  validated-All :
      (storage : InstanceBackupStorage)
      → validate_storage unmarshal names storage ≡ ok tt
      → All (λ s. validate_schedule unmarshal names s ≡ ok tt) storage.schedules
  unfolding validate_storage
  validated-All storage h =
      (each-eq-ok (validate_schedule unmarshal names) storage.schedules).0 (ground arith)

  build_storages_total :
      (storages : List InstanceBackupStorage)
      → All (λ s. validate_storage unmarshal names s ≡ ok tt) storages
      → Builds (build_storages unmarshal cluster storages) (all_schedules storages)
  unfolding build_storages
  build_storages_total [] h = ([], refl, refl)
  build_storages_total (storage ∷ storages) (here, later) =
      let (sbs, built, named) =
        build_storage_total storage.storage_ref storage.schedules (validated-All storage here) in
      let (more, built', named') = build_storages_total storages later in
      (
        sbs ++ more,
        rw (built, built', build_storages) refl,
        rw (map-append, named, named', ← map-append) refl,
      )

  -- If the schedules of an enabled backup spec pass validation, then the ScheduledBackups are built
  -- without an error: one for each enabled schedule of each storage, in order, each under the name
  -- of its schedule.
  pub build_scheduled_backups_total :
      (backup : InstanceBackupSpec)
      → validate_schedules unmarshal names (some backup) ≡ ok tt
      → backup.enabled ≡ true
      → (sbs : List ScheduledBackup) × (build_scheduled_backups unmarshal cluster (some backup)
          ≡ ok sbs)
        × (map (λ (sb : ScheduledBackup). sb.name) sbs
            ≡ map
                (λ (s : BackupSchedule). scheduled_backup_name cluster s.name)
                (all_schedules backup.storages))
  unfolding build_scheduled_backups validate_schedules
  build_scheduled_backups_total backup h on =
      rw (on, build_scheduled_backups)
        (build_storages_total backup.storages
          ((each-eq-ok (validate_storage unmarshal names) backup.storages).0 h))
