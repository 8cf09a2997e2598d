-- ===== src/Barman/Schedule/Lookup.antt =====
-- `ScheduleForScheduledBackup` of internal/cnpg/barman/schedule.go finds the schedule of every
-- ScheduledBackup.
use provider_cloudnative_pg.Common.{
  String, Bool, Option, none, some, Option-cases, List, [], ◌∷◌, ◌≡◌, refl, inl, inr, ◌==◌, eq_iff,
  any_iff, In, find-In, find-eq-none, ◌∙◌,
}
use provider_cloudnative_pg.Barman.Types.{BackupSchedule, InstanceBackupSpec, InstanceBackupStorage}
use provider_cloudnative_pg.Barman.Schedule.{
  find_schedule, find_in_storages, schedule_for_scheduled_backup, scheduled_backup_name,
}

-- A schedule is found whose ScheduledBackup has the name.
unfoldable pub Found : String → String → Option BackupSchedule → Type 0
Found instance_name sb_name o =
    (schedule : BackupSchedule) × (o ≡ some schedule)
    × (scheduled_backup_name instance_name schedule.name ≡ sb_name)

module _ (instance_name sb_name : String) where
  found-Found :
      (o : Option BackupSchedule) (schedules : List BackupSchedule)
      → find_schedule instance_name sb_name schedules ≡ o
      → o ≡ none
      → (s : BackupSchedule) → In s schedules
      → scheduled_backup_name instance_name s.name ≡ sb_name
      → ⊥
  unfolding find_schedule
  found-Found o schedules e n s m same =
      let test : BackupSchedule → Bool =
        λ x. scheduled_backup_name instance_name x.name == sb_name in
      let absent = (find-eq-none test schedules).0 (e ∙ n) in
      let present =
        (any_iff test schedules).1
          (s, m, (eq_iff (scheduled_backup_name instance_name s.name) sb_name).1 same) in
      cc

  schedule-Found :
      (schedules : List BackupSchedule) (schedule : BackupSchedule)
      → find_schedule instance_name sb_name schedules ≡ some schedule
      → scheduled_backup_name instance_name schedule.name ≡ sb_name
  unfolding find_schedule
  schedule-Found schedules schedule e =
      let test : BackupSchedule → Bool =
        λ x. scheduled_backup_name instance_name x.name == sb_name in
      (eq_iff (scheduled_backup_name instance_name schedule.name) sb_name).0
        (find-In test schedules schedule e).1

  storages-Found :
      (storages : List InstanceBackupStorage) (storage : InstanceBackupStorage) (s : BackupSchedule)
      → In storage storages
      → In s storage.schedules
      → scheduled_backup_name instance_name s.name ≡ sb_name
      → Found instance_name sb_name (find_in_storages instance_name sb_name storages)
  unfolding find_in_storages Found
  storages-Found [] storage s m n same = absurd m
  storages-Found (first ∷ storages) storage s m n same =
      elim (Option-cases (find_schedule instance_name sb_name first.schedules)) [
        | inr (schedule, here) ↦
            rw (here, find_in_storages)
              (schedule, refl, schedule-Found first.schedules schedule here)
        | inl absent ↦ elim m [
          | inl e ↦ absurd (found-Found none first.schedules absent refl s (rw e at n) same)
          | inr later ↦
              rw (absent, find_in_storages) (storages-Found storages storage s later n same)
        ]
      ]

  -- For every schedule of a backup spec, a lookup of the name of its ScheduledBackup finds a schedule
  -- of that name.
  pub schedule_for_scheduled_backup-Found :
      (backup : InstanceBackupSpec) (storage : InstanceBackupStorage) (s : BackupSchedule)
      → In storage backup.storages
      → In s storage.schedules
      → scheduled_backup_name instance_name s.name ≡ sb_name
      → Found instance_name sb_name
          (schedule_for_scheduled_backup instance_name (some backup) sb_name)
  unfolding schedule_for_scheduled_backup
  schedule_for_scheduled_backup-Found backup storage s m n same =
      storages-Found backup.storages storage s m n same
