-- ===== src/Barman/Schedule/Names.antt =====
-- The name of a ScheduledBackup fits a label value, and a short one says what it stands for.
use provider_cloudnative_pg.Common.{◌⊎◌, ◌<◌, String, len, ◌<>◌, ◌≡◌, ◌≤◌, arith}
use provider_cloudnative_pg.Common.Sha256.{sha256_hex}
use provider_cloudnative_pg.Barman.Names.{len-cut_name}
use provider_cloudnative_pg.Barman.Schedule.{scheduled_backup_name}

-- The name has at most 63 bytes whatever the names of the Instance and the schedule, and it is
-- `instance-schedule` unless that has more.
pub len-scheduled_backup_name :
    (instance schedule : String)
    → (len (scheduled_backup_name instance schedule) ≤ 63)
      × ((scheduled_backup_name instance schedule ≡ instance <> ("-" <> schedule))
          ⊎ (63 < len (instance <> ("-" <> schedule))))
unfolding scheduled_backup_name
len-scheduled_backup_name instance schedule =
    let name = instance <> ("-" <> schedule) in
    (ground (arith, len-cut_name name (sha256_hex name)), ground arith)
