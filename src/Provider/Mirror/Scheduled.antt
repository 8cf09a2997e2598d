-- ===== src/Provider/Mirror/Scheduled.antt =====
-- internal/provider/backup_mirror.go: what the ScheduledBackups of an Instance produce is mirrored.
use provider_cloudnative_pg.Common.{
  String, true, false, Option, some, ◌≡◌, ◌≢◌, refl, ap, ◌∙◌, ◌==◌, eq_iff, test_of_ne, is_empty,
  In, ok, Got, found,
}
use provider_cloudnative_pg.Common.Dict.{value, lookup}
use provider_cloudnative_pg.Cnpg.Components.{provider_name}
use provider_cloudnative_pg.Barman.Types.{
  BackupSchedule, CnpgBackup, Instance, InstanceBackupSpec, InstanceBackupStorage,
}
use provider_cloudnative_pg.Barman.Plugin.{plugin_configuration}
use provider_cloudnative_pg.Barman.Schedule.{scheduled_backup_name, schedule_for_scheduled_backup}
use provider_cloudnative_pg.Barman.Schedule.Lookup.{schedule_for_scheduled_backup-Found, Found}
use provider_cloudnative_pg.Provider.Mirror.{
  MirroredBackup, parent_label, storage_of_plugin, mirror_for, mirror_from, mirror,
}

storage_of_configuration :
    (name : String) → storage_of_plugin (some (plugin_configuration name)) ≡ name
unfolding storage_of_plugin plugin_configuration lookup
storage_of_configuration name = refl

-- A Backup is mirrored under the names of the CloudNativePG Backup, with the storage, and with a
-- schedule whose ScheduledBackup has the name.
pub Mirrored : CnpgBackup → Instance → String → String → Option MirroredBackup → Type 0
Mirrored b instance storage sb_name o =
    (m : MirroredBackup) × (o ≡ some m)
    × (m.name ≡ b.name)
    × (m.namespace ≡ b.namespace)
    × (m.origin_instance ≡ instance.name)
    × (m.storage_ref ≡ storage)
    × (scheduled_backup_name instance.name m.schedule_name ≡ sb_name)

mirror_for-Mirrored :
    (b : CnpgBackup) (sb_name storage : String) (instance : Instance) (backup : InstanceBackupSpec)
    → backup.class_ref ≢ ""
    → Found instance.name sb_name
        (schedule_for_scheduled_backup instance.name (some backup) sb_name)
    → Mirrored b instance storage sb_name (mirror_for b sb_name storage instance (some backup))
unfolding mirror_for Mirrored Found
mirror_for-Mirrored b sb_name storage instance backup classed (schedule, e, same) =
    rw (test_of_ne backup.class_ref "" classed, e, mirror_for)
      (_, refl, refl, refl, refl, refl, same)

from-Mirrored :
    (b : CnpgBackup) (sb_name storage : String) (instance : Instance) (backup : InstanceBackupSpec)
    → instance.provider_ref ≡ provider_name
    → instance.backup ≡ some backup
    → backup.class_ref ≢ ""
    → Found instance.name sb_name
        (schedule_for_scheduled_backup instance.name (some backup) sb_name)
    → (o : Option MirroredBackup) × (mirror_from b sb_name storage (found instance) ≡ ok o)
      × Mirrored b instance storage sb_name o
unfolding mirror_from
from-Mirrored b sb_name storage instance backup mine has classed there = (
  mirror_for b sb_name storage instance (some backup),
  own_instance ((eq_iff instance.provider_ref provider_name).1 mine)
      ∙ ap (λ o. ok (mirror_for b sb_name storage instance o)) has,
  mirror_for-Mirrored b sb_name storage instance backup classed there,
)
  where
    own_instance :
        (instance.provider_ref == provider_name) ≡ true
        → mirror_from b sb_name storage (found instance)
          ≡ ok (mirror_for b sb_name storage instance instance.backup)
    own_instance h = rw (h, mirror_from) refl

-- Every CloudNativePG Backup that comes from a ScheduledBackup of an Instance of this provider is
-- mirrored: for a schedule of one of its storages, with the label of its ScheduledBackup and the plugin
-- configuration of the storage, `Mirror` returns a Backup for the Instance with that storage and with a
-- schedule of that ScheduledBackup.
pub mirror-Mirrored :
    (get_instance : String → String → Got Instance) (b : CnpgBackup) (instance : Instance)
    (backup : InstanceBackupSpec) (storage : InstanceBackupStorage) (schedule : BackupSchedule)
    → get_instance b.namespace b.cluster ≡ found instance
    → instance.provider_ref ≡ provider_name
    → instance.backup ≡ some backup
    → backup.class_ref ≢ ""
    → In storage backup.storages
    → In schedule storage.schedules
    → scheduled_backup_name instance.name schedule.name ≡ value parent_label b.labels
    → value parent_label b.labels ≢ ""
    → b.plugin ≡ some (plugin_configuration storage.storage_ref)
    → storage.storage_ref ≢ ""
    → (o : Option MirroredBackup) × (mirror get_instance b ≡ ok o)
      × Mirrored b instance storage.storage_ref (value parent_label b.labels) o
unfolding mirror
mirror-Mirrored get_instance b instance backup storage schedule got mine has classed m n same
      labelled plugin named =
    let sb_name = value parent_label b.labels in
    let there =
      schedule_for_scheduled_backup-Found instance.name sb_name backup storage schedule m n same in
    let r = from-Mirrored b sb_name storage.storage_ref instance backup mine has classed there in
    let stored : storage_of_plugin b.plugin ≡ storage.storage_ref =
      ap storage_of_plugin plugin ∙ storage_of_configuration storage.storage_ref in
    (
      r.0,
      reads (test_of_ne sb_name "" labelled)
            (ap is_empty stored ∙ test_of_ne storage.storage_ref "" named)
          ∙ ap (λ name. mirror_from b sb_name name (get_instance b.namespace b.cluster)) stored
          ∙ ap (mirror_from b sb_name storage.storage_ref) got
          ∙ r.1,
      r.2,
    )
  where
    reads :
        is_empty (value parent_label b.labels) ≡ false
        → is_empty (storage_of_plugin b.plugin) ≡ false
        → mirror get_instance b
          ≡ mirror_from b
              (value parent_label b.labels)
              (storage_of_plugin b.plugin)
              (get_instance b.namespace b.cluster)
    reads h k = rw (h, k, mirror) refl
