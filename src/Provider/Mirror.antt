-- ===== src/Provider/Mirror.antt =====
-- internal/provider/backup_mirror.go: the Backup that stands for a scheduled CloudNativePG Backup.
pub mod Scheduled
use provider_cloudnative_pg.Common.{
  String, not, Option, none, some, ◌==◌, is_empty, Result, ok, err, Got, found, not_found, failed,
  if◌then◌else◌,
}
use provider_cloudnative_pg.Common.Dict.{value}
use provider_cloudnative_pg.Cnpg.Components.{provider_name}
use provider_cloudnative_pg.Barman.Types.{
  BackupPluginConfiguration, CnpgBackup, Instance, InstanceBackupSpec,
}
use provider_cloudnative_pg.Barman.Plugin.{plugin_name, plugin_parameter_object_store}
use provider_cloudnative_pg.Barman.Schedule.{schedule_for_scheduled_backup}

abbrev pub parent_label : String
parent_label = "cnpg.io/scheduled-backup"

-- The fields of the Backup that the mirror sets; its origin is the Instance.
pub record MirroredBackup : Type 0 where
  pub name : String
  pub namespace : String
  pub origin_instance : String
  pub class_ref : String
  pub storage_ref : String
  pub schedule_name : String
  pub parameters : Option String

-- The storage that the plugin's configuration names; empty if there is no such configuration.
unfoldable pub storage_of_plugin : Option BackupPluginConfiguration → String
storage_of_plugin none = ""
storage_of_plugin (some p) =
    if not (p.name == plugin_name) then "" else value plugin_parameter_object_store p.parameters

-- From the test of the Instance's backup on.
unfoldable pub mirror_for :
    CnpgBackup → String → String → Instance → Option InstanceBackupSpec → Option MirroredBackup
mirror_for b sb_name storage_name instance none = none
mirror_for b sb_name storage_name instance (some backup) =
    if is_empty backup.class_ref
    then none
    else elim (schedule_for_scheduled_backup instance.name (some backup) sb_name) [
      | none ↦ none
      | some schedule ↦ some (record {
        name = b.name;
        namespace = b.namespace;
        origin_instance = instance.name;
        class_ref = backup.class_ref;
        storage_ref = storage_name;
        schedule_name = schedule.name;
        parameters = schedule.parameters;
      })
    ]

unfoldable pub mirror_from :
    CnpgBackup → String → String → Got Instance → Result String (Option MirroredBackup)
unfolding mirror_for
mirror_from b sb_name storage_name not_found = ok none
mirror_from b sb_name storage_name (failed e) = err e
mirror_from b sb_name storage_name (found instance) =
    if not (instance.provider_ref == provider_name)
    then ok none
    else ok (mirror_for b sb_name storage_name instance instance.backup)

-- `get_instance` reads an Instance by its namespace and its name; `none` is the nil Backup.
unfoldable pub mirror :
    (String → String → Got Instance) → CnpgBackup → Result String (Option MirroredBackup)
unfolding mirror_from storage_of_plugin
mirror get_instance b =
    let sb_name = value parent_label b.labels in
    let storage_name = storage_of_plugin b.plugin in
    if is_empty sb_name
    then ok none
    else if is_empty storage_name
    then ok none
    else mirror_from b sb_name storage_name (get_instance b.namespace b.cluster)
