-- ===== src/Barman/Types.antt =====
-- The OpenEverest and CloudNativePG resources of backups, as far as the program reads or writes
-- their fields.
use provider_cloudnative_pg.Common.{String, Bool, Option, List}
use provider_cloudnative_pg.Common.Dict.{Dict}
use provider_cloudnative_pg.Cnpg.Types.{Opaque}

pub data RetentionKind : Type 0 where
  time : RetentionKind
  other_kind : String → RetentionKind

pub record Retention : Type 0 where
  pub kind : RetentionKind
  pub duration : String

pub record BackupSchedule : Type 0 where
  pub name : String
  pub enabled : Bool
  pub cron : String
  pub retention : Option Retention
  -- The raw parameters: none for nil, and the bytes otherwise.
  pub parameters : Option String

pub record InstanceBackupStorage : Type 0 where
  pub storage_ref : String
  pub schedules : List BackupSchedule

pub record InstanceBackupSpec : Type 0 where
  pub enabled : Bool
  pub class_ref : String
  pub storages : List InstanceBackupStorage

pub data DataSourceKind : Type 0 where
  from_backup point_in_time : DataSourceKind
  other_source : String → DataSourceKind

pub record PointInTime : Type 0 where
  pub storage_ref : String
  pub instance_ref : Option String
  -- Whether the recovery target is "date".
  pub to_date : Bool
  -- The date, as RFC 3339 text in UTC.
  pub date : Option String

pub record DataSource : Type 0 where
  pub kind : DataSourceKind
  -- The name in the Backup reference.
  pub backup : Option String
  pub point_in_time : Option PointInTime

pub record Instance : Type 0 where
  pub name : String
  pub namespace : String
  pub uid : String
  -- Whether the deletion timestamp is set.
  pub deleting : Bool
  pub provider_ref : String
  pub backup : Option InstanceBackupSpec
  pub data_source : Option DataSource

-- The configuration that the backup class decodes.
pub record BackupConfig : Type 0 where
  pub target : String

pub record BackupPluginConfiguration : Type 0 where
  pub name : String
  pub parameters : Dict String

pub record ScheduledBackup : Type 0 where
  pub name : String
  pub schedule : String
  pub cluster : String
  pub backup_owner_reference : String
  pub method : String
  pub plugin : BackupPluginConfiguration
  pub target : String

-- The states of an OpenEverest Backup and Restore.
pub data BackupState : Type 0 where
  pending running succeeded failed : BackupState

pub data BackupPhase : Type 0 where
  pending started running finalizing completed failed wal_archiving_failing : BackupPhase
  other_phase : String → BackupPhase

pub record CnpgBackupStatus : Type 0 where
  pub phase : BackupPhase
  pub error : String
  pub backup_id : String
  pub server_name : String
  pub destination_path : String
  pub endpoint_url : String
  pub started_at : Option Opaque
  pub stopped_at : Option Opaque

-- A CloudNativePG Backup.
pub record CnpgBackup : Type 0 where
  pub name : String
  pub namespace : String
  pub labels : Dict String
  -- Whether the creation timestamp is set.
  pub created : Bool
  pub deleting : Bool
  pub cluster : String
  pub method : String
  pub plugin : Option BackupPluginConfiguration
  pub target : String
  pub status : CnpgBackupStatus

-- An OpenEverest Backup.
pub record Backup : Type 0 where
  pub name : String
  pub namespace : String
  pub uid : String
  pub origin_instance : String
  pub class_ref : String
  pub storage_ref : String
  pub schedule_name : String
  pub parameters : Option String
  -- Whether the deletion policy is "Retain".
  pub retain : Bool
  pub state : BackupState
  -- The name in the operator's Backup reference.
  pub operator_backup_ref : Option String

pub record SecretKey : Type 0 where
  pub name : String
  pub key : String

pub record S3Spec : Type 0 where
  pub endpoint_url : String
  pub bucket : String
  pub region : String
  pub credentials_secret : String

pub record BackupStorage : Type 0 where
  pub name : String
  pub s3 : Option S3Spec

pub record ObjectStore : Type 0 where
  pub name : String
  pub endpoint_url : String
  pub endpoint_ca : Option SecretKey
  pub destination_path : String
  pub access_key_id : Option SecretKey
  pub secret_access_key : Option SecretKey
  pub region : Option SecretKey
  pub wal_compression : String
  pub retention_policy : String
