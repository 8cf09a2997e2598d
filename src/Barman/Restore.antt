-- ===== src/Barman/Restore.antt =====
-- internal/cnpg/barman/restore.go: the checks on a data source, and the recovery that is built from
-- it. The reads of the two Backup resources are parameters.
pub mod Recovery
use provider_cloudnative_pg.Common.{
  String, Bool, true, false, not, ◌&&◌, ◌||◌, Option, none, some, List, [], ◌∷◌, ◌==◌, is_empty,
  is_none, or_else, Result, ok, err, ◌>>=◌, ◌>>◌, reject, Got, found, not_found, failed,
  if◌then◌else◌,
}
use provider_cloudnative_pg.Cnpg.Types.{
  BootstrapRecovery, RecoveryTarget, ExternalCluster, PluginConfiguration,
}
use provider_cloudnative_pg.Cnpg.Components.{CnpgCustomSpec}
use provider_cloudnative_pg.Barman.Types.{
  DataSource, DataSourceKind, from_backup, point_in_time, other_source, PointInTime, Instance,
  Backup, BackupState, CnpgBackup, BackupPhase,
}
use provider_cloudnative_pg.Barman.Plugin.{plugin_name, plugin_parameter_object_store}

abbrev pub recovery_external_cluster_name : String
recovery_external_cluster_name = "origin"

pub data Error : Type 0 where
  backup_ref_required : Error
  storage_ref_required : Error
  date_required : Error
  unsupported_kind : String → Error
  wait_for_backup : String → Error
  resolution_failed : String → Error
  wait_for_success : String → BackupState → Error
  storage_ref_missing : String → Error
  wait_for_cnpg_backup : String → Error
  get_cnpg_backup_failed : String → String → Error
  wait_for_completion : String → BackupPhase → Error
  no_backup_id : String → Error
  no_server_name : String → Error
  -- A dereference of a nil pointer.
  panics : Error

abbrev pub is_unnamed : Option String → Bool
is_unnamed none = true
is_unnamed (some name) = is_empty name

abbrev pub storage_missing : Option PointInTime → Bool
storage_missing none = true
storage_missing (some p) = is_empty p.storage_ref

abbrev pub date_missing : Option PointInTime → Bool
date_missing none = false
date_missing (some p) = p.to_date && is_none p.date

unfoldable pub check_source :
    DataSourceKind → Option String → Option PointInTime → Result Error (Unit {0})
check_source from_backup backup pitr = reject (is_unnamed backup) backup_ref_required
check_source point_in_time backup pitr = do
  reject (storage_missing pitr) storage_ref_required
  reject (date_missing pitr) date_required
check_source (other_source kind) backup pitr = err (unsupported_kind kind)

unfoldable pub validate_data_source : Option DataSource → Result Error (Unit {0})
unfolding check_source
validate_data_source none = ok tt
validate_data_source (some ds) = check_source ds.kind ds.backup ds.point_in_time

-- What the recovery is built from: the object store, the server's name and the target.
pub record Origin : Type 0 where
  pub object_store : String
  pub server : String
  pub target : Option RecoveryTarget

unfoldable pub date_target : Bool → Option String → Result Error (Option RecoveryTarget)
date_target false date = ok none
date_target true none = err panics
date_target true (some t) =
    ok (some (record { backup_id = ""; target_time = t; target_immediate = none }))

abbrev pub or_name : Option String → String → String
or_name none name = name
or_name (some other) name = or_else other name

unfoldable pub point_in_time_origin : String → Option PointInTime → Result Error Origin
unfolding date_target
point_in_time_origin instance none = err panics
point_in_time_origin instance (some pitr) = do
  target ← date_target pitr.to_date pitr.date
  ok (record {
    object_store = pitr.storage_ref;
    server = or_name pitr.instance_ref instance;
    target = target;
  })

abbrev pub is_succeeded : BackupState → Bool
is_succeeded BackupState.succeeded = true
is_succeeded _ = false

abbrev pub is_completed : BackupPhase → Bool
is_completed BackupPhase.completed = true
is_completed _ = false

-- The tests on the CloudNativePG Backup that was read.
unfoldable pub read_cnpg_backup : String → Got CnpgBackup → Result Error CnpgBackup
read_cnpg_backup name not_found = err (wait_for_cnpg_backup name)
read_cnpg_backup name (failed e) = err (get_cnpg_backup_failed name e)
read_cnpg_backup name (found b) =
    if not (is_completed b.status.phase)
    then err (wait_for_completion name b.status.phase)
    else if is_empty b.status.backup_id
    then err (no_backup_id b.name)
    else ok b

module _ (get_backup : String → Got Backup) (get_cnpg_backup : String → Got CnpgBackup) where
  unfoldable pub resolve_cnpg_backup : String → Result Error CnpgBackup
  unfolding read_cnpg_backup
  resolve_cnpg_backup name = read_cnpg_backup name (get_cnpg_backup name)

  -- The tests on the OpenEverest Backup, then the read of the operator's.
  unfoldable pub read_backup : String → Got Backup → Result Error (CnpgBackup × String)
  unfolding resolve_cnpg_backup
  read_backup name not_found = err (wait_for_backup name)
  read_backup name (failed e) = err (resolution_failed e)
  read_backup name (found b) =
      if not (is_succeeded b.state)
      then err (wait_for_success name b.state)
      else if is_empty b.storage_ref
      then err (storage_ref_missing name)
      else resolve_cnpg_backup (or_name b.operator_backup_ref name) >>= λ cnpg.
          ok (cnpg, b.storage_ref)

  -- The CloudNativePG Backup and the name of the object store.
  unfoldable pub resolve_source_backup : Option String → Result Error (CnpgBackup × String)
  unfolding read_backup
  resolve_source_backup none = err panics
  resolve_source_backup (some name) = read_backup name (get_backup name)

  unfoldable pub backup_origin : Option String → Result Error Origin
  unfolding resolve_source_backup
  backup_origin backup = do
    resolved ← resolve_source_backup backup
    let server = or_else resolved.0.status.server_name resolved.0.cluster
    reject (is_empty server) (no_server_name resolved.0.name)
    ok (record {
      object_store = resolved.1;
      server = server;
      target = some (record {
        backup_id = resolved.0.status.backup_id;
        target_time = "";
        target_immediate = some true;
      });
    })

  unfoldable pub origin_of :
      String → DataSourceKind → Option String → Option PointInTime → Result Error Origin
  unfolding point_in_time_origin backup_origin
  origin_of instance point_in_time backup pitr = point_in_time_origin instance pitr
  origin_of instance _ backup pitr = backup_origin backup

  abbrev base_recovery : Option RecoveryTarget → BootstrapRecovery
  base_recovery target = record {
    source = recovery_external_cluster_name;
    recovery_target = target;
    database = "";
    owner = "";
    secret = none;
  }

  unfoldable pub recovery_of : CnpgCustomSpec → Option RecoveryTarget → BootstrapRecovery
  recovery_of custom target =
      let base = base_recovery target in
      elim custom.bootstrap [
        | none ↦ base
        | some b ↦ elim b.init_db [
          | none ↦ base
          | some i ↦ record base { database = i.database; owner = i.owner; secret = i.secret }
        ]
      ]

  abbrev pub external_cluster : Origin → ExternalCluster
  external_cluster origin = record {
    name = recovery_external_cluster_name;
    plugin = record {
      name = plugin_name;
      enabled = none;
      is_wal_archiver = none;
      parameters =
          (plugin_parameter_object_store, origin.object_store) ∷ ("serverName", origin.server) ∷ [];
    };
  }

  unfoldable pub build_recovery_config :
      String → DataSource → CnpgCustomSpec → Result Error (BootstrapRecovery × ExternalCluster)
  unfolding origin_of recovery_of
  build_recovery_config instance ds custom =
      origin_of instance ds.kind ds.backup ds.point_in_time >>= λ origin.
      ok (recovery_of custom origin.target, external_cluster origin)
