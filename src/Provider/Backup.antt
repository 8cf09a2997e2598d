-- ===== src/Provider/Backup.antt =====
-- internal/provider/backup.go: `SyncBackup` and `SyncRestore`. The calls of the Kubernetes API and of
-- controller-runtime are parameters.
pub mod Laws
pub mod Restored
use provider_cloudnative_pg.Common.{
  String, ◌<>◌, Bool, true, false, not, ◌&&◌, ◌||◌, Option, none, some, List, [], ◌∷◌, ◌==◌,
  is_empty, any, find, Result, ok, err, Got, found, not_found, failed, if◌then◌else◌,
}
use provider_cloudnative_pg.Common.Int.{eqb_ℤ}
use provider_cloudnative_pg.Common.Texts.{quote}
use provider_cloudnative_pg.Cnpg.Types.{
  Cluster, ClusterPhase, Condition, unrecoverable, failure_plugin, cannot_create_cluster_objects,
  image_catalog_error,
}
use provider_cloudnative_pg.Cnpg.Status.{Message, text, phase}
use provider_cloudnative_pg.Barman.Types.{
  Backup, BackupConfig, BackupState, BackupPhase, CnpgBackup, Instance, InstanceBackupSpec,
}
use provider_cloudnative_pg.Barman.Plugin.{plugin_configuration, archive_object_store_name}
use provider_cloudnative_pg.Barman.Schedule
use provider_cloudnative_pg.Barman.Schedule.{decode_backup_parameters}
use provider_cloudnative_pg.Provider.Types.{
  ObjectRef, BackupExecutionStatus, RestoreExecutionStatus,
}

pub record Client : Type 1 where
  pub State : Type 0
  pub get_cluster : State → String → Got Cluster
  -- Whether a CloudNativePG Backup of the name exists.
  pub exists : State → String → Result String Bool
  -- `controllerutil.CreateOrUpdate` with its mutate function and the object that carries the name.
  pub create_or_update :
      (CnpgBackup → Result String CnpgBackup)
      → CnpgBackup
      → State
      → Result String CnpgBackup × State
  pub set_controller_reference : Backup → CnpgBackup → Result String CnpgBackup

pub data Error : Type 0 where
  get_cluster_failed get_backup_failed write_failed : String → Error
  bad_config : Schedule.Error → Error

abbrev pub cnpg_group : String
cnpg_group = "postgresql.cnpg.io"

-- A status with a state and a message only.
abbrev pub brief : BackupState → String → BackupExecutionStatus
brief state message = record {
  state = state;
  message = message;
  operator_backup_ref = none;
  started_at = none;
  completed_at = none;
}

unfoldable pub instance_has_backup_storage : Instance → String → Bool
instance_has_backup_storage instance storage_name = elim instance.backup [
  | none ↦ false
  | some backup ↦
      if not backup.enabled then false else any (λ s. s.storage_ref == storage_name) backup.storages
]

-- `none` is nil.
unfoldable pub backup_storage_blocker : Instance → Cluster → String → Option BackupExecutionStatus
unfolding instance_has_backup_storage archive_object_store_name quote
backup_storage_blocker instance cluster storage_name =
    if not (instance_has_backup_storage instance storage_name)
    then some (
        brief BackupState.failed (
          "storage "
          <> (quote storage_name
              <> (" is not configured in spec.backup.storages of Instance "
                  <> quote instance.name))))
    else if not (archive_object_store_name cluster.spec.plugins == storage_name)
    then some (
        brief BackupState.pending
          ("waiting for CloudNativePG cluster to archive to storage " <> quote storage_name))
    else none

abbrev base_status : CnpgBackup → BackupExecutionStatus
base_status b = record (brief BackupState.pending "") {
  operator_backup_ref = some (record { group = cnpg_group; kind = "Backup"; name = b.name });
}

-- The switch on the phase.
abbrev pub status_for : BackupPhase → CnpgBackup → BackupExecutionStatus
status_for BackupPhase.completed b = record (base_status b) {
  state = BackupState.succeeded;
  completed_at = b.status.stopped_at;
  started_at = b.status.started_at;
}
status_for BackupPhase.running b = record (base_status b) { state = BackupState.running }
status_for BackupPhase.failed b = record (base_status b) {
  state = BackupState.failed;
  message = b.status.error;
}
status_for BackupPhase.wal_archiving_failing b = record (base_status b) {
  state = BackupState.failed;
  message = b.status.error;
}
status_for _ b = base_status b

-- The status of the Backup that is there or has just been made.
unfoldable pub execution_status : CnpgBackup → BackupExecutionStatus
execution_status b = status_for b.status.phase b

-- What `SyncBackup` reports in place of a write, after the test for the Backup's existence.
unfoldable pub blocked : Bool → Instance → Cluster → Backup → Option BackupExecutionStatus
unfolding backup_storage_blocker
blocked true instance cluster backup = none
blocked false instance cluster backup = elim backup.operator_backup_ref [
  | some _ ↦ some (
      brief BackupState.failed
        "CloudNativePG backup is no longer available; it may have expired under Barman retention")
  | none ↦ backup_storage_blocker instance cluster backup.storage_ref
]

-- The object that the write starts from: it has a name and a namespace only.
abbrev pub unborn : Backup → CnpgBackup
unborn backup = record {
  name = backup.name;
  namespace = backup.namespace;
  labels = [];
  created = false;
  deleting = false;
  cluster = "";
  method = "";
  plugin = none;
  target = "";
  status = record {
    phase = BackupPhase.other_phase "";
    error = "";
    backup_id = "";
    server_name = "";
    destination_path = "";
    endpoint_url = "";
    started_at = none;
    stopped_at = none;
  };
}

-- The part of the mutate function that fills the specification of a new Backup.
unfoldable pub populate : String → Backup → BackupConfig → CnpgBackup → CnpgBackup
unfolding plugin_configuration
populate instance backup config b = if b.created then b else record b {
  cluster = instance;
  method = "plugin";
  plugin = some (plugin_configuration backup.storage_ref);
  target = config.target;
}

module _ (unmarshal : String → Result String BackupConfig) (c : Client) (instance : Instance) where
  open c use {State, get_cluster, exists, create_or_update, set_controller_reference}

  mutate : Backup → BackupConfig → CnpgBackup → Result String CnpgBackup
  unfolding populate
  mutate backup config b = set_controller_reference backup (populate instance.name backup config b)

  -- From the decoding of the configuration on.
  unfoldable pub write_backup : Backup → State → Result Error BackupExecutionStatus × State
  unfolding execution_status mutate
  write_backup backup s = elim (decode_backup_parameters unmarshal backup.parameters) [
    | err e ↦ (err (bad_config e), s)
    | ok config ↦
        let written = create_or_update (mutate backup config) (unborn backup) s in
        elim written.0 [
          | err e ↦ (err (write_failed e), written.1)
          | ok b ↦ (ok (execution_status b), written.1)
        ]
  ]

  unfoldable pub unless_blocked :
      Option BackupExecutionStatus → Backup → State → Result Error BackupExecutionStatus × State
  unfolding write_backup
  unless_blocked (some status) backup s = (ok status, s)
  unless_blocked none backup s = write_backup backup s

  -- From the test for the Backup's existence on.
  unfoldable pub sync_with_cluster :
      Cluster → Result String Bool → Backup → State → Result Error BackupExecutionStatus × State
  unfolding unless_blocked blocked
  sync_with_cluster cluster (err e) backup s = (err (get_backup_failed e), s)
  sync_with_cluster cluster (ok there) backup s =
      unless_blocked (blocked there instance cluster backup) backup s

  unfoldable pub sync_from :
      Got Cluster → Backup → State → Result Error BackupExecutionStatus × State
  unfolding sync_with_cluster
  sync_from not_found backup s =
      (ok (brief BackupState.pending "Waiting for CloudnativePG cluster to exist"), s)
  sync_from (failed e) backup s = (err (get_cluster_failed e), s)
  sync_from (found cluster) backup s = sync_with_cluster cluster (exists s backup.name) backup s

  unfoldable pub sync_backup : Backup → State → Result Error BackupExecutionStatus × State
  unfolding sync_from
  sync_backup backup s = sync_from (get_cluster s instance.name) backup s

-- `meta.FindStatusCondition`
abbrev pub find_status_condition : List Condition → String → Option Condition
find_status_condition conditions type_name = find (λ c. c.type_name == type_name) conditions

-- Whether the recovery of the Cluster is complete.
unfoldable pub recovered : Cluster → Condition → Bool
recovered cluster ready =
    (ready.status == "True")
    && (not (is_empty cluster.status.current_primary)
        && eqb_ℤ cluster.status.ready_instances cluster.status.instances)

-- The phases after which the recovery has failed.
unfoldable pub recovery_failed : ClusterPhase → Bool
recovery_failed unrecoverable = true
recovery_failed failure_plugin = true
recovery_failed cannot_create_cluster_objects = true
recovery_failed image_catalog_error = true
recovery_failed _ = false

unfoldable pub restore_status : Cluster → Option Condition → RestoreExecutionStatus
unfolding recovered recovery_failed
restore_status cluster ready =
    let base : RestoreExecutionStatus = record {
      state = BackupState.running;
      message = text cluster.status.phase_reason;
      operator_restore_ref =
          some (record { group = cnpg_group; kind = "Cluster"; name = cluster.name });
      started_at = some cluster.creation_timestamp;
      completed_at = none;
    } in
    let unfinished =
      (if recovery_failed cluster.status.phase
        then record base {
          state = BackupState.failed;
          message = phase cluster.status.phase cluster.status.phase_reason;
        }
        else base) in
    elim ready [
      | none ↦ unfinished
      | some condition ↦
          if recovered cluster condition
          then record base {
            state = BackupState.succeeded;
            completed_at = some condition.last_transition_time;
            message = text "CloudNativePG recovery completed";
          }
          else unfinished
    ]

-- `SyncRestore`, from the read of the Cluster on.
unfoldable pub sync_restore : Got Cluster → Result String RestoreExecutionStatus
unfolding restore_status
sync_restore not_found = ok (record {
  state = BackupState.pending;
  message = text "Waiting for recovery Cluster to be created";
  operator_restore_ref = none;
  started_at = none;
  completed_at = none;
})
sync_restore (failed e) = err e
sync_restore (found cluster) =
    ok (restore_status cluster (find_status_condition cluster.status.conditions "Ready"))
