-- ===== src/Provider/Deletion.antt =====
-- internal/provider/backup_delete.go, and `CleanupBackup` of internal/provider/backup.go: the Job that
-- deletes a backup's data, and the deletion of the backup. The calls of the Kubernetes API are
-- parameters.
pub mod Job
pub mod Laws
pub mod Lifecycle
pub mod Fair
pub mod Completes
use provider_cloudnative_pg.Common.{
  String, Bool, true, false, not, ◌&&◌, ◌||◌, Option, none, some, List, [], ◌∷◌, ◌==◌, is_empty,
  any, Result, ok, err, Got, found, not_found, failed, if◌then◌else◌,
}
use provider_cloudnative_pg.Barman.Types.{
  Backup, BackupPhase, BackupStorage, CnpgBackup, ObjectStore, S3Spec,
}
use provider_cloudnative_pg.Provider.Types
use provider_cloudnative_pg.Provider.Types.{JobCondition}
use provider_cloudnative_pg.Provider.Deletion.Job.{
  Error, not_s3, get_object_store_failed, get_storage_failed, set_owner_failed, create_failed,
  get_job_failed, not_owned, job_failed, get_backup_failed, delete_failed, DeletionJob,
  build_backup_deletion_job, backup_deletion_job_name,
}

pub data Created : Type 0 where
  created already_exists : Created
  refused : String → Created

pub record Client : Type 1 where
  pub State : Type 0
  pub get_cnpg_backup : State → String → Got CnpgBackup
  pub get_object_store : State → String → Got ObjectStore
  pub backup_storage : State → String → Result String BackupStorage
  pub get_job : State → String → Got Types.Job
  pub create_job : DeletionJob → State → Created × State
  -- `none` is the nil error.
  pub delete_cnpg_backup : String → State → Option String × State
  pub set_controller_reference : Backup → DeletionJob → Result String DeletionJob
  pub is_controlled_by : Types.Job → Backup → Bool
  -- `AppendCloudProviderOptionsFromConfiguration` of barman-cloud.
  pub append_options : List String → ObjectStore → Result String (List String)

has_condition : String → List JobCondition → Bool
has_condition type_name conditions =
    any (λ c. (c.type_name == type_name) && (c.status == "True")) conditions

unfoldable pub job_complete : Types.Job → Bool
unfolding has_condition
job_complete job = has_condition "Complete" job.conditions

unfoldable pub is_job_failed : Types.Job → Bool
unfolding has_condition
is_job_failed job = has_condition "Failed" job.conditions

unfoldable pub deletion_job_done : Types.Job → Result Error Bool
unfolding is_job_failed job_complete
deletion_job_done job =
    if is_job_failed job then err (job_failed job.name) else ok (job_complete job)

abbrev pub in_progress : BackupPhase → Bool
in_progress BackupPhase.pending = true
in_progress BackupPhase.started = true
in_progress BackupPhase.running = true
in_progress BackupPhase.finalizing = true
in_progress _ = false

module _ (c : Client) (backup : Backup) where
  open c use {State}

  -- The error of a read that has none for a missing object.
  abbrev pub read : {A : Type 0} → (String → Error) → Got A → Result Error A
  read f (found a) = ok a
  read f not_found = err (f "not found")
  read f (failed e) = err (f e)

  abbrev pub after_create : Created → Result Error Bool
  after_create (refused e) = err (create_failed e)
  after_create _ = ok false

  unfoldable pub create_owned : Result String DeletionJob → State → Result Error Bool × State
  create_owned (err e) s = (err (set_owner_failed e), s)
  create_owned (ok owned) s = (after_create (c.create_job owned s).0, (c.create_job owned s).1)

  unfoldable pub create_built : Result Error DeletionJob → State → Result Error Bool × State
  unfolding create_owned
  create_built (err e) s = (err e, s)
  create_built (ok job) s = create_owned (c.set_controller_reference backup job) s

  -- The Job does not exist.
  unfoldable pub create_deletion_job :
      CnpgBackup → ObjectStore → Option S3Spec → State → Result Error Bool × State
  unfolding create_built
  create_deletion_job b store s3 s =
      create_built (build_backup_deletion_job c.append_options backup b store s3) s

  -- From the read of the Job on.
  unfoldable pub with_job :
      Got Types.Job → CnpgBackup → ObjectStore → Option S3Spec → State → Result Error Bool × State
  unfolding create_deletion_job deletion_job_done
  with_job not_found b store s3 s = create_deletion_job b store s3 s
  with_job (failed e) b store s3 s = (err (get_job_failed e), s)
  with_job (found job) b store s3 s =
      if not (c.is_controlled_by job backup)
      then (err (not_owned (backup_deletion_job_name backup.name) backup.name), s)
      else (deletion_job_done job, s)

  unfoldable pub with_storage :
      Result Error ObjectStore
      → Result String BackupStorage
      → CnpgBackup
      → State
      → Result Error Bool × State
  unfolding with_job
  with_storage (err e) storage b s = (err e, s)
  with_storage (ok store) (err e) b s = (err (get_storage_failed e), s)
  with_storage (ok store) (ok storage) b s = elim storage.s3 [
    | none ↦ (err (not_s3 storage.name), s)
    | some s3 ↦ with_job (c.get_job s (backup_deletion_job_name backup.name)) b store (some s3) s
  ]

  unfoldable pub delete_backup_data : CnpgBackup → State → Result Error Bool × State
  unfolding with_storage
  delete_backup_data b s =
      if in_progress b.status.phase
      then (ok false, s)
      else if is_empty b.status.backup_id
      then (ok true, s)
      else with_storage (read get_object_store_failed (c.get_object_store s backup.storage_ref))
          (c.backup_storage s backup.storage_ref) b s

  -- The end of `CleanupBackup`.
  unfoldable pub delete_resource : CnpgBackup → State → Result Error Bool × State
  delete_resource b s =
      if b.deleting then (ok false, s) else elim (c.delete_cnpg_backup backup.name s).0 [
        | none ↦ (ok false, (c.delete_cnpg_backup backup.name s).1)
        | some e ↦ (err (delete_failed e), (c.delete_cnpg_backup backup.name s).1)
      ]

  abbrev pub after_data : CnpgBackup → Result Error Bool × State → Result Error Bool × State
  after_data b (err e, s) = (err e, s)
  after_data b (ok false, s) = (ok false, s)
  after_data b (ok true, s) = delete_resource b s

  -- `CleanupBackup` without the CloudNativePG Backup.
  unfoldable pub cleanup_absent : Bool → Got Types.Job → Result Error Bool
  unfolding deletion_job_done
  cleanup_absent true job = ok true
  cleanup_absent false not_found = ok true
  cleanup_absent false (failed e) = err (get_job_failed e)
  cleanup_absent false (found job) = deletion_job_done job

  -- `CleanupBackup` with the CloudNativePG Backup; the flag is the policy "Retain".
  unfoldable pub cleanup_found : Bool → CnpgBackup → State → Result Error Bool × State
  unfolding delete_backup_data delete_resource
  cleanup_found true b s = delete_resource b s
  cleanup_found false b s = after_data b (delete_backup_data b s)

  unfoldable pub cleanup_from : Got CnpgBackup → State → Result Error Bool × State
  unfolding cleanup_absent cleanup_found
  cleanup_from not_found s =
      (cleanup_absent backup.retain (c.get_job s (backup_deletion_job_name backup.name)), s)
  cleanup_from (failed e) s = (err (get_backup_failed e), s)
  cleanup_from (found b) s = cleanup_found backup.retain b s

  -- `CleanupBackup`; `ok true` says that the cleanup is complete.
  unfoldable pub cleanup_backup : State → Result Error Bool × State
  unfolding cleanup_from
  cleanup_backup s = cleanup_from (c.get_cnpg_backup s backup.name) s
