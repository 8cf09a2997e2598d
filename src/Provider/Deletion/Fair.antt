-- ===== src/Provider/Deletion/Fair.antt =====
-- What the runs of `CleanupBackup` of internal/provider/backup.go rely on to reach their end: that the
-- controllers of Kubernetes and CloudNativePG do their work between them.
use provider_cloudnative_pg.Common.{
  String, is_empty, true, false, Option, some, ◌≡◌, ◌⊎◌, List, Result, ok, arith, found, not_found,
}
use provider_cloudnative_pg.Barman.Types.{Backup, BackupStorage, CnpgBackup, ObjectStore, S3Spec}
use provider_cloudnative_pg.Provider.Types
use provider_cloudnative_pg.Provider.Deletion.Job.{
  deletion_job, DeletionJob, backup_deletion_job_name, build_backup_deletion_job,
}
use provider_cloudnative_pg.Provider.Deletion.{Client, job_complete, is_job_failed, in_progress}
use provider_cloudnative_pg.Provider.Deletion.Lifecycle.{Released}

pub build-name :
    (append : List String → ObjectStore → Result String (List String)) (backup : Backup)
    (b : CnpgBackup) (store : ObjectStore) (s3 : Option S3Spec) (built : DeletionJob)
    → build_backup_deletion_job append backup b store s3 ≡ ok built
    → built.name ≡ backup_deletion_job_name backup.name
unfolding build_backup_deletion_job deletion_job
build-name append backup b store s3 built h = ground arith

-- A deletion Job of the backup that has not failed.
pub record Sound (c : Client) (backup : Backup) (s : c.State) (job : Types.Job) : Type 0 where
  pub there : c.get_job s (backup_deletion_job_name backup.name) ≡ found job
  pub owned : c.is_controlled_by job backup ≡ true
  pub fine : is_job_failed job ≡ false

-- What Kubernetes and CloudNativePG do, as their documentation has it, for a deletion that nothing
-- hinders: `tidy` is what they do between two runs of `CleanupBackup`.
pub record Fair (c : Client) (backup : Backup) : Type 0 where
  pub tidy : c.State → c.State
  -- The deletion Job, if there is one, completes.
  pub tidy-job :
      (s : c.State) (job : Types.Job)
      → Sound c backup s job
      → (j : Types.Job) × Sound c backup (tidy s) j × (job_complete j ≡ true)
  pub tidy-no_job :
      (s : c.State)
      → c.get_job s (backup_deletion_job_name backup.name) ≡ not_found
      → c.get_job (tidy s) (backup_deletion_job_name backup.name) ≡ not_found
  -- A CloudNativePG Backup that is marked for deletion goes away, and no other changes.
  pub tidy-Released :
      (s : c.State) → Released c backup s → c.get_cnpg_backup (tidy s) backup.name ≡ not_found
  pub tidy-backup :
      (s : c.State) (b : CnpgBackup)
      → c.get_cnpg_backup s backup.name ≡ found b
      → b.deleting ≡ false
      → c.get_cnpg_backup (tidy s) backup.name ≡ found b
  pub tidy-store :
      (s : c.State) (n : String) → c.get_object_store (tidy s) n ≡ c.get_object_store s n
  pub tidy-storage : (s : c.State) (n : String) → c.backup_storage (tidy s) n ≡ c.backup_storage s n
  -- The deletion of a CloudNativePG Backup marks it, or removes it at once.
  pub delete-Released :
      (s : c.State) (b : CnpgBackup)
      → c.get_cnpg_backup s backup.name ≡ found b
      → b.deleting ≡ false
      → Released c backup (c.delete_cnpg_backup backup.name s).1
  pub job-delete :
      (s : c.State) (n : String)
      → c.get_job (c.delete_cnpg_backup backup.name s).1 n ≡ c.get_job s n
  -- A new Job under the name is there and owned by the backup, and nothing else changes.
  pub create-Sound :
      (built owned : DeletionJob) (s : c.State)
      → c.set_controller_reference backup built ≡ ok owned
      → built.name ≡ backup_deletion_job_name backup.name
      → c.get_job s (backup_deletion_job_name backup.name) ≡ not_found
      → (j : Types.Job) × Sound c backup (c.create_job owned s).1 j
  pub backup-create :
      (job : DeletionJob) (s : c.State) (n : String)
      → c.get_cnpg_backup (c.create_job job s).1 n ≡ c.get_cnpg_backup s n
  pub store-create :
      (job : DeletionJob) (s : c.State) (n : String)
      → c.get_object_store (c.create_job job s).1 n ≡ c.get_object_store s n
  pub storage-create :
      (job : DeletionJob) (s : c.State) (n : String)
      → c.backup_storage (c.create_job job s).1 n ≡ c.backup_storage s n

-- What the deletion of the data of a backup needs: its ObjectStore, an S3 storage, and a Job that builds.
pub record Deletable (c : Client) (backup : Backup) (b : CnpgBackup) (s : c.State) : Type 0 where
  pub store : ObjectStore
  pub storage : BackupStorage
  pub s3 : S3Spec
  pub built : DeletionJob
  pub owned : DeletionJob
  pub has_store : c.get_object_store s backup.storage_ref ≡ found store
  pub has_storage : c.backup_storage s backup.storage_ref ≡ ok storage
  pub is_s3 : storage.s3 ≡ some s3
  pub builds : build_backup_deletion_job c.append_options backup b store (some s3) ≡ ok built
  pub owns : c.set_controller_reference backup built ≡ ok owned

-- A backup whose cleanup nothing hinders: it is gone, its data is retained, it has no data, or its data can
-- be deleted, and no Job stands in the way.
pub record Ready (c : Client) (backup : Backup) (s : c.State) : Type 0 where
  pub job :
      (c.get_job s (backup_deletion_job_name backup.name) ≡ not_found)
      ⊎ ((j : Types.Job) × Sound c backup s j)
  pub backup_there :
      (c.get_cnpg_backup s backup.name ≡ not_found)
      ⊎ ((b : CnpgBackup) × (c.get_cnpg_backup s backup.name ≡ found b)
          × ((backup.retain ≡ true)
              ⊎ ((in_progress b.status.phase ≡ false)
                  × ((b.status.backup_id ≡ "")
                      ⊎ ((is_empty b.status.backup_id ≡ false) × Deletable c backup b s)))))
