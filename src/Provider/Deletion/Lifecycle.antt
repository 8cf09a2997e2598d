-- ===== src/Provider/Deletion/Lifecycle.antt =====
-- The runs of `CleanupBackup` of internal/provider/backup.go between the steps of others: the Job's pod,
-- CloudNativePG, and the garbage collector.
use provider_cloudnative_pg.Common.{
  Bool, true, false, ◌≡◌, sym, ◌∙◌, subst, ◌⊎◌, inl, inr, found, not_found, ok,
}
use provider_cloudnative_pg.Barman.Types.{Backup, CnpgBackup}
use provider_cloudnative_pg.Provider.Types
use provider_cloudnative_pg.Provider.Deletion.Job.{DeletionJob, backup_deletion_job_name}
use provider_cloudnative_pg.Provider.Deletion.{
  Client, job_complete, is_job_failed, in_progress, cleanup_backup,
}
use provider_cloudnative_pg.Provider.Deletion.Laws.{
  Settled, no_data, deleted, Written, nothing, job, deletion, cleanup_backup-Written,
  cleanup_backup-done,
}

-- The CloudNativePG Backup is gone or on its way out.
abbrev pub Released : (c : Client) → Backup → c.State → Type 0
Released c backup s =
    (c.get_cnpg_backup s backup.name ≡ not_found)
    ⊎ ((b : CnpgBackup) × (c.get_cnpg_backup s backup.name ≡ found b) × (b.deleting ≡ true))

-- What the documentation of Kubernetes, CloudNativePG and barman-cloud has of the backup's data.
pub record World (c : Client) (backup : Backup) : Type 1 where
  -- A step of anyone but the provider.
  pub Move : c.State → c.State → Type 0
  -- Whether the object store holds data of the backup that a Barman backup ID addresses.
  pub has_data : c.State → Bool
  -- A backup that is no longer in progress and has no ID has no data that one addresses.
  pub no_id :
      (b : CnpgBackup) (s : c.State)
      → c.get_cnpg_backup s backup.name ≡ found b
      → in_progress b.status.phase ≡ false
      → b.status.backup_id ≡ ""
      → has_data s ≡ false
  -- A deletion Job that is complete has deleted the data.
  pub job_deleted :
      (job : Types.Job) (s : c.State)
      → c.get_job s (backup_deletion_job_name backup.name) ≡ found job
      → c.is_controlled_by job backup ≡ true
      → is_job_failed job ≡ false
      → job_complete job ≡ true
      → has_data s ≡ false
  -- The writes of the provider touch no data, and a new Job leaves the Backup as it is.
  pub data-create : (job : DeletionJob) (s : c.State) → has_data (c.create_job job s).1 ≡ has_data s
  pub data-delete : (s : c.State) → has_data (c.delete_cnpg_backup backup.name s).1 ≡ has_data s
  pub backup-create :
      (job : DeletionJob) (s : c.State)
      → c.get_cnpg_backup (c.create_job job s).1 backup.name ≡ c.get_cnpg_backup s backup.name
  -- Someone else deletes the CloudNativePG Backup only with no data left, as the native retention does;
  -- and no data comes once it is released.
  pub move-Released :
      (s t : c.State) → Move s t → Released c backup t → Released c backup s ⊎ (has_data t ≡ false)
  pub move-data :
      (s t : c.State) → Move s t → Released c backup s → has_data s ≡ false → has_data t ≡ false

module _ (c : Client) (backup : Backup) (w : World c backup) where
  -- A run of `CleanupBackup`, or a step of someone else.
  pub data Step : c.State → c.State → Type 0 where
    run : (s : c.State) → Step s (cleanup_backup c backup s).1
    move : {s t : c.State} → w.Move s t → Step s t

  pub data Reach (s : c.State) : c.State → Type 0 where
    here : Reach s s
    next : {t u : c.State} → Reach s t → Step t u → Reach s u

  -- The Backup is released only without data.
  abbrev pub IsSafe : c.State → Type 0
  IsSafe s = Released c backup s → w.has_data s ≡ false

  Written-IsSafe :
      (s t : c.State) → backup.retain ≡ false → Written c backup s t → IsSafe s → IsSafe t
  Written-IsSafe s t lost (nothing same) safe = subst IsSafe (sym same) safe
  Written-IsSafe s t lost (job b j there _ missing same) safe =
      subst IsSafe (sym same) (λ r. w.data-create j s ∙ safe (kept j r))
    where
      kept : (j : DeletionJob) → Released c backup (c.create_job j s).1 → Released c backup s
      kept j (inl gone) = inl (sym (w.backup-create j s) ∙ gone)
      kept j (inr (b, e, d)) = inr (b, sym (w.backup-create j s) ∙ e, d)
  Written-IsSafe s t lost (deletion b there _ may same) safe =
      subst IsSafe (sym same) (λ _. w.data-delete s ∙ clean may)
    where
      clean :
          (backup.retain ≡ true) ⊎ ((in_progress b.status.phase ≡ false) × Settled c backup b s)
          → w.has_data s ≡ false
      clean (inl kept) = cc
      clean (inr (idle, no_data e)) = w.no_id b s there idle e
      clean (inr (idle, deleted j e own fine complete)) = w.job_deleted j s e own fine complete

  Step-IsSafe : {s t : c.State} → backup.retain ≡ false → Step s t → IsSafe s → IsSafe t
  Step-IsSafe lost (run s) safe =
      Written-IsSafe s (cleanup_backup c backup s).1 lost (cleanup_backup-Written c backup s) safe
  Step-IsSafe lost (move {s} {t} m) safe = λ r. elim (w.move-Released s t m r) [
    | inl before ↦ w.move-data s t m before (safe before)
    | inr no_data_left ↦ no_data_left
  ]

  Reach-IsSafe : {s t : c.State} → backup.retain ≡ false → Reach s t → IsSafe s → IsSafe t
  Reach-IsSafe lost here safe = safe
  Reach-IsSafe lost (next r st) safe = Step-IsSafe lost st (Reach-IsSafe lost r safe)

  -- Unless the policy retains the data: in every state that runs of `CleanupBackup` and steps of others
  -- lead to, in any order, from a safe one, the CloudNativePG Backup is gone or on its way out only once no
  -- data is left that a Barman backup ID addresses, and `CleanupBackup` says that it is complete only
  -- then. Others may delete the CloudNativePG Backup, but only with no such data left, as the native
  -- retention does; a backup that ended without an ID has no such data, and a complete deletion Job has
  -- deleted it.
  pub cleanup_backup-leaves_no_data :
      {s t : c.State}
      → backup.retain ≡ false
      → IsSafe s
      → Reach s t
      → IsSafe t × ((cleanup_backup c backup t).0 ≡ ok true → w.has_data t ≡ false)
  cleanup_backup-leaves_no_data {s} {t} lost safe r =
      let safe' = Reach-IsSafe lost r safe in
      (safe', λ h. safe' (inl (cleanup_backup-done c backup t h).0))
