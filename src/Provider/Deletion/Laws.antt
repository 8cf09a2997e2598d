-- ===== src/Provider/Deletion/Laws.antt =====
-- `CleanupBackup` and `deleteBackupData` of internal/provider: what they write, and when they are done.
use provider_cloudnative_pg.Common.{
  String, Bool, true, false, Option, none, some, Option-cases, ◌≡◌, ◌≢◌, refl, ◌⊎◌, inl, inr,
  Bool-cases, eq_iff, is_empty, Result, ok, err, Got, found, not_found, failed,
}
use provider_cloudnative_pg.Barman.Types.{Backup, BackupStorage, CnpgBackup, ObjectStore, S3Spec}
use provider_cloudnative_pg.Provider.Types
use provider_cloudnative_pg.Provider.Deletion.Job.{
  Error, DeletionJob, backup_deletion_job_name, build_backup_deletion_job, get_object_store_failed,
}
use provider_cloudnative_pg.Provider.Deletion.{
  Client, Created, created, already_exists, refused, job_complete, is_job_failed, deletion_job_done,
  in_progress, create_owned, create_built, create_deletion_job, with_job, with_storage,
  delete_backup_data, delete_resource, after_data, after_create, read, cleanup_absent,
  cleanup_found, cleanup_from, cleanup_backup,
}

module _ (c : Client) (backup : Backup) where
  open c use {State}

  -- Why the data of a backup needs no deletion any more.
  pub data Settled (b : CnpgBackup) (s : State) : Type 0 where
    no_data : b.status.backup_id ≡ "" → Settled b s
    deleted :
        (job : Types.Job)
        → c.get_job s (backup_deletion_job_name backup.name) ≡ found job
        → c.is_controlled_by job backup ≡ true
        → is_job_failed job ≡ false
        → job_complete job ≡ true
        → Settled b s

  -- The state that a run of `deleteBackupData` leaves, with its result.
  data Outcome (b : CnpgBackup) (s : State) (r : Result Error Bool × State) : Type 0 where
    unchanged :
        r.1 ≡ s
        → (r.0 ≡ ok true → (in_progress b.status.phase ≡ false) × Settled b s)
        → Outcome b s r
    job_made :
        (job : DeletionJob)
        → c.get_job s (backup_deletion_job_name backup.name) ≡ not_found
        → r.1 ≡ (c.create_job job s).1
        → r.0 ≢ ok true
        → Outcome b s r

  done_complete :
      (job : Types.Job)
      → deletion_job_done job ≡ ok true
      → (is_job_failed job ≡ false) × (job_complete job ≡ true)
  unfolding deletion_job_done
  done_complete job h = elim (Bool-cases (is_job_failed job)) [
    | inl t ↦ cc (rw (t, deletion_job_done) at h)
    | inr f ↦ (f, cc (rw (f, deletion_job_done) at h))
  ]

  not_done : (r : Created) → after_create c backup r ≢ ok true
  not_done created h = cc
  not_done already_exists h = cc
  not_done (refused e) h = cc

  owned-Outcome :
      (b : CnpgBackup) (s : State) (job : Result String DeletionJob)
      → c.get_job s (backup_deletion_job_name backup.name) ≡ not_found
      → Outcome b s (create_owned c backup job s)
  unfolding create_owned
  owned-Outcome b s (err e) missing = unchanged refl (λ h. cc)
  owned-Outcome b s (ok job) missing = job_made job missing refl (not_done (c.create_job job s).0)

  built-Outcome :
      (b : CnpgBackup) (s : State) (job : Result Error DeletionJob)
      → c.get_job s (backup_deletion_job_name backup.name) ≡ not_found
      → Outcome b s (create_built c backup job s)
  unfolding create_built
  built-Outcome b s (err e) missing = unchanged refl (λ h. cc)
  built-Outcome b s (ok job) missing =
      owned-Outcome b s (c.set_controller_reference backup job) missing

  job-Outcome :
      (b : CnpgBackup) (store : ObjectStore) (s3 : Option S3Spec) (s : State) (got : Got Types.Job)
      → in_progress b.status.phase ≡ false
      → c.get_job s (backup_deletion_job_name backup.name) ≡ got
      → Outcome b s (with_job c backup got b store s3 s)
  unfolding with_job create_deletion_job
  job-Outcome b store s3 s not_found idle e =
      built-Outcome b s (build_backup_deletion_job c.append_options backup b store s3) e
  job-Outcome b store s3 s (failed e') idle e = unchanged refl (λ h. cc)
  job-Outcome b store s3 s (found job) idle e = elim (Bool-cases (c.is_controlled_by job backup)) [
    | inr other ↦ rw (other, with_job) (unchanged refl (λ h. cc))
    | inl own ↦
        rw (own, with_job)
          (unchanged refl (λ h. let d = done_complete job h in (idle, deleted job e own d.0 d.1)))
  ]

  storage-Outcome :
      (b : CnpgBackup) (store : Result Error ObjectStore) (storage : Result String BackupStorage)
      (s : State)
      → in_progress b.status.phase ≡ false
      → Outcome b s (with_storage c backup store storage b s)
  unfolding with_storage
  storage-Outcome b (err e) storage s idle = unchanged refl (λ h. cc)
  storage-Outcome b (ok store) (err e) s idle = unchanged refl (λ h. cc)
  storage-Outcome b (ok store) (ok storage) s idle = go storage.s3 refl
    where
      go :
          (s3 : Option S3Spec)
          → storage.s3 ≡ s3
          → Outcome b s (with_storage c backup (ok store) (ok storage) b s)
      go none e = rw (e, with_storage) (unchanged refl (λ h. cc))
      go (some spec) e =
          rw (e, with_storage)
            (job-Outcome b store (some spec) s (c.get_job s (backup_deletion_job_name backup.name))
              idle refl)

  data-Outcome : (b : CnpgBackup) (s : State) → Outcome b s (delete_backup_data c backup b s)
  unfolding delete_backup_data
  data-Outcome b s = elim (Bool-cases (in_progress b.status.phase)) [
    | inl busy ↦ rw (busy, delete_backup_data) (unchanged refl (λ h. cc))
    | inr idle ↦ elim (Bool-cases (is_empty b.status.backup_id)) [
      | inl t ↦
          rw (idle, t, delete_backup_data)
            (unchanged refl (λ h. (idle, no_data ((eq_iff b.status.backup_id "").0 t))))
      | inr f ↦
          rw (idle, f, delete_backup_data)
            (storage-Outcome b
              (read c backup get_object_store_failed (c.get_object_store s backup.storage_ref))
              (c.backup_storage s backup.storage_ref) s idle)
    ]
  ]

  -- What `CleanupBackup` may write: nothing; a deletion Job, where there is none; or the deletion of the
  -- CloudNativePG Backup, where its data is kept on purpose, was never there, or is deleted.
  pub data Written (s s' : State) : Type 0 where
    nothing : s' ≡ s → Written s s'
    job :
        (b : CnpgBackup) (job : DeletionJob)
        → c.get_cnpg_backup s backup.name ≡ found b
        → backup.retain ≡ false
        → c.get_job s (backup_deletion_job_name backup.name) ≡ not_found
        → s' ≡ (c.create_job job s).1
        → Written s s'
    deletion :
        (b : CnpgBackup)
        → c.get_cnpg_backup s backup.name ≡ found b
        → b.deleting ≡ false
        → (backup.retain ≡ true) ⊎ ((in_progress b.status.phase ≡ false) × Settled b s)
        → s' ≡ (c.delete_cnpg_backup backup.name s).1
        → Written s s'

  resource-Written :
      (b : CnpgBackup) (s : State)
      → c.get_cnpg_backup s backup.name ≡ found b
      → (backup.retain ≡ true) ⊎ ((in_progress b.status.phase ≡ false) × Settled b s)
      → Written s (delete_resource c backup b s).1
  unfolding delete_resource
  resource-Written b s there may = elim (Bool-cases b.deleting) [
    | inl t ↦ rw (t, delete_resource) (nothing refl)
    | inr f ↦ elim (Option-cases (c.delete_cnpg_backup backup.name s).0) [
      | inl good ↦ rw (f, good, delete_resource) (deletion b there f may refl)
      | inr (e, bad) ↦ rw (f, bad, delete_resource) (deletion b there f may refl)
    ]
  ]

  after-Written :
      (b : CnpgBackup) (s : State) (r : Result Error Bool × State)
      → c.get_cnpg_backup s backup.name ≡ found b
      → backup.retain ≡ false
      → Outcome b s r
      → Written s (after_data c backup b r).1
  after-Written b s (err e, s') there lost (unchanged same _) = nothing same
  after-Written b s (err e, s') there lost (job_made j missing same _) =
      job b j there lost missing same
  after-Written b s (ok false, s') there lost (unchanged same _) = nothing same
  after-Written b s (ok false, s') there lost (job_made j missing same _) =
      job b j there lost missing same
  after-Written b s (ok true, s') there lost (unchanged same settled) =
      rw same (resource-Written b s there (inr (settled refl)))
  after-Written b s (ok true, s') there lost (job_made j missing same not_true) =
      absurd (not_true refl)

  found-Written :
      (b : CnpgBackup) (s : State) (retain : Bool)
      → c.get_cnpg_backup s backup.name ≡ found b
      → backup.retain ≡ retain
      → Written s (cleanup_found c backup retain b s).1
  unfolding cleanup_found
  found-Written b s true there t = resource-Written b s there (inl t)
  found-Written b s false there f =
      after-Written b s (delete_backup_data c backup b s) there f (data-Outcome b s)

  -- `CleanupBackup` writes at most one thing. It makes a deletion Job only where there is none, and it
  -- deletes the CloudNativePG Backup only where the policy retains the data, or the backup is not in
  -- progress and either has no data or has a deletion Job of its own that is complete and not failed.
  pub cleanup_backup-Written : (s : State) → Written s (cleanup_backup c backup s).1
  unfolding cleanup_backup cleanup_from
  cleanup_backup-Written s = go (c.get_cnpg_backup s backup.name) refl
    where
      go :
          (got : Got CnpgBackup)
          → c.get_cnpg_backup s backup.name ≡ got
          → Written s (cleanup_from c backup got s).1
      go not_found e = nothing refl
      go (failed e') e = nothing refl
      go (found b) e = found-Written b s backup.retain e refl

  absent-done :
      (retain : Bool) (got : Got Types.Job)
      → cleanup_absent c backup retain got ≡ ok true
      → (retain ≡ true)
        ⊎ ((got ≡ not_found) ⊎ ((j : Types.Job) × (got ≡ found j) × (job_complete j ≡ true)))
  unfolding cleanup_absent
  absent-done true got h = inl refl
  absent-done false not_found h = inr (inl refl)
  absent-done false (failed e) h = cc
  absent-done false (found j) h = inr (inr (j, refl, (done_complete j h).1))

  resource-open : (b : CnpgBackup) (s : State) → (delete_resource c backup b s).0 ≢ ok true
  unfolding delete_resource
  resource-open b s h = elim (Bool-cases b.deleting) [
    | inl t ↦ cc (rw (t, delete_resource) at h)
    | inr f ↦ elim (Option-cases (c.delete_cnpg_backup backup.name s).0) [
      | inl good ↦ cc (rw (f, good, delete_resource) at h)
      | inr (e, bad) ↦ cc (rw (f, bad, delete_resource) at h)
    ]
  ]

  after-open :
      (b : CnpgBackup) (r : Result Error Bool × State) → (after_data c backup b r).0 ≢ ok true
  after-open b (err e, s) h = cc
  after-open b (ok false, s) h = cc
  after-open b (ok true, s) h = resource-open b s h

  found-open :
      (b : CnpgBackup) (retain : Bool) (s : State) → (cleanup_found c backup retain b s).0 ≢ ok true
  unfolding cleanup_found
  found-open b true s h = resource-open b s h
  found-open b false s h = after-open b (delete_backup_data c backup b s) h

  -- `CleanupBackup` is complete only once the CloudNativePG Backup is gone, and, unless the data is
  -- retained, the deletion Job is complete or was never made.
  pub cleanup_backup-done :
      (s : State)
      → (cleanup_backup c backup s).0 ≡ ok true
      → (c.get_cnpg_backup s backup.name ≡ not_found)
        × ((backup.retain ≡ true)
            ⊎ ((c.get_job s (backup_deletion_job_name backup.name) ≡ not_found)
                ⊎ ((j : Types.Job) × (c.get_job s (backup_deletion_job_name backup.name) ≡ found j)
                    × (job_complete j ≡ true))))
  unfolding cleanup_backup cleanup_from
  cleanup_backup-done s h = go (c.get_cnpg_backup s backup.name) refl h
    where
      go :
          (got : Got CnpgBackup)
          → c.get_cnpg_backup s backup.name ≡ got
          → (cleanup_from c backup got s).0 ≡ ok true
          → (c.get_cnpg_backup s backup.name ≡ not_found)
            × ((backup.retain ≡ true)
                ⊎ ((c.get_job s (backup_deletion_job_name backup.name) ≡ not_found)
                    ⊎ ((j : Types.Job) × (c.get_job s (backup_deletion_job_name backup.name)
                          ≡ found j)
                        × (job_complete j ≡ true))))
      go not_found e h' =
          (e, absent-done backup.retain (c.get_job s (backup_deletion_job_name backup.name)) h')
      go (failed e') e h' = cc
      go (found b) e h' = absurd (found-open b backup.retain s h')
