-- ===== src/Provider/Deletion/Completes.antt =====
-- The runs of `CleanupBackup` of internal/provider/backup.go reach their end, if the controllers of
-- Kubernetes and CloudNativePG do their work between them.
use provider_cloudnative_pg.Common.{
  String, is_empty, Bool, true, false, Bool-cases, Option, some, Option-cases, ◌≡◌, refl, sym, ◌∙◌,
  ap, subst, ◌⊎◌, inl, inr, eq_iff, ok, found, not_found,
}
use provider_cloudnative_pg.Barman.Types.{Backup, CnpgBackup, ObjectStore, S3Spec}
use provider_cloudnative_pg.Provider.Types
use provider_cloudnative_pg.Provider.Deletion.Job.{backup_deletion_job_name}
use provider_cloudnative_pg.Provider.Deletion.{
  Client, job_complete, in_progress, deletion_job_done, cleanup_backup, cleanup_from, cleanup_found,
  cleanup_absent, after_data, delete_resource, delete_backup_data, with_storage, with_job,
  create_deletion_job, create_built, create_owned, after_create, Created, created, already_exists,
  refused,
}
use provider_cloudnative_pg.Provider.Deletion.Lifecycle.{Released}
use provider_cloudnative_pg.Provider.Deletion.Fair.{build-name, Sound, Fair, Deletable, Ready}

module _ (c : Client) (backup : Backup) (f : Fair c backup) where
  -- A run of `CleanupBackup`, and what the others do after it.
  abbrev pub round : c.State → c.State
  round s = f.tidy (cleanup_backup c backup s).1

  -- The CloudNativePG Backup is gone, and its Job is complete or was never made.
  record Gone (s : c.State) : Type 0 where
    backup_gone : c.get_cnpg_backup s backup.name ≡ not_found
    job_done :
        (c.get_job s (backup_deletion_job_name backup.name) ≡ not_found)
        ⊎ ((j : Types.Job) × Sound c backup s j × (job_complete j ≡ true))

  absent_state :
      (s : c.State)
      → c.get_cnpg_backup s backup.name ≡ not_found
      → (cleanup_backup c backup s).1 ≡ s
  unfolding cleanup_backup cleanup_from
  absent_state s gone = rw (gone, cleanup_backup) refl

  absent_done :
      (retain : Bool) (s : c.State)
      → Gone s
      → cleanup_absent c backup retain (c.get_job s (backup_deletion_job_name backup.name))
        ≡ ok true
  unfolding cleanup_absent deletion_job_done
  absent_done true s g = refl
  absent_done false s g = elim g.job_done [
    | inl none_made ↦ rw (none_made, cleanup_absent) refl
    | inr (j, sound, complete) ↦ rw (sound.there, sound.fine, complete, cleanup_absent) refl
  ]

  gone-done : (s : c.State) → Gone s → (cleanup_backup c backup s).0 ≡ ok true
  unfolding cleanup_backup cleanup_from
  gone-done s g = rw (g.backup_gone, cleanup_backup) (absent_done backup.retain s g)

  abbrev JobOk : c.State → Type 0
  JobOk s =
      (c.get_job s (backup_deletion_job_name backup.name) ≡ not_found)
      ⊎ ((j : Types.Job) × Sound c backup s j)

  -- Once the Backup is released, the others finish.
  released-Gone : (s : c.State) → Released c backup s → JobOk s → Gone (f.tidy s)
  released-Gone s r job = record { backup_gone = f.tidy-Released s r; job_done = finished job }
    where
      finished :
          JobOk s
          → (c.get_job (f.tidy s) (backup_deletion_job_name backup.name) ≡ not_found)
            ⊎ ((j : Types.Job) × Sound c backup (f.tidy s) j × (job_complete j ≡ true))
      finished (inl none_made) = inl (f.tidy-no_job s none_made)
      finished (inr (j, sound)) = inr (f.tidy-job s j sound)

  job-delete-Ok : (s : c.State) → JobOk s → JobOk (c.delete_cnpg_backup backup.name s).1
  job-delete-Ok s (inl none_made) = inl (f.job-delete s _ ∙ none_made)
  job-delete-Ok s (inr (j, sound)) =
      inr (
        j,
        record { there = f.job-delete s _ ∙ sound.there; owned = sound.owned; fine = sound.fine },
      )

  -- The run that gets to the deletion of the CloudNativePG Backup is the last but one.
  resource-Gone :
      (b : CnpgBackup) (s : c.State)
      → c.get_cnpg_backup s backup.name ≡ found b
      → JobOk s
      → Gone (f.tidy (delete_resource c backup b s).1)
  unfolding delete_resource
  resource-Gone b s there job = elim (Bool-cases b.deleting) [
    | inl marked ↦ rw (marked, delete_resource) (released-Gone s (inr (b, there, marked)) job)
    | inr kept ↦
        let after = c.delete_cnpg_backup backup.name s in
        let gone = released-Gone after.1 (f.delete-Released s b there kept) (job-delete-Ok s job) in
        elim (Option-cases after.0) [
          | inl fine ↦ rw (kept, fine, delete_resource) gone
          | inr (e, bad) ↦ rw (kept, bad, delete_resource) gone
        ]
  ]

  -- The data can be deleted.
  record Held (b : CnpgBackup) (s : c.State) : Type 0 where
    there : c.get_cnpg_backup s backup.name ≡ found b
    idle : in_progress b.status.phase ≡ false
    has_id : is_empty b.status.backup_id ≡ false
    deletable : Deletable c backup b s

  -- The deletion Job is complete, and the CloudNativePG Backup is still there.
  record Half (s : c.State) : Type 0 where
    b : CnpgBackup
    held : Held b s
    job : Types.Job
    sound : Sound c backup s job
    complete : job_complete job ≡ true

  run_found :
      (b : CnpgBackup) (s : c.State)
      → c.get_cnpg_backup s backup.name ≡ found b
      → backup.retain ≡ false
      → cleanup_backup c backup s ≡ after_data c backup b (delete_backup_data c backup b s)
  unfolding cleanup_backup cleanup_from cleanup_found
  run_found b s there lost = rw (there, lost, cleanup_backup) refl

  run_retained :
      (b : CnpgBackup) (s : c.State)
      → c.get_cnpg_backup s backup.name ≡ found b
      → backup.retain ≡ true
      → cleanup_backup c backup s ≡ delete_resource c backup b s
  unfolding cleanup_backup cleanup_from cleanup_found
  run_retained b s there kept = rw (there, kept, cleanup_backup) refl

  data-with_job :
      (b : CnpgBackup) (s : c.State) (h : Held b s)
      → delete_backup_data c backup b s
        ≡ with_job c backup
            (c.get_job s (backup_deletion_job_name backup.name))
            b
            h.deletable.store
            (some h.deletable.s3)
            s
  unfolding delete_backup_data with_storage
  data-with_job b s h =
      let d = h.deletable in
      rw (h.idle, h.has_id, d.has_store, d.has_storage, d.is_s3, delete_backup_data) refl

  with_job-Sound :
      (b : CnpgBackup) (s : c.State) (store : ObjectStore) (s3 : Option S3Spec) (j : Types.Job)
      → Sound c backup s j
      → with_job c backup (c.get_job s (backup_deletion_job_name backup.name)) b store s3 s
        ≡ (ok (job_complete j), s)
  unfolding with_job deletion_job_done
  with_job-Sound b s store s3 j sound = rw (sound.there, sound.owned, sound.fine, with_job) refl

  half-Gone : (s : c.State) → backup.retain ≡ false → Half s → Gone (round s)
  half-Gone s lost h =
      let done : delete_backup_data c backup h.b s ≡ (ok true, s) =
        data-with_job h.b s h.held
        ∙ with_job-Sound h.b s h.held.deletable.store (some h.held.deletable.s3) h.job h.sound
        ∙ ap (λ x. (ok x, s)) h.complete in
      let run = run_found h.b s h.held.there lost ∙ ap (after_data c backup h.b) done in
      subst (λ r. Gone (f.tidy r.1)) (sym run)
        (resource-Gone h.b s h.held.there (inr (h.job, h.sound)))

  -- A state that keeps the Backup and the storages keeps the way to its data.
  carry :
      (b : CnpgBackup) (s t : c.State)
      → Held b s
      → c.get_cnpg_backup t backup.name ≡ found b
      → ((n : String) → c.get_object_store t n ≡ c.get_object_store s n)
      → ((n : String) → c.backup_storage t n ≡ c.backup_storage s n)
      → Held b t
  carry b s t h there same_store same_storage =
      let d = h.deletable in
      record {
        there = there;
        idle = h.idle;
        has_id = h.has_id;
        deletable = record {
          store = d.store;
          storage = d.storage;
          s3 = d.s3;
          built = d.built;
          owned = d.owned;
          has_store = same_store _ ∙ d.has_store;
          has_storage = same_storage _ ∙ d.has_storage;
          is_s3 = d.is_s3;
          builds = d.builds;
          owns = d.owns;
        };
      }

  -- While the Job is at work, the others complete it.
  working :
      (b : CnpgBackup) (s : c.State) (j : Types.Job)
      → Held b s
      → Sound c backup s j
      → Gone (f.tidy s) ⊎ Half (f.tidy s)
  working b s j h sound = elim (Bool-cases b.deleting) [
    | inl marked ↦ inl (released-Gone s (inr (b, h.there, marked)) (inr (j, sound)))
    | inr kept ↦
        let (j', sound', complete) = f.tidy-job s j sound in
        inr (record {
          b = b;
          held =
              carry b s (f.tidy s) h (f.tidy-backup s b h.there kept) (f.tidy-store s)
                (f.tidy-storage s);
          job = j';
          sound = sound';
          complete = complete;
        })
  ]

  after_data-create :
      (b : CnpgBackup) (r : Created) (s : c.State)
      → (after_data c backup b (after_create c backup r, s)).1 ≡ s
  after_data-create b created s = refl
  after_data-create b already_exists s = refl
  after_data-create b (refused e) s = refl

  after_data-open :
      (b : CnpgBackup) (done : Bool) (s : c.State)
      → done ≡ false
      → (after_data c backup b (ok done, s)).1 ≡ s
  after_data-open b done s e = rw e refl

  -- The run that makes the Job.
  start :
      (b : CnpgBackup) (s : c.State)
      → backup.retain ≡ false
      → Held b s
      → c.get_job s (backup_deletion_job_name backup.name) ≡ not_found
      → Gone (round s) ⊎ Half (round s)
  unfolding with_job create_deletion_job create_built create_owned
  start b s lost h none_made =
      let d = h.deletable in
      let made = c.create_job d.owned s in
      let named = build-name c.append_options backup b d.store (some d.s3) d.built d.builds in
      let (j, sound) = f.create-Sound d.built d.owned s d.owns named none_made in
      let creates : delete_backup_data c backup b s ≡ (after_create c backup made.0, made.1) =
        data-with_job b s h ∙ rw (none_made, d.builds, d.owns, with_job) refl in
      let run : (cleanup_backup c backup s).1 ≡ made.1 =
        ap (λ r. r.1) (run_found b s h.there lost ∙ ap (after_data c backup b) creates)
        ∙ after_data-create b made.0 made.1 in
      subst (λ t. Gone (f.tidy t) ⊎ Half (f.tidy t)) (sym run)
        (working b made.1 j
          (carry b s made.1 h (f.backup-create d.owned s _ ∙ h.there) (f.store-create d.owned s)
            (f.storage-create d.owned s))
          sound)

  -- A run that finds the Job.
  resume :
      (b : CnpgBackup) (s : c.State) (j : Types.Job)
      → backup.retain ≡ false
      → Held b s
      → Sound c backup s j
      → Gone (round s) ⊎ Half (round s)
  resume b s j lost h sound =
      let reads =
        data-with_job b s h ∙ with_job-Sound b s h.deletable.store (some h.deletable.s3) j sound in
      let run = run_found b s h.there lost ∙ ap (after_data c backup b) reads in
      elim (Bool-cases (job_complete j)) [
        | inl complete ↦ inl (
            half-Gone s lost
              (record { b = b; held = h; job = j; sound = sound; complete = complete }))
        | inr at_work ↦
            subst (λ t. Gone (f.tidy t) ⊎ Half (f.tidy t))
              (sym (ap (λ r. r.1) run ∙ after_data-open b (job_complete j) s at_work))
              (working b s j h sound)
      ]

  gone-round : (s : c.State) → Gone s → Gone (round s)
  gone-round s g =
      subst (λ t. Gone (f.tidy t)) (sym (absent_state s g.backup_gone))
        (released-Gone s (inl g.backup_gone) (made g.job_done))
    where
      made :
          (c.get_job s (backup_deletion_job_name backup.name) ≡ not_found)
            ⊎ ((j : Types.Job) × Sound c backup s j × (job_complete j ≡ true))
          → JobOk s
      made (inl none_made) = inl none_made
      made (inr (j, sound, _)) = inr (j, sound)

  run_no_data :
      (b : CnpgBackup) (s : c.State)
      → c.get_cnpg_backup s backup.name ≡ found b
      → backup.retain ≡ false
      → in_progress b.status.phase ≡ false
      → b.status.backup_id ≡ ""
      → cleanup_backup c backup s ≡ delete_resource c backup b s
  unfolding delete_backup_data
  run_no_data b s there lost idle no_id =
      let nothing_there : delete_backup_data c backup b s ≡ (ok true, s) =
        rw (idle, (eq_iff b.status.backup_id "").1 no_id, delete_backup_data) refl in
      run_found b s there lost ∙ ap (after_data c backup b) nothing_there

  lost-round :
      (b : CnpgBackup) (s : c.State)
      → backup.retain ≡ false
      → Held b s
      → JobOk s
      → Gone (round s) ⊎ Half (round s)
  lost-round b s lost h (inl none_made) = start b s lost h none_made
  lost-round b s lost h (inr (j, sound)) = resume b s j lost h sound

  first_round :
      (s : c.State) → Ready c backup s → Gone (round s) ⊎ ((backup.retain ≡ false) × Half (round s))
  first_round s r = elim r.backup_there [
    | inl gone ↦ inl (
        subst (λ t. Gone (f.tidy t)) (sym (absent_state s gone)) (released-Gone s (inl gone) r.job))
    | inr (b, there, how) ↦ by_policy b there (Bool-cases backup.retain) how
  ]
    where
      ended :
          (b : CnpgBackup)
          → c.get_cnpg_backup s backup.name ≡ found b
          → cleanup_backup c backup s ≡ delete_resource c backup b s
          → Gone (round s)
      ended b there run = subst (λ x. Gone (f.tidy x.1)) (sym run) (resource-Gone b s there r.job)

      lost_by :
          (b : CnpgBackup)
          → c.get_cnpg_backup s backup.name ≡ found b
          → backup.retain ≡ false
          → (backup.retain ≡ true)
            ⊎ ((in_progress b.status.phase ≡ false)
                × ((b.status.backup_id ≡ "")
                    ⊎ ((is_empty b.status.backup_id ≡ false) × Deletable c backup b s)))
          → Gone (round s) ⊎ ((backup.retain ≡ false) × Half (round s))
      lost_by b there lost (inl kept) = cc
      lost_by b there lost (inr (idle, inl no_id)) =
          inl (ended b there (run_no_data b s there lost idle no_id))
      lost_by b there lost (inr (idle, inr (has_id, d))) =
          elim (lost-round b s lost
            (record { there = there; idle = idle; has_id = has_id; deletable = d }) r.job) [
              | inl gone ↦ inl gone
              | inr half ↦ inr (lost, half)
            ]

      by_policy :
          (b : CnpgBackup)
          → c.get_cnpg_backup s backup.name ≡ found b
          → (backup.retain ≡ true) ⊎ (backup.retain ≡ false)
          → (backup.retain ≡ true)
            ⊎ ((in_progress b.status.phase ≡ false)
                × ((b.status.backup_id ≡ "")
                    ⊎ ((is_empty b.status.backup_id ≡ false) × Deletable c backup b s)))
          → Gone (round s) ⊎ ((backup.retain ≡ false) × Half (round s))
      by_policy b there (inl kept) how = inl (ended b there (run_retained b s there kept))
      by_policy b there (inr lost) how = lost_by b there lost how

  -- From every state in which nothing hinders the deletion, the third run of `CleanupBackup` says that it
  -- is complete, if the others do their work after each run: one run makes the deletion Job where it
  -- is needed, one deletes the CloudNativePG Backup, and no run waits for itself.
  pub cleanup_backup-completes :
      (s : c.State) → Ready c backup s → (cleanup_backup c backup (round (round s))).0 ≡ ok true
  cleanup_backup-completes s r = gone-done (round (round s)) (second (first_round s r))
    where
      second : Gone (round s) ⊎ ((backup.retain ≡ false) × Half (round s)) → Gone (round (round s))
      second (inl gone) = gone-round (round s) gone
      second (inr (lost, half)) = half-Gone (round s) lost half
