-- ===== src/Barman/Schedule/Kept.antt =====
-- `SyncScheduledBackups` of internal/cnpg/barman/schedule.go: what its writes keep, a run keeps.
use provider_cloudnative_pg.Common.{
  String, not, ◌||◌, Option, Option-cases, List, [], ◌∷◌, ◌≡◌, refl, inl, inr, contains, Result, ok,
  err, Bool-cases,
}
use provider_cloudnative_pg.Barman.Types.{BackupConfig, InstanceBackupSpec, ScheduledBackup}
use provider_cloudnative_pg.Barman.Schedule.{Error, build_scheduled_backups}
use provider_cloudnative_pg.Barman.Schedule.Sync.{
  Client, Listed, SyncError, apply_all, delete_others, prune, names_of, sync_desired,
  sync_scheduled_backups,
}

module _ (c : Client) (K : c.State → Type 0)
    (apply : (sb : ScheduledBackup) (s : c.State) → K s → K (c.apply sb s).1)
    (delete : (n : String) (s : c.State) → K s → K (c.delete n s).1) where
  open c use {State}

  apply_all-keeps : (sbs : List ScheduledBackup) (s : State) → K s → K (apply_all c sbs s).1
  unfolding apply_all
  apply_all-keeps [] s here = here
  apply_all-keeps (sb ∷ sbs) s here =
      let there = apply sb s here in
      let later = apply_all-keeps sbs (c.apply sb s).1 there in
      elim (Option-cases (c.apply sb s).0) [
        | inl fine ↦ rw (fine, apply_all) later
        | inr (e, bad) ↦ rw (bad, apply_all) there
      ]

  delete_others-keeps :
      (keep : List String) (items : List Listed) (s : State)
      → K s
      → K (delete_others c keep items s).1
  unfolding delete_others
  delete_others-keeps keep [] s here = here
  delete_others-keeps keep (i ∷ items) s here =
      let there = delete i.name s here in
      let skipped = delete_others-keeps keep items s here in
      let later = delete_others-keeps keep items (c.delete i.name s).1 there in
      elim (Bool-cases (contains keep i.name || not i.controlled)) [
        | inl skip ↦ rw (skip, delete_others) skipped
        | inr drop ↦ elim (Option-cases (c.delete i.name s).0) [
          | inl fine ↦ rw (drop, fine, delete_others) later
          | inr (e, bad) ↦ rw (drop, bad, delete_others) there
        ]
      ]

  prune-keeps : (keep : List String) (s : State) → K s → K (prune c keep s).1
  unfolding prune
  prune-keeps keep s here = go (c.list s) refl
    where
      go : (r : Result String (List Listed)) → c.list s ≡ r → K (prune c keep s).1
      go (err e) got = rw (got, prune) here
      go (ok items) got = rw (got, prune) (delete_others-keeps keep items s here)

  desired-keeps :
      (desired : List ScheduledBackup) (s : State) → K s → K (sync_desired c desired s).1
  unfolding sync_desired
  desired-keeps desired s here = go (apply_all c desired s).0 refl
    where
      there : K (apply_all c desired s).1
      there = apply_all-keeps desired s here

      go :
          (r : Result SyncError (Unit {0}))
          → (apply_all c desired s).0 ≡ r
          → K (sync_desired c desired s).1
      go (err e) got = rw (got, sync_desired) there
      go (ok _) got =
          rw (got, sync_desired) (prune-keeps (names_of c desired) (apply_all c desired s).1 there)

  pub sync_scheduled_backups-keeps :
      (unmarshal : String → Result String BackupConfig) (instance : String)
      (backup : Option InstanceBackupSpec) (s : State)
      → K s
      → K (sync_scheduled_backups c unmarshal instance backup s).1
  unfolding sync_scheduled_backups
  sync_scheduled_backups-keeps unmarshal instance backup s here =
      go (build_scheduled_backups unmarshal instance backup) refl
    where
      go :
          (r : Result Error (List ScheduledBackup))
          → build_scheduled_backups unmarshal instance backup ≡ r
          → K (sync_scheduled_backups c unmarshal instance backup s).1
      go (err e) got = rw (got, sync_scheduled_backups) here
      go (ok desired) got = rw (got, sync_scheduled_backups) (desired-keeps desired s here)
