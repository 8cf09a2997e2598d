-- ===== src/Provider/Backup/Laws.antt =====
-- internal/provider/backup.go: when a backup is written, and when it is done.
use provider_cloudnative_pg.Common.{
  String, Bool, true, false, not, Option, none, some, Option-cases, List, [], ◌∷◌, ◌≡◌, ◌≢◌, refl,
  sym, ap, ◌∙◌, ◌↔◌, ◌⊎◌, inl, inr, ◌==◌, eq_iff, any, Result, ok, err, Got, found, not_found,
  failed, arith, if◌then◌else◌,
}
use provider_cloudnative_pg.Cnpg.Types.{Cluster, PluginConfiguration}
use provider_cloudnative_pg.Barman.Types.{
  Backup, BackupConfig, BackupState, BackupPhase, CnpgBackup, Instance, InstanceBackupSpec,
  InstanceBackupStorage,
}
use provider_cloudnative_pg.Barman.Plugin.{archive_object_store_name}
use provider_cloudnative_pg.Barman.ObjectStore
use provider_cloudnative_pg.Barman.ObjectStore.{backup_storages, sync_backup_infrastructure}
use provider_cloudnative_pg.Barman.ObjectStore.Infrastructure.{
  main_storage, sync_backup_infrastructure-archive,
}
use provider_cloudnative_pg.Provider.Backup.{
  Client, instance_has_backup_storage, backup_storage_blocker, blocked, status_for,
  execution_status, unless_blocked, sync_with_cluster, sync_from, sync_backup,
}

has_storage-any :
    (instance : Instance) (name : String)
    → instance_has_backup_storage instance name
      ≡ any (λ s. s.storage_ref == name) (backup_storages instance.backup)
unfolding instance_has_backup_storage
has_storage-any instance name = go instance.backup
  where
    go :
        (backup : Option InstanceBackupSpec)
        → (elim backup [
          | none ↦ false
          | some b ↦ if not b.enabled then false else any (λ s. s.storage_ref == name) b.storages
        ])
          ≡ any (λ s. s.storage_ref == name) (backup_storages backup)
    go none = refl
    go (some b) = ground arith

-- The backup has its storage in the Instance, and the Cluster archives to that storage.
pub CanStart : Instance → Cluster → String → Type 0
CanStart instance cluster name =
    (instance_has_backup_storage instance name ≡ true)
    × (archive_object_store_name cluster.spec.plugins ≡ name)

blocker-none :
    (instance : Instance) (cluster : Cluster) (name : String)
    → (backup_storage_blocker instance cluster name ≡ none) ↔ CanStart instance cluster name
unfolding backup_storage_blocker CanStart
blocker-none instance cluster name =
    ground (arith, eq_iff (archive_object_store_name cluster.spec.plugins) name)

any-main :
    (name : String) (storages : List InstanceBackupStorage)
    → storages ≢ []
    → main_storage storages ≡ name
    → any (λ s. s.storage_ref == name) storages ≡ true
any-main name [] h e = absurd (h refl)
any-main name (strg ∷ storages) h e = ground (arith, eq_iff strg.storage_ref name)

-- Once the backup infrastructure is in place and the Cluster has its plugins, nothing blocks a new
-- backup exactly when the Instance has backup storages and the backup names the first of them.
pub backup_storage_blocker-main :
    (c : ObjectStore.Client) (instance : Instance) (s : c.State)
    (plugins : List PluginConfiguration) (cluster : Cluster) (name : String)
    → (sync_backup_infrastructure c instance s).0 ≡ ok plugins
    → cluster.spec.plugins ≡ plugins
    → (backup_storage_blocker instance cluster name ≡ none) ↔ (
        (backup_storages instance.backup ≢ [])
        × (main_storage (backup_storages instance.backup) ≡ name))
unfolding CanStart
backup_storage_blocker-main c instance s plugins cluster name synced same =
    let archive =
      ap archive_object_store_name same
      ∙ sync_backup_infrastructure-archive c instance s plugins synced in
    let start = blocker-none instance cluster name in
    let there = has_storage-any instance name in
    (
      λ h.
          let started = start.0 h in
          (
            (λ e. cc (sym there ∙ started.0, ap (any (λ s'. s'.storage_ref == name)) e)),
            sym archive ∙ started.1,
          ),
      λ h. start.1 (there ∙ any-main name (backup_storages instance.backup) h.0 h.1, archive ∙ h.1),
    )

-- What must hold before `SyncBackup` writes.
pub data Admitted (c : Client) (instance : Instance) (backup : Backup) (s : c.State) : Type 0 where
  adopted : c.exists s backup.name ≡ ok true → Admitted c instance backup s
  started :
      (cluster : Cluster)
      → c.get_cluster s instance.name ≡ found cluster
      → c.exists s backup.name ≡ ok false
      → backup.operator_backup_ref ≡ none
      → CanStart instance cluster backup.storage_ref
      → Admitted c instance backup s

module _ (unmarshal : String → Result String BackupConfig) (c : Client) (instance : Instance)
    (backup : Backup) (s : c.State) where
  guard :
      (cluster : Cluster) (there : Result String Bool)
      → c.get_cluster s instance.name ≡ found cluster
      → c.exists s backup.name ≡ there
      → ((sync_with_cluster unmarshal c instance cluster there backup s).1 ≡ s)
        ⊎ Admitted c instance backup s
  unfolding sync_with_cluster unless_blocked blocked
  guard cluster (err e) got there = inl refl
  guard cluster (ok true) got there = inr (adopted there)
  guard cluster (ok false) got there = go backup.operator_backup_ref refl
    where
      go :
          (ref : Option String)
          → backup.operator_backup_ref ≡ ref
          → ((sync_with_cluster unmarshal c instance cluster (ok false) backup s).1 ≡ s)
            ⊎ Admitted c instance backup s
      go (some r) e = inl (rw (e, sync_with_cluster, unless_blocked, blocked) refl)
      go none e = elim (Option-cases (backup_storage_blocker instance cluster backup.storage_ref)) [
        | inl free ↦ inr (
            started cluster got there e ((blocker-none instance cluster backup.storage_ref).0 free))
        | inr (status, held) ↦ inl (rw (e, held, sync_with_cluster, unless_blocked, blocked) refl)
      ]

  -- `SyncBackup` leaves the state of the API as it is unless the CloudNativePG Backup exists already,
  -- or the Backup has never had one, its storage is in the Instance, and the Cluster archives to it.
  pub sync_backup-Admitted :
      ((sync_backup unmarshal c instance backup s).1 ≡ s) ⊎ Admitted c instance backup s
  unfolding sync_backup sync_from
  sync_backup-Admitted = go (c.get_cluster s instance.name) refl
    where
      go :
          (got : Got Cluster)
          → c.get_cluster s instance.name ≡ got
          → ((sync_from unmarshal c instance got backup s).1 ≡ s) ⊎ Admitted c instance backup s
      go not_found e = (inl refl)
      go (failed e') e = (inl refl)
      go (found cluster) e = (guard cluster (c.exists s backup.name) e refl)

StateMatches : CnpgBackup → BackupPhase → Type 0
StateMatches b p =
    (((status_for p b).state ≡ BackupState.succeeded) ↔ (p ≡ BackupPhase.completed))
    × (((status_for p b).state ≡ BackupState.failed)
        ↔ ((p ≡ BackupPhase.failed) ⊎ (p ≡ BackupPhase.wal_archiving_failing)))

status_for-StateMatches : (b : CnpgBackup) (p : BackupPhase) → StateMatches b p
unfolding StateMatches
status_for-StateMatches b BackupPhase.completed =
    ((λ h. refl, λ h. refl), (λ h. cc, elim [ inl h ↦ cc | inr h ↦ cc ]))
status_for-StateMatches b BackupPhase.failed = ((λ h. cc, λ h. cc), (λ h. inl refl, λ h. refl))
status_for-StateMatches b BackupPhase.wal_archiving_failing =
    ((λ h. cc, λ h. cc), (λ h. inr refl, λ h. refl))
status_for-StateMatches b _ = ((λ h. cc, λ h. cc), (λ h. cc, elim [ inl h ↦ cc | inr h ↦ cc ]))

-- The state of a CloudNativePG Backup decides the state of the backup: it has succeeded exactly when the
-- operator's phase is completed, and has failed exactly when that is failed or a failing WAL archive.
execution_status-state :
    (b : CnpgBackup)
    → (((execution_status b).state ≡ BackupState.succeeded)
        ↔ (b.status.phase ≡ BackupPhase.completed))
      × (((execution_status b).state ≡ BackupState.failed) ↔ (
          (b.status.phase ≡ BackupPhase.failed)
          ⊎ (b.status.phase ≡ BackupPhase.wal_archiving_failing)))
unfolding execution_status StateMatches
execution_status-state b = status_for-StateMatches b b.status.phase
