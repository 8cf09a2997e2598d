-- ===== src/Barman/Schedule/Sync.antt =====
-- `SyncScheduledBackups` of internal/cnpg/barman/schedule.go over the Kubernetes API.
use provider_cloudnative_pg.Common.{
  String, Bool, not, ◌&&◌, ◌||◌, Option, none, some, List, [], ◌∷◌, ◌≡◌, refl, ◌==◌, inl, inr, any,
  contains, map, Result, ok, err, arith, if◌then◌else◌, text_cases,
}
use provider_cloudnative_pg.Barman.Types.{BackupConfig, InstanceBackupSpec, ScheduledBackup}
use provider_cloudnative_pg.Barman.Schedule.{Error, build_scheduled_backups}

-- A ScheduledBackup in the namespace: its name, and whether the Instance controls it.
pub record Listed : Type 0 where
  pub name : String
  pub controlled : Bool

-- The calls of the runtime; `none` is the nil error.
pub record Client : Type 1 where
  pub State : Type 0
  pub apply : ScheduledBackup → State → Option String × State
  pub list : State → Result String (List Listed)
  pub delete : String → State → Option String × State

pub data SyncError : Type 0 where
  invalid_schedule : Error → SyncError
  apply_failed : String → String → SyncError
  list_failed : String → SyncError
  delete_failed : String → String → SyncError

module _ (c : Client) where
  open c use {State}

  -- The first loop.
  unfoldable pub apply_all : List ScheduledBackup → State → Result SyncError (Unit {0}) × State
  apply_all [] s = (ok tt, s)
  apply_all (sb ∷ sbs) s =
      let s' = (c.apply sb s).1 in
      let rest = apply_all sbs s' in
      elim (c.apply sb s).0 [ none ↦ rest | some e ↦ (err (apply_failed sb.name e), s') ]

  -- The second loop, over the listed objects.
  unfoldable pub delete_others :
      List String → List Listed → State → Result SyncError (Unit {0}) × State
  delete_others keep [] s = (ok tt, s)
  delete_others keep (i ∷ items) s =
      let s' = (c.delete i.name s).1 in
      let skipped = delete_others keep items s in
      let deleted = delete_others keep items s' in
      if contains keep i.name || not i.controlled then skipped else elim (c.delete i.name s).0 [
        | none ↦ deleted
        | some e ↦ (err (delete_failed i.name e), s')
      ]

  -- From the list on.
  unfoldable pub prune : List String → State → Result SyncError (Unit {0}) × State
  unfolding delete_others
  prune keep s = elim (c.list s) [
    | err e ↦ (err (list_failed e), s)
    | ok items ↦ delete_others keep items s
  ]

  abbrev pub names_of : List ScheduledBackup → List String
  names_of = map (λ (sb : ScheduledBackup). sb.name)

  unfoldable pub sync_desired : List ScheduledBackup → State → Result SyncError (Unit {0}) × State
  unfolding apply_all prune
  sync_desired desired s =
      let (r, s') = apply_all desired s in
      elim r [ err e ↦ (err e, s') | ok _ ↦ prune (names_of desired) s' ]

  unfoldable pub sync_scheduled_backups :
      (String → Result String BackupConfig)
      → String
      → Option InstanceBackupSpec
      → State
      → Result SyncError (Unit {0}) × State
  unfolding sync_desired
  sync_scheduled_backups unmarshal instance backup s =
      elim (build_scheduled_backups unmarshal instance backup) [
        | err e ↦ (err (invalid_schedule e), s)
        | ok desired ↦ sync_desired desired s
      ]

-- What is listed, controlled and not kept is what is owned and not kept.
pub any-others :
    (keep : List String) (items : List Listed) (n : String)
    → any (λ i. (i.name == n) && i.controlled && not (contains keep i.name)) items
      ≡ (any (λ i. (i.name == n) && i.controlled) items && not (contains keep n))
any-others keep [] n = refl
any-others keep (i ∷ items) n = elim (text_cases i.name n) [
  | inl same ↦ rw same (ground (arith, any-others keep items n))
  | inr other ↦ rw other (any-others keep items n)
]
