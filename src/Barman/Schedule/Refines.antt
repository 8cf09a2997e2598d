-- ===== src/Barman/Schedule/Refines.antt =====
-- `SyncScheduledBackups` of internal/cnpg/barman/schedule.go implements an assignment: the map from names to
-- ScheduledBackups that the Instance controls becomes the one of its spec.
use provider_cloudnative_pg.Common.{
  String, Bool, not, ◌&&◌, ◌||◌, Option, none, some, Option-cases, List, [], ◌∷◌, ◌≡◌, refl, ◌==◌,
  inl, inr, any, contains, Result, ok, err, arith, if◌then◌else◌, Bool-cases, is_some, prefer,
}
use provider_cloudnative_pg.Barman.Types.{BackupConfig, InstanceBackupSpec, ScheduledBackup}
use provider_cloudnative_pg.Barman.Schedule.{build_scheduled_backups}
use provider_cloudnative_pg.Barman.Schedule.Sync.{
  Client, Listed, SyncError, apply_all, delete_others, prune, names_of, sync_desired,
  sync_scheduled_backups, any-others,
}

-- The ScheduledBackups that the Instance controls with their content, as the documentation of the API
-- has it: a write that succeeds sets or removes the one of its name, and a list shows each.
pub record IsStore (c : Client) : Type 0 where
  pub content : c.State → String → Option ScheduledBackup
  pub content-apply :
      (sb : ScheduledBackup) (s : c.State) (n : String)
      → (c.apply sb s).0 ≡ none
      → content (c.apply sb s).1 n ≡ (if sb.name == n then some sb else content s n)
  pub content-list :
      (s : c.State) (items : List Listed) (n : String)
      → c.list s ≡ ok items
      → is_some (content s n) ≡ any (λ i. (i.name == n) && i.controlled) items
  pub content-delete :
      (m : String) (s : c.State) (n : String)
      → (c.delete m s).0 ≡ none
      → content (c.delete m s).1 n ≡ (if m == n then none else content s n)

-- The abstract map of a list: of two with one name the later one counts.
abbrev pub last_named : String → List ScheduledBackup → Option ScheduledBackup
last_named n [] = none
last_named n (sb ∷ sbs) = prefer (last_named n sbs) (if sb.name == n then some sb else none)

is_some-last_named :
    (c : Client) (n : String) (sbs : List ScheduledBackup)
    → contains (names_of c sbs) n ≡ is_some (last_named n sbs)
is_some-last_named c n [] = refl
is_some-last_named c n (sb ∷ sbs) = ground (arith, is_some-last_named c n sbs)

module _ (c : Client) (l : IsStore c) where
  open c use {State}
  open l use {content}

  apply_all-content :
      (sbs : List ScheduledBackup) (s : State) (n : String)
      → (apply_all c sbs s).0 ≡ ok tt
      → content (apply_all c sbs s).1 n ≡ prefer (last_named n sbs) (content s n)
  unfolding apply_all
  apply_all-content [] s n h = refl
  apply_all-content (sb ∷ sbs) s n h = elim (Option-cases (c.apply sb s).0) [
    | inl fine ↦
        let ih = apply_all-content sbs (c.apply sb s).1 n (rw (fine, apply_all) at h) in
        rw (fine, apply_all) (ground (arith, ih, l.content-apply sb s n fine))
    | inr (e, bad) ↦ cc (rw (bad, apply_all) at h)
  ]

  abbrev others : List String → List Listed → String → Bool
  others keep items n = any (λ i. (i.name == n) && i.controlled && not (contains keep i.name)) items

  delete_others-content :
      (keep : List String) (items : List Listed) (s : State) (n : String)
      → (delete_others c keep items s).0 ≡ ok tt
      → content (delete_others c keep items s).1 n
        ≡ (if others keep items n then none else content s n)
  unfolding delete_others
  delete_others-content keep [] s n h = refl
  delete_others-content keep (i ∷ items) s n h =
      elim (Bool-cases (contains keep i.name || not i.controlled)) [
        | inl skip ↦
            let ih = delete_others-content keep items s n (rw (skip, delete_others) at h) in
            rw (skip, delete_others) (ground (arith, ih))
        | inr drop ↦ elim (Option-cases (c.delete i.name s).0) [
          | inl fine ↦
              let ih =
                delete_others-content keep items (c.delete i.name s).1 n
                  (rw (drop, fine, delete_others) at h) in
              rw (drop, fine, delete_others) (ground (arith, ih, l.content-delete i.name s n fine))
          | inr (e, bad) ↦ cc (rw (drop, bad, delete_others) at h)
        ]
      ]

  prune-content :
      (keep : List String) (s : State) (n : String)
      → (prune c keep s).0 ≡ ok tt
      → content (prune c keep s).1 n ≡ (if contains keep n then content s n else none)
  unfolding prune
  prune-content keep s n h = go (c.list s) refl
    where
      go :
          (r : Result String (List Listed))
          → c.list s ≡ r
          → content (prune c keep s).1 n ≡ (if contains keep n then content s n else none)
      go (err e) got = cc (rw (got, prune) at h)
      go (ok items) got =
          rw (got, prune)
            (ground (
              arith,
              delete_others-content keep items s n (rw (got, prune) at h),
              any-others keep items n,
              l.content-list s items n got,
            ))

  desired-content :
      (desired : List ScheduledBackup) (s : State) (n : String)
      → (sync_desired c desired s).0 ≡ ok tt
      → content (sync_desired c desired s).1 n ≡ last_named n desired
  unfolding sync_desired
  desired-content desired s n h = go (apply_all c desired s).0 refl
    where
      go :
          (r : Result SyncError (Unit {0}))
          → (apply_all c desired s).0 ≡ r
          → content (sync_desired c desired s).1 n ≡ last_named n desired
      go (err e) got = cc (rw (got, sync_desired) at h)
      go (ok tt) got =
          let pruned =
            prune-content (names_of c desired) (apply_all c desired s).1 n
              (rw (got, sync_desired) at h) in
          rw (got, sync_desired)
            (ground
              (arith, pruned, apply_all-content desired s n got, is_some-last_named c n desired))

  -- The two loops implement the assignment: after a run without an error the map of the ScheduledBackups
  -- that the Instance controls is the one of its spec, in names and content.
  pub sync_scheduled_backups-refines :
      (unmarshal : String → Result String BackupConfig) (instance : String)
      (backup : Option InstanceBackupSpec) (s : State) (desired : List ScheduledBackup) (n : String)
      → build_scheduled_backups unmarshal instance backup ≡ ok desired
      → (sync_scheduled_backups c unmarshal instance backup s).0 ≡ ok tt
      → content (sync_scheduled_backups c unmarshal instance backup s).1 n ≡ last_named n desired
  unfolding sync_scheduled_backups
  sync_scheduled_backups-refines unmarshal instance backup s desired n built h =
      rw (built, sync_scheduled_backups)
        (desired-content desired s n (rw (built, sync_scheduled_backups) at h))
