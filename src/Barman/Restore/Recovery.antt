-- ===== src/Barman/Restore/Recovery.antt =====
-- internal/cnpg/barman/restore.go: what an accepted data source leads to.
use provider_cloudnative_pg.Common.{
  String, Bool, true, false, ◌&&◌, >>-eq-ok, reject-eq-ok, ok-of-bind, is_none, Option, none, some,
  ◌≡◌, ◌≢◌, refl, sym, ap, inl, inr, Bool-cases, is_empty, ne_of_test, or_else, ◌∙◌, Result, ok,
  err, ◌>>=◌, reject, Got, found, not_found, failed, arith,
}
use provider_cloudnative_pg.Cnpg.Components.{CnpgCustomSpec}
use provider_cloudnative_pg.Barman.Types.{
  DataSource, DataSourceKind, from_backup, point_in_time, other_source, PointInTime, Backup,
  CnpgBackup,
}
use provider_cloudnative_pg.Barman.Restore.{
  Error, panics, backup_ref_required, storage_ref_required, date_required, check_source,
  validate_data_source, date_target, point_in_time_origin, read_cnpg_backup, read_backup, or_name,
  resolve_cnpg_backup, resolve_source_backup, backup_origin, origin_of, build_recovery_config,
  is_unnamed, storage_missing, date_missing, is_completed, is_succeeded, Origin,
}

safe_bind :
    {A B : Type 0} (m : Result Error A) (f : A → Result Error B)
    → m ≢ err panics
    → ((a : A) → f a ≢ err panics)
    → (m >>= f) ≢ err panics
safe_bind (ok a) f h k e' = k a e'
safe_bind (err e) f h k e' = absurd (h (cc))

ok-injective : (a b : Origin) → Path (Result Error Origin) (ok a) (ok b) → a ≡ b
ok-injective a b h = cc

safe_date :
    (to_date : Bool) (date : Option String)
    → (to_date && is_none date) ≡ false
    → date_target to_date date ≢ err panics
unfolding date_target
safe_date false date h e = cc
safe_date true none h e = cc
safe_date true (some at_time) h e = cc

safe_pitr :
    (instance : String) (backup : Option String) (pitr : Option PointInTime)
    → check_source point_in_time backup pitr ≡ ok tt
    → point_in_time_origin instance pitr ≢ err panics
unfolding check_source point_in_time_origin
safe_pitr instance backup none h = cc
safe_pitr instance backup (some pitr) h =
    let storage = reject (storage_missing (some pitr)) storage_ref_required in
    let date = reject (date_missing (some pitr)) date_required in
    let tests = (>>-eq-ok storage date).0 h in
    let dated = (reject-eq-ok (date_missing (some pitr)) date_required).0 tests.1 in
    safe_bind (date_target pitr.to_date pitr.date) _ (safe_date pitr.to_date pitr.date dated)
      (λ target e. cc)

module _ (get_backup : String → Got Backup) (get_cnpg_backup : String → Got CnpgBackup) where
  safe_cnpg : (name : String) → resolve_cnpg_backup get_backup get_cnpg_backup name ≢ err panics
  unfolding resolve_cnpg_backup
  safe_cnpg name = go (get_cnpg_backup name)
    where
      go : (got : Got CnpgBackup) → read_cnpg_backup name got ≢ err panics
      go not_found e = cc
      go (failed e') e = cc
      go (found b) e = ground arith

  safe_source :
      (backup : Option String)
      → is_unnamed backup ≡ false
      → resolve_source_backup get_backup get_cnpg_backup backup ≢ err panics
  unfolding resolve_source_backup
  safe_source none h = cc
  safe_source (some name) h = go (get_backup name)
    where
      go : (got : Got Backup) → read_backup get_backup get_cnpg_backup name got ≢ err panics
      go not_found e = cc
      go (failed e') e = cc
      go (found b) e = elim (Bool-cases (is_succeeded b.state)) [
        | inr t ↦ cc (rw (t, read_backup) at e)
        | inl done ↦ elim (Bool-cases (is_empty b.storage_ref)) [
          | inl t ↦ cc (rw (done, t, read_backup) at e)
          | inr stored ↦
              safe_bind
                (resolve_cnpg_backup get_backup get_cnpg_backup
                  (or_name b.operator_backup_ref name))
                _ (safe_cnpg (or_name b.operator_backup_ref name)) (λ cnpg e'. cc)
                (rw (done, stored, read_backup) at e)
        ]
      ]

  safe_backup :
      (backup : Option String)
      → is_unnamed backup ≡ false
      → backup_origin get_backup get_cnpg_backup backup ≢ err panics
  unfolding backup_origin
  safe_backup backup h =
      safe_bind (resolve_source_backup get_backup get_cnpg_backup backup) _ (safe_source backup h)
        (λ resolved e. ground arith)

  safe_origin :
      (instance : String) (ds : DataSource)
      → validate_data_source (some ds) ≡ ok tt
      → origin_of get_backup get_cnpg_backup instance ds.kind ds.backup ds.point_in_time
        ≢ err panics
  unfolding validate_data_source origin_of check_source
  safe_origin instance ds h = go ds.kind h
    where
      go :
          (kind : DataSourceKind)
          → check_source kind ds.backup ds.point_in_time ≡ ok tt
          → origin_of get_backup get_cnpg_backup instance kind ds.backup ds.point_in_time
            ≢ err panics
      go point_in_time h' = safe_pitr instance ds.backup ds.point_in_time h'
      go from_backup h' =
          safe_backup ds.backup ((reject-eq-ok (is_unnamed ds.backup) backup_ref_required).0 h')
      go (other_source kind) h' = cc h'

  -- A data source that passes validation never makes the recovery dereference a nil pointer: no
  -- reply of the cluster to the reads leads there.
  pub build_recovery_config-never_panics :
      (instance : String) (ds : DataSource) (custom : CnpgCustomSpec)
      → validate_data_source (some ds) ≡ ok tt
      → build_recovery_config get_backup get_cnpg_backup instance ds custom ≢ err panics
  unfolding build_recovery_config
  build_recovery_config-never_panics instance ds custom h =
      safe_bind (origin_of get_backup get_cnpg_backup instance ds.kind ds.backup ds.point_in_time) _
        (safe_origin instance ds h) (λ origin e. cc)

  -- What a recovery from the Backup `name` rests on.
  pub Restorable : String → Origin → Type 0
  Restorable name origin =
      (b : Backup) × (cnpg : CnpgBackup) × (get_backup name ≡ found b)
      × (get_cnpg_backup (or_name b.operator_backup_ref name) ≡ found cnpg)
      × (is_succeeded b.state ≡ true)
      × (is_completed cnpg.status.phase ≡ true)
      × (cnpg.status.backup_id ≢ "")
      × (b.storage_ref ≢ "")
      × (origin.object_store ≡ b.storage_ref)
      × (origin.server ≢ "")

  read_cnpg-ok :
      (name : String) (got : Got CnpgBackup) (cnpg : CnpgBackup)
      → read_cnpg_backup name got ≡ ok cnpg
      → (got ≡ found cnpg) × (is_completed cnpg.status.phase ≡ true) × (cnpg.status.backup_id ≢ "")
  unfolding read_cnpg_backup
  read_cnpg-ok name not_found cnpg h = cc
  read_cnpg-ok name (failed e) cnpg h = cc
  read_cnpg-ok name (found b) cnpg h = elim (Bool-cases (is_completed b.status.phase)) [
    | inr t ↦ cc (rw (t, read_cnpg_backup) at h)
    | inl done ↦ elim (Bool-cases (is_empty b.status.backup_id)) [
      | inl t ↦ cc (rw (done, t, read_cnpg_backup) at h)
      | inr named ↦
          let same : b ≡ cnpg = cc (rw (done, named, read_cnpg_backup) at h) in
          (ap found same, rw same at done, ne_of_test cnpg.status.backup_id "" (rw same at named))
    ]
  ]

  read_backup-ok :
      (name : String) (got : Got Backup) (cnpg : CnpgBackup) (store : String)
      → read_backup get_backup get_cnpg_backup name got ≡ ok (cnpg, store)
      → (b : Backup) × (got ≡ found b)
        × (resolve_cnpg_backup get_backup get_cnpg_backup (or_name b.operator_backup_ref name)
            ≡ ok cnpg)
        × (is_succeeded b.state ≡ true)
        × (b.storage_ref ≢ "")
        × (store ≡ b.storage_ref)
  unfolding read_backup
  read_backup-ok name not_found cnpg store h = cc
  read_backup-ok name (failed e) cnpg store h = cc
  read_backup-ok name (found b) cnpg store h = elim (Bool-cases (is_succeeded b.state)) [
    | inr t ↦ cc (rw (t, read_backup) at h)
    | inl done ↦ elim (Bool-cases (is_empty b.storage_ref)) [
      | inl t ↦ cc (rw (done, t, read_backup) at h)
      | inr stored ↦
          let r =
            ok-of-bind
              (resolve_cnpg_backup get_backup get_cnpg_backup (or_name b.operator_backup_ref name))
              _ (cnpg, store) (rw (done, stored, read_backup) at h) in
          let same : r.0 ≡ cnpg = cc (r.2) in
          (b, refl, rw same at r.1, done, ne_of_test b.storage_ref "" stored, cc (r.2))
    ]
  ]

  -- A recovery from a Backup starts only from one that has succeeded, whose CloudNativePG Backup is
  -- found under the operator's reference and is complete with a backup identifier, and it reads the
  -- object store of that Backup under a server name that is not empty.
  pub backup_origin-Restorable :
      (name : String) (origin : Origin)
      → backup_origin get_backup get_cnpg_backup (some name) ≡ ok origin
      → Restorable name origin
  unfolding backup_origin resolve_source_backup Restorable resolve_cnpg_backup
  backup_origin-Restorable name origin h =
      let r =
        ok-of-bind (resolve_source_backup get_backup get_cnpg_backup (some name)) _ origin h in
      let cnpg = r.0.0 in
      let back = read_backup-ok name (get_backup name) cnpg r.0.1 r.1 in
      let b = back.0 in
      let front = read_cnpg-ok (or_name b.operator_backup_ref name) _ cnpg back.2 in
      let server = or_else cnpg.status.server_name cnpg.cluster in
      elim (Bool-cases (is_empty server)) [
        | inl t ↦ cc (rw t at r.2)
        | inr named ↦
            let same = ok-injective _ origin (rw named at r.2) in
            (
              b,
              cnpg,
              back.1,
              front.0,
              back.3,
              front.1,
              front.2,
              back.4,
              sym (ap (λ o. o.object_store) same) ∙ back.5,
              λ e. ne_of_test server "" named (ap (λ o. o.server) same ∙ e),
            )
      ]
