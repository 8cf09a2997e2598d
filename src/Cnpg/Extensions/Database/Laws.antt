-- ===== src/Cnpg/Extensions/Database/Laws.antt =====
-- The Database that is built lists what the enabled extensions create, and loses no installed extension
-- of the table.
use provider_cloudnative_pg.Common.{
  String, Bool, true, false, not, Option, none, some, List, [], ◌∷◌, ◌≡◌, refl, ap, ◌∙◌, ◌↔◌, ◌==◌,
  eq_iff, is_empty, any, filter, In, map, ◌⊎◌, inl, inr, ok, Got, found, not_found, failed, arith,
}
use provider_cloudnative_pg.Common.Int.{eqb_ℤ_iff}
use provider_cloudnative_pg.Cnpg.Types.{Database, DatabaseSpec, DatabaseObjectStatus}
use provider_cloudnative_pg.Cnpg.Components.{CnpgCustomSpec}
use provider_cloudnative_pg.Cnpg.Extensions.Table.{
  Extension, enabled_extensions, created_extensions, first_class_extensions,
}
use provider_cloudnative_pg.Cnpg.Extensions.Rules.{
  validate_extensions_not_disabled, extensions_database_name,
}
use provider_cloudnative_pg.Cnpg.Extensions.Rules.Lifecycle.{
  creates, is_installed, validate_extensions_not_disabled_iff,
}
use provider_cloudnative_pg.Cnpg.Extensions.Images.{ExtensionImages}
use provider_cloudnative_pg.Cnpg.Extensions.Database.{
  database_of, extension_spec, build_extensions_database, extensions_status, status_of,
  database_status, first_pending, pending_one,
}

-- Whether the Database that is built lists a SQL extension; no Database lists none.
abbrev pub lists : String → Option DatabaseSpec → Bool
lists sql none = false
lists sql (some db) = any (λ s. s.name == sql) db.extensions

any-map_spec :
    (images : ExtensionImages) (sql : String) (exts : List Extension)
    → any (λ s. s.name == sql) (map (extension_spec images) exts)
      ≡ any (λ e. e.sql_extension == sql) exts
unfolding extension_spec
any-map_spec images sql [] = refl
any-map_spec images sql (e ∷ exts) = ground (arith, any-map_spec images sql exts)

any-created :
    (sql : String) (exts : List Extension)
    → (sql == "") ≡ false
    → any (λ e. e.sql_extension == sql) (filter (λ e. not (is_empty e.sql_extension)) exts)
      ≡ any (λ e. e.sql_extension == sql) exts
any-created sql [] h = refl
any-created sql (e ∷ exts) h = ground (
  arith,
  any-created sql exts h,
  eq_iff e.sql_extension sql,
  eq_iff e.sql_extension "",
  eq_iff sql "",
)

lists-database_of :
    (identity : String × String) (cluster : String) (images : ExtensionImages) (sql : String)
    (exts : List Extension)
    → lists sql (database_of identity cluster images exts) ≡ any (λ e. e.sql_extension == sql) exts
unfolding database_of
lists-database_of identity cluster images sql [] = refl
lists-database_of (database, owner) cluster images sql (e ∷ exts) =
    any-map_spec images sql (e ∷ exts)

module _ (default_database default_user cluster : String) (custom : Option CnpgCustomSpec)
    (images : ExtensionImages) where
  abbrev built : Option DatabaseSpec
  built = build_extensions_database default_database default_user cluster custom images

  lists-built : (sql : String) → (sql == "") ≡ false → lists sql built ≡ creates sql custom
  unfolding build_extensions_database created_extensions
  lists-built sql h =
      lists-database_of _ cluster images sql (created_extensions custom)
      ∙ any-created sql (enabled_extensions custom) h

  -- After a check that passed against the existing Database, the Database that is built still lists
  -- every SQL extension of the table that the existing one lists; nothing is said of an extension
  -- that is not in the table.
  pub build_extensions_database-keeps :
      (get_database : String → Got Database) (db : Database) (e : Extension)
      → get_database (extensions_database_name cluster) ≡ found db
      → validate_extensions_not_disabled get_database cluster custom ≡ ok tt
      → In e first_class_extensions
      → (e.sql_extension == "") ≡ false
      → is_installed e.sql_extension db ≡ true
      → lists e.sql_extension built ≡ true
  build_extensions_database-keeps get_database db e got passed m named here =
      lists-built e.sql_extension named
      ∙ (validate_extensions_not_disabled_iff get_database cluster custom db got).0 passed e m named
          here

-- No status of a created extension is pending.
abbrev NonePending : List Extension → List DatabaseObjectStatus → Type 0
NonePending exts statuses =
    (e : Extension)
    → In e exts
    → (s : DatabaseObjectStatus) → In s statuses
    → s.name ≡ e.sql_extension
    → s.applied ≡ true

pending_one-eq-none :
    (e : Extension) (statuses : List DatabaseObjectStatus)
    → (pending_one e statuses ≡ none)
      ↔ ((s : DatabaseObjectStatus) → In s statuses → s.name ≡ e.sql_extension → s.applied ≡ true)
unfolding pending_one
pending_one-eq-none e [] = (λ h s m. absurd m, λ h. refl)
pending_one-eq-none e (s ∷ statuses) =
    let rest = pending_one-eq-none e statuses in
    (
      λ h t m same. elim m [
        | inl here ↦ rw here (
            ground (
              arith,
              eq_iff s.name e.sql_extension,
              ap (λ (x : DatabaseObjectStatus). x.name) here,
            ))
        | inr later ↦ rest.0 (ground arith) t later same
      ],
      λ all.
          ground
            (arith, all s (inl refl), rest.1 (λ t m. all t (inr m)), eq_iff s.name e.sql_extension),
    )

first_pending-eq-none :
    (exts : List Extension) (statuses : List DatabaseObjectStatus)
    → (first_pending exts statuses ≡ none) ↔ NonePending exts statuses
unfolding first_pending
first_pending-eq-none [] statuses = (λ h e m. absurd m, λ h. refl)
first_pending-eq-none (e ∷ exts) statuses =
    let one = pending_one-eq-none e statuses in
    let rest = first_pending-eq-none exts statuses in
    (
      λ h d m s n same. elim m [
        | inl here ↦ one.0 (ground arith) s n (same ∙ ap (λ (x : Extension). x.sql_extension) here)
        | inr later ↦ rest.0 (ground arith) d later s n same
      ],
      λ all.
          rw (one.1 (λ s n same. all e (inl refl) s n same), first_pending)
            (rest.1 (λ d m. all d (inr m))),
    )

-- The Database of the current generation is applied, and no extension that it must create is
-- reported as pending.
pub record IsReconciled (created : List Extension) (db : Database) : Type 0 where
  pub observed : db.status.observed_generation ≡ db.generation
  pub applied : db.status.applied ≡ some true
  pub complete : NonePending created db.status.extensions

database_status-eq-none :
    (db : Database) (created : List Extension)
    → (database_status db created ≡ none) ↔ IsReconciled created db
unfolding database_status
database_status-eq-none db created =
    let loop = first_pending-eq-none created db.status.extensions in
    let same = eqb_ℤ_iff db.status.observed_generation db.generation in
    (
      λ h. record {
        observed = same.0 (ground arith);
        applied = ground arith;
        complete = loop.0 (ground arith);
      },
      λ i. rw (same.1 i.observed, i.applied) (loop.1 i.complete),
    )

status_of-eq-none :
    (get_database : String → Got Database) (instance : String) (created : List Extension)
    → (status_of get_database instance created ≡ none) ↔ (
        (created ≡ [])
        ⊎ ((db : Database) × (get_database (extensions_database_name instance) ≡ found db)
            × IsReconciled created db))
unfolding status_of
status_of-eq-none get_database instance [] = (λ _. inl refl, λ _. refl)
status_of-eq-none get_database instance (e ∷ exts) = (
  λ h. go (get_database (extensions_database_name instance)) refl h,
  elim [
    | inl none_there ↦ cc
    | inr (db, got, i) ↦ rw (got, status_of) ((database_status-eq-none db (e ∷ exts)).1 i)
  ],
)
  where
    go :
        (g : Got Database)
        → get_database (extensions_database_name instance) ≡ g
        → status_of get_database instance (e ∷ exts) ≡ none
        → (e ∷ exts ≡ [])
          ⊎ ((db : Database) × (get_database (extensions_database_name instance) ≡ found db)
              × IsReconciled (e ∷ exts) db)
    go not_found got h = cc (rw (got, status_of) at h)
    go (failed x) got h = cc (rw (got, status_of) at h)
    go (found db) got h =
        inr (db, got, (database_status-eq-none db (e ∷ exts)).0 (rw (got, status_of) at h))

-- The extensions let the Instance become ready exactly when none has to be created, or when the
-- Database exists, is applied at its current generation, and every status that it reports of an
-- extension to create is an applied one. An extension without a status holds nothing back.
pub extensions_status-eq-none :
    (get_database : String → Got Database) (instance : String) (custom : Option CnpgCustomSpec)
    → (extensions_status get_database instance custom ≡ none) ↔ (
        (created_extensions custom ≡ [])
        ⊎ ((db : Database) × (get_database (extensions_database_name instance) ≡ found db)
            × IsReconciled (created_extensions custom) db))
unfolding extensions_status
extensions_status-eq-none get_database instance custom =
    status_of-eq-none get_database instance (created_extensions custom)
