-- ===== src/Cnpg/Extensions/Rules/Lifecycle.antt =====
-- What the checks against the existing Cluster and the existing Database accept.
use provider_cloudnative_pg.Common.{
  String, Bool, true, false, not, ◌&&◌, Option, ◌≡◌, refl, ◌↔◌, inl, inr, ◌==◌, eq_refl, any, All,
  In, All-In, All-of_In, In-filter, any_iff, Bool-cases, ok, each-eq-ok, each-reject, Got, found,
  arith,
}
use provider_cloudnative_pg.Cnpg.Types.{Cluster, Database}
use provider_cloudnative_pg.Cnpg.Components.{CnpgCustomSpec}
use provider_cloudnative_pg.Cnpg.Extensions.Table.{
  Extension, enabled, creation_only, enabled_extensions, first_class_extensions, timescaledb,
  timescaledb_community, pgivm, age,
}
use provider_cloudnative_pg.Cnpg.Extensions.Rules.{
  Error, validate_extensions_at_creation, validate_extensions_not_disabled,
  validate_not_disabled_one, extensions_database_name,
}

abbrev pub has_image : String → Cluster → Bool
has_image entry pg = any (λ c. c.name == entry) pg.spec.postgresql.extensions

-- The extensions that come with an image and a preload library stand on the Cluster already.
pub record IsMounted (custom : Option CnpgCustomSpec) (pg : Cluster) : Type 0 where
  pub oss : enabled timescaledb custom ≡ true → has_image "timescaledb-oss" pg ≡ true
  pub community : enabled timescaledb_community custom ≡ true → has_image "timescaledb" pg ≡ true
  pub ivm : enabled pgivm custom ≡ true → has_image "pg-ivm" pg ≡ true
  pub graph : enabled age custom ≡ true → has_image "age" pg ≡ true

abbrev late : Cluster → Extension → Bool
late pg ext = creation_only ext && not (has_image ext.catalog_entry pg)

module _ (custom : Option CnpgCustomSpec) (pg : Cluster) where
  late_of_IsMounted :
      IsMounted custom pg
      → (e : Extension) → In e first_class_extensions
      → enabled e custom ≡ true
      → late pg e ≡ false
  unfolding first_class_extensions creation_only
  late_of_IsMounted w e (inl p) = rw p (λ h. rw (w.oss h))
  late_of_IsMounted w e (inr (inl p)) = rw p (λ h. rw (w.community h))
  late_of_IsMounted w e (inr (inr (inl p))) = rw p (λ h. refl)
  late_of_IsMounted w e (inr (inr (inr (inl p)))) = rw p (λ h. refl)
  late_of_IsMounted w e (inr (inr (inr (inr (inl p))))) = rw p (λ h. refl)
  late_of_IsMounted w e (inr (inr (inr (inr (inr (inl p)))))) = rw p (λ h. rw (w.ivm h))
  late_of_IsMounted w e (inr (inr (inr (inr (inr (inr (inl p))))))) = rw p (λ h. refl)
  late_of_IsMounted w e (inr (inr (inr (inr (inr (inr (inr (inl p)))))))) = rw p (λ h. refl)
  late_of_IsMounted w e (inr (inr (inr (inr (inr (inr (inr (inr (inl p))))))))) =
      rw p (λ h. rw (w.graph h))
  late_of_IsMounted w e (inr (inr (inr (inr (inr (inr (inr (inr (inr m))))))))) = absurd m

  IsMounted-of_All : All (λ e. late pg e ≡ false) (enabled_extensions custom) → IsMounted custom pg
  unfolding enabled_extensions first_class_extensions creation_only
  IsMounted-of_All h = record {
    oss = λ on. ground (arith, round timescaledb (inl refl) on);
    community = λ on. ground (arith, round timescaledb_community (inr (inl refl)) on);
    ivm = λ on. ground (arith, round pgivm (inr (inr (inr (inr (inr (inl refl)))))) on);
    graph = λ on.
        ground (arith, round age (inr (inr (inr (inr (inr (inr (inr (inr (inl refl))))))))) on);
  }
    where
      round :
          (e : Extension)
          → In e first_class_extensions
          → enabled e custom ≡ true
          → late pg e ≡ false
      round e m on =
          All-In _ (enabled_extensions custom) h e
            ((In-filter (λ x. enabled x custom) first_class_extensions e).1 (m, on))

  All-of_IsMounted : IsMounted custom pg → All (λ e. late pg e ≡ false) (enabled_extensions custom)
  unfolding enabled_extensions
  All-of_IsMounted w = All-of_In _ (enabled_extensions custom) (λ e m.
      let (known, on) = (In-filter (λ x. enabled x custom) first_class_extensions e).0 m in
      late_of_IsMounted w e known on)

-- On an existing Cluster the creation-only check passes exactly when each of the two TimescaleDB
-- editions, pg_ivm and AGE that is on has its image on the Cluster already; so none of them can be
-- added later, and the editions of TimescaleDB cannot be exchanged.
pub validate_extensions_at_creation_iff :
    (get_cluster : String → Got Cluster) (name : String) (custom : Option CnpgCustomSpec)
    (pg : Cluster)
    → get_cluster name ≡ found pg
    → (validate_extensions_at_creation get_cluster name custom ≡ ok tt) ↔ IsMounted custom pg
unfolding validate_extensions_at_creation
validate_extensions_at_creation_iff get_cluster name custom pg e =
    let loop =
      each-reject (late pg) (λ x. Error.only_at_creation x.field) (enabled_extensions custom) in
    rw (e, validate_extensions_at_creation)
      (λ h. IsMounted-of_All custom pg (loop.0 h), λ w. loop.1 (All-of_IsMounted custom pg w))

abbrev pub is_installed : String → Database → Bool
is_installed sql db = any (λ s. s.name == sql) db.spec.extensions

abbrev pub creates : String → Option CnpgCustomSpec → Bool
creates sql custom = any (λ e. e.sql_extension == sql) (enabled_extensions custom)

listed :
    (custom : Option CnpgCustomSpec) (e : Extension)
    → In e first_class_extensions
    → enabled e custom ≡ true
    → In e (enabled_extensions custom)
unfolding enabled_extensions
listed custom e m on = (In-filter (λ x. enabled x custom) first_class_extensions e).1 (m, on)

validate_not_disabled_one_iff :
    (db : Database) (custom : Option CnpgCustomSpec) (e : Extension)
    → In e first_class_extensions
    → (validate_not_disabled_one db custom e ≡ ok tt) ↔ (
        (e.sql_extension == "") ≡ false
        → is_installed e.sql_extension db ≡ true
        → creates e.sql_extension custom ≡ true)
unfolding validate_not_disabled_one
validate_not_disabled_one_iff db custom e m = elim (Bool-cases (enabled e custom)) [
  | inl on ↦
      let creating : creates e.sql_extension custom ≡ true =
        (any_iff _ (enabled_extensions custom)).1
          (e, listed custom e m on, eq_refl e.sql_extension) in
      (λ h named here. creating, λ h. ground arith)
  | inr off ↦ (
    λ h named here. ground arith,
    λ h. elim (Bool-cases (e.sql_extension == "")) [
      | inl unnamed ↦ ground arith
      | inr named ↦ elim (Bool-cases (is_installed e.sql_extension db)) [
        | inl here ↦ ground (arith, h named here)
        | inr missing ↦ ground arith
      ]
    ],
  )
]

-- The check against the existing Database passes exactly when every SQL extension of the table that
-- the Database lists is still created by some enabled extension.
pub validate_extensions_not_disabled_iff :
    (get_database : String → Got Database) (name : String) (custom : Option CnpgCustomSpec)
    (db : Database)
    → get_database (extensions_database_name name) ≡ found db
    → (validate_extensions_not_disabled get_database name custom ≡ ok tt) ↔ (
        (e : Extension)
        → In e first_class_extensions
        → (e.sql_extension == "") ≡ false
        → is_installed e.sql_extension db ≡ true
        → creates e.sql_extension custom ≡ true)
unfolding validate_extensions_not_disabled
validate_extensions_not_disabled_iff get_database name custom db found_db =
    rw (found_db, validate_extensions_not_disabled)
      (
        λ h e m.
            (validate_not_disabled_one_iff db custom e m).0
              (All-In _ first_class_extensions ((each-eq-ok _ _).0 h) e m),
        λ keeps. (each-eq-ok _ _).1 (
            All-of_In _ first_class_extensions
              (λ e m. (validate_not_disabled_one_iff db custom e m).1 (keeps e m))),
      )
