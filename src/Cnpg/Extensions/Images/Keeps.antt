-- ===== src/Cnpg/Extensions/Images/Keeps.antt =====
-- `ApplyExtensions` of internal/cnpg/extensions.go: what the settings of the enabled extensions keep of
-- the Cluster.
use mathlib.Core.List.{append_assoc, append-nil}
use provider_cloudnative_pg.Common.{
  String, Option, none, some, List, [], ◌∷◌, ◌++◌, ◌≡◌, refl, sym, ap, contains, any, ◌==◌, ◌∙◌,
  Bool-cases, Option-cases, inl, inr,
}
use provider_cloudnative_pg.Common.Dict.{lookup}
use provider_cloudnative_pg.Cnpg.Types.{
  ClusterSpec, BootstrapOptions, BootstrapInitDb, BootstrapRecovery, ExtensionConfiguration,
}
use provider_cloudnative_pg.Cnpg.Components.{CnpgCustomSpec}
use provider_cloudnative_pg.Cnpg.Extensions.Table.{Extension, enabled_extensions}
use provider_cloudnative_pg.Cnpg.Extensions.Images.{
  ExtensionImages, init_db_of, add_one, add_image, add_missing, add_bootstrap_sql, apply_extension,
  apply_all, apply_extensions,
}
use provider_cloudnative_pg.Cnpg.Extensions.Images.Defaults.{lookup-add_defaults}

-- The entries stay, as they are and in their order, before those that are added.
abbrev pub Extends {ℓ} : {A : Type ℓ} → List A → List A → Type ℓ
Extends {A = A} xs ys = (added : List A) × (ys ≡ xs ++ added)

abbrev pub KeepsInitDb : BootstrapInitDb → BootstrapInitDb → Type 0
KeepsInitDb before after =
    (after.database ≡ before.database)
    × (after.owner ≡ before.owner)
    × (after.secret ≡ before.secret)
    × Extends before.post_init_application_sql after.post_init_application_sql

abbrev pub recovery_of : Option BootstrapOptions → Option BootstrapRecovery
recovery_of none = none
recovery_of (some b) = b.recovery

Extends-refl {ℓ} : {A : Type ℓ} (xs : List A) → Extends xs xs
Extends-refl xs = ([], sym (append-nil xs))

Extends-trans {ℓ} : {A : Type ℓ} (xs ys zs : List A) → Extends xs ys → Extends ys zs → Extends xs zs
Extends-trans xs ys zs (a, h) (b, k) = (a ++ b, k ∙ ap (λ l. l ++ b) h ∙ append_assoc xs a b)

KeepsInitDb-trans : (i j k : BootstrapInitDb) → KeepsInitDb i j → KeepsInitDb j k → KeepsInitDb i k
KeepsInitDb-trans i j k (a, b, c, d) (a', b', c', d') =
    (a' ∙ a, b' ∙ b, c' ∙ c, Extends-trans _ _ _ d d')

add_one-Extends : (xs : List String) (y : String) → Extends xs (add_one xs y)
add_one-Extends xs y = elim (Bool-cases (contains xs y)) [
  | inl h ↦ rw h (Extends-refl xs)
  | inr h ↦ rw h (y ∷ [], refl)
]

add_missing-Extends : (xs ys : List String) → Extends xs (add_missing xs ys)
unfolding add_missing
add_missing-Extends xs [] = Extends-refl xs
add_missing-Extends xs (y ∷ ys) =
    Extends-trans xs _ _ (add_one-Extends xs y) (add_missing-Extends (add_one xs y) ys)

add_image-Extends :
    (images : ExtensionImages) (entry : String) (xs : List ExtensionConfiguration)
    → Extends xs (add_image images entry xs)
unfolding add_image
add_image-Extends images entry xs = elim (Option-cases (lookup entry images)) [
  | inl h ↦ rw (h, add_image) (Extends-refl xs)
  | inr (image, h) ↦ elim (Bool-cases (any (λ e. e.name == entry) xs)) [
    | inl there ↦ rw (h, there, add_image) (Extends-refl xs)
    | inr missing ↦ rw (h, missing, add_image) (image.config ∷ [], refl)
  ]
]

add_bootstrap_sql-KeepsInitDb :
    (statement : String) (b : Option BootstrapOptions)
    → KeepsInitDb (init_db_of b) (init_db_of (add_bootstrap_sql statement b))
unfolding add_bootstrap_sql
add_bootstrap_sql-KeepsInitDb statement none =
    (refl, refl, refl, add_missing-Extends [] (statement ∷ []))
add_bootstrap_sql-KeepsInitDb statement (some b) =
    (refl, refl, refl, add_missing-Extends _ (statement ∷ []))

add_bootstrap_sql-recovery :
    (statement : String) (b : Option BootstrapOptions)
    → recovery_of (add_bootstrap_sql statement b) ≡ recovery_of b
unfolding add_bootstrap_sql
add_bootstrap_sql-recovery statement none = refl
add_bootstrap_sql-recovery statement (some b) = refl

-- The Cluster with the settings of another one that `ApplyExtensions` may touch.
abbrev pub with_settings : ClusterSpec → ClusterSpec → ClusterSpec
with_settings from spec = record spec {
  postgresql = record spec.postgresql {
    extensions = from.postgresql.extensions;
    additional_libraries = from.postgresql.additional_libraries;
    parameters = from.postgresql.parameters;
  };
  bootstrap = from.bootstrap;
}

pub record KeepsUser (before after : ClusterSpec) : Type 0 where
  pub parameters :
      (k v : String)
      → lookup k before.postgresql.parameters ≡ some v
      → lookup k after.postgresql.parameters ≡ some v
  pub libraries :
      Extends before.postgresql.additional_libraries after.postgresql.additional_libraries
  pub extensions : Extends before.postgresql.extensions after.postgresql.extensions
  pub init_db : KeepsInitDb (init_db_of before.bootstrap) (init_db_of after.bootstrap)
  pub recovery : recovery_of after.bootstrap ≡ recovery_of before.bootstrap
  -- All other fields.
  pub others : after ≡ with_settings after before

module _ (owner : String) (images : ExtensionImages) where
  keeps_one :
      (ext : Extension) (spec : ClusterSpec)
      → KeepsUser spec (apply_extension owner images ext spec)
  unfolding apply_extension
  keeps_one ext spec = record {
    parameters = λ k v h. lookup-add_defaults spec.postgresql.parameters ext.default_parameters k h;
    libraries = add_missing-Extends spec.postgresql.additional_libraries ext.preload_libraries;
    extensions = add_image-Extends images ext.catalog_entry spec.postgresql.extensions;
    init_db = keeps_init ext.bootstrap_sql;
    recovery = keeps_recovery ext.bootstrap_sql;
    others = refl;
  }
    where
      keeps_init :
          (mine : Option (String → String))
          → KeepsInitDb (init_db_of spec.bootstrap) (
              init_db_of (elim mine [
                | none ↦ spec.bootstrap
                | some sql ↦ add_bootstrap_sql (sql owner) spec.bootstrap
              ]))
      keeps_init none = (refl, refl, refl, Extends-refl _)
      keeps_init (some sql) = add_bootstrap_sql-KeepsInitDb (sql owner) spec.bootstrap

      keeps_recovery :
          (mine : Option (String → String))
          → recovery_of (elim mine [
            | none ↦ spec.bootstrap
            | some sql ↦ add_bootstrap_sql (sql owner) spec.bootstrap
          ])
            ≡ recovery_of spec.bootstrap
      keeps_recovery none = refl
      keeps_recovery (some sql) = add_bootstrap_sql-recovery (sql owner) spec.bootstrap

  keeps_all :
      (exts : List Extension) (spec : ClusterSpec)
      → KeepsUser spec (apply_all owner images exts spec)
  unfolding apply_all
  keeps_all [] spec = record {
    parameters = λ k v h. h;
    libraries = Extends-refl _;
    extensions = Extends-refl _;
    init_db = (refl, refl, refl, Extends-refl _);
    recovery = refl;
    others = refl;
  }
  keeps_all (e ∷ exts) spec =
      let one = keeps_one e spec in
      let rest = keeps_all exts (apply_extension owner images e spec) in
      record {
        parameters = λ k v h. rest.parameters k v (one.parameters k v h);
        libraries = Extends-trans _ _ _ one.libraries rest.libraries;
        extensions = Extends-trans _ _ _ one.extensions rest.extensions;
        init_db = KeepsInitDb-trans _ _ _ one.init_db rest.init_db;
        recovery = rest.recovery ∙ one.recovery;
        others =
            rest.others ∙ ap (with_settings (apply_all owner images (e ∷ exts) spec)) one.others;
      }

module _ (default_database default_user : String) (custom : Option CnpgCustomSpec)
    (images : ExtensionImages) (spec : ClusterSpec) where
  -- A parameter that is set on the Cluster keeps its value. The preload libraries, the extension entries
  -- and the SQL of initdb that are there stay as they are and in their order, before what is added. The
  -- database, owner and Secret of initdb and the recovery bootstrap stay, and so does every field of the
  -- modelled Cluster but these, the parameters and `bootstrap` itself.
  pub apply_extensions-KeepsUser :
      KeepsUser spec (apply_extensions default_database default_user custom images spec)
  unfolding apply_extensions
  apply_extensions-KeepsUser = keeps_all _ images (enabled_extensions custom) spec
