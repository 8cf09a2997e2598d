-- ===== src/Cnpg/Extensions/Images/Applied.antt =====
-- When the settings of one extension are on the Cluster, helper by helper.
use provider_cloudnative_pg.Common.{
  String, Bool, true, Option, none, some, List, [], ◌∷◌, ◌≡◌, refl, ◌==◌, eq_iff, eq_refl, is_some,
  any, contains, All, Option-cases, inl, inr, arith,
}
use provider_cloudnative_pg.Common.Dict.{lookup}
use provider_cloudnative_pg.Cnpg.Types.{
  ClusterSpec, ExtensionConfiguration, BootstrapOptions, BootstrapInitDb,
}
use provider_cloudnative_pg.Cnpg.Extensions.Table.{Extension}
use provider_cloudnative_pg.Cnpg.Extensions.Images.{
  ExtensionImage, ExtensionImages, add_image, add_bootstrap_sql,
}
use provider_cloudnative_pg.Cnpg.Extensions.Images.Defaults.{
  any-append, contains-add_missing, add_missing-All, is_set,
}

-- Every image carries the name under which it stands.
abbrev pub IsNamed : ExtensionImages → Type 0
IsNamed images =
    (entry : String) (image : ExtensionImage)
    → lookup entry images ≡ some image
    → image.config.name ≡ entry

abbrev pub has_config : String → List ExtensionConfiguration → Bool
has_config entry = any (λ e. e.name == entry)

abbrev pub HasSqlInit : String → Option BootstrapInitDb → Type 0
HasSqlInit statement none = ⊥
HasSqlInit statement (some i) = contains i.post_init_application_sql statement ≡ true

abbrev pub HasSql : String → Option BootstrapOptions → Type 0
HasSql statement none = ⊥
HasSql statement (some b) = HasSqlInit statement b.init_db

abbrev pub HasBootstrap : Option (String → String) → String → Option BootstrapOptions → Type 0
HasBootstrap none owner b = Unit
HasBootstrap (some sql) owner b = HasSql (sql owner) b

-- The Cluster has all that the extension sets.
pub record IsApplied (owner : String) (images : ExtensionImages) (ext : Extension)
    (spec : ClusterSpec) : Type 0 where
  pub image :
      is_some (lookup ext.catalog_entry images) ≡ true
      → has_config ext.catalog_entry spec.postgresql.extensions ≡ true
  pub libraries :
      All (λ y. contains spec.postgresql.additional_libraries y ≡ true) ext.preload_libraries
  pub parameters : All (λ d. is_set spec.postgresql.parameters d.0 ≡ true) ext.default_parameters
  pub bootstrap : HasBootstrap ext.bootstrap_sql owner spec.bootstrap

module _ (images : ExtensionImages) where
  pub has_config-add_image :
      (entry s : String) (xs : List ExtensionConfiguration)
      → has_config s xs ≡ true
      → has_config s (add_image images entry xs) ≡ true
  unfolding add_image
  has_config-add_image entry s xs h = elim (Option-cases (lookup entry images)) [
    | inl missing ↦ rw (missing, add_image) h
    | inr (image, hit) ↦
        rw (hit, add_image) (ground (arith, any-append (λ e. e.name == s) xs (image.config ∷ [])))
  ]

  pub has_config-add_image_new :
      (entry : String) (xs : List ExtensionConfiguration)
      → IsNamed images
      → is_some (lookup entry images) ≡ true
      → has_config entry (add_image images entry xs) ≡ true
  unfolding add_image
  has_config-add_image_new entry xs named h = elim (Option-cases (lookup entry images)) [
    | inl missing ↦ cc
    | inr (image, hit) ↦
        rw (hit, add_image)
          (ground (
            arith,
            any-append (λ e. e.name == entry) xs (image.config ∷ []),
            named entry image hit,
            eq_iff image.config.name entry,
          ))
  ]

  pub add_image_of_has_config :
      (entry : String) (xs : List ExtensionConfiguration)
      → (is_some (lookup entry images) ≡ true → has_config entry xs ≡ true)
      → add_image images entry xs ≡ xs
  unfolding add_image
  add_image_of_has_config entry xs h = elim (Option-cases (lookup entry images)) [
    | inl missing ↦ rw (missing, add_image)
    | inr (image, hit) ↦ rw (hit, add_image) (rw (h (rw hit refl)))
  ]

pub HasSql-add_bootstrap_sql :
    (statement other : String) (b : Option BootstrapOptions)
    → HasSql statement b
    → HasSql statement (add_bootstrap_sql other b)
unfolding add_bootstrap_sql
HasSql-add_bootstrap_sql statement other none h = absurd h
HasSql-add_bootstrap_sql statement other (some b) h = go b.init_db h
  where
    go :
        (i : Option BootstrapInitDb)
        → HasSqlInit statement i
        → HasSql statement (add_bootstrap_sql other (some (record b { init_db = i })))
    go none k = absurd k
    go (some i) k = contains-add_missing i.post_init_application_sql (other ∷ []) statement k

pub HasSql-add_bootstrap_sql_new :
    (statement : String) (b : Option BootstrapOptions)
    → HasSql statement (add_bootstrap_sql statement b)
unfolding add_bootstrap_sql
HasSql-add_bootstrap_sql_new statement none = ground (arith, eq_refl statement)
HasSql-add_bootstrap_sql_new statement (some b) = go b.init_db
  where
    go :
        (i : Option BootstrapInitDb)
        → HasSql statement (add_bootstrap_sql statement (some (record b { init_db = i })))
    go none = ground (arith, eq_refl statement)
    go (some i) = (add_missing-All i.post_init_application_sql (statement ∷ [])).0

pub add_bootstrap_sql_of_HasSql :
    (statement : String) (b : Option BootstrapOptions)
    → HasSql statement b
    → add_bootstrap_sql statement b ≡ b
unfolding add_bootstrap_sql
add_bootstrap_sql_of_HasSql statement none h = absurd h
add_bootstrap_sql_of_HasSql statement (some b) h = go b.init_db h
  where
    go :
        (i : Option BootstrapInitDb)
        → HasSqlInit statement i
        → add_bootstrap_sql statement (some (record b { init_db = i }))
          ≡ some (record b { init_db = i })
    go none k = absurd k
    go (some i) k = rw k
