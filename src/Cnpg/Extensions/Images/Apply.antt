-- ===== src/Cnpg/Extensions/Images/Apply.antt =====
-- The settings of the enabled extensions on the Cluster: a second pass changes
-- nothing.
use provider_cloudnative_pg.Common.{
  String, true, Option, none, some, List, [], ◌∷◌, ◌≡◌, refl, ap, contains, All,
}
use provider_cloudnative_pg.Common.Dict.{Dict}
use provider_cloudnative_pg.Cnpg.Types.{ClusterSpec, BootstrapOptions}
use provider_cloudnative_pg.Cnpg.Components.{CnpgCustomSpec}
use provider_cloudnative_pg.Cnpg.Extensions.Table.{Extension, enabled_extensions}
use provider_cloudnative_pg.Cnpg.Extensions.Images.{
  ExtensionImages, add_missing, add_defaults, add_bootstrap_sql, apply_extension, apply_all,
  apply_extensions,
}
use provider_cloudnative_pg.Cnpg.Extensions.Images.Defaults.{
  contains-add_missing, add_missing-All, add_missing_of_All, is_set, is_set-add_defaults,
  add_defaults-All, add_defaults_of_All,
}
use provider_cloudnative_pg.Cnpg.Extensions.Images.Applied.{
  IsNamed, IsApplied, HasBootstrap, has_config-add_image, has_config-add_image_new,
  add_image_of_has_config, HasSql-add_bootstrap_sql, HasSql-add_bootstrap_sql_new,
  add_bootstrap_sql_of_HasSql,
}

module _ (owner : String) (images : ExtensionImages) where
  IsApplied-apply_extension :
      (ext other : Extension) (spec : ClusterSpec)
      → IsApplied owner images ext spec
      → IsApplied owner images ext (apply_extension owner images other spec)
  unfolding apply_extension
  IsApplied-apply_extension ext other spec done = record {
    image = λ h. has_config-add_image images other.catalog_entry ext.catalog_entry _ (done.image h);
    libraries = keep_libraries ext.preload_libraries done.libraries;
    parameters = keep_parameters ext.default_parameters done.parameters;
    bootstrap = keep_bootstrap ext.bootstrap_sql other.bootstrap_sql done.bootstrap;
  }
    where
      keep_libraries :
          (ys : List String)
          → All (λ y. contains spec.postgresql.additional_libraries y ≡ true) ys
          → All
              (λ y.
                contains
                  (add_missing spec.postgresql.additional_libraries other.preload_libraries)
                  y
                ≡ true)
              ys
      keep_libraries [] h = tt
      keep_libraries (y ∷ ys) (here, rest) =
          (contains-add_missing _ other.preload_libraries y here, keep_libraries ys rest)

      keep_parameters :
          (ds : Dict String)
          → All (λ d. is_set spec.postgresql.parameters d.0 ≡ true) ds
          → All
              (λ d.
                is_set (add_defaults spec.postgresql.parameters other.default_parameters) d.0
                ≡ true)
              ds
      keep_parameters [] h = tt
      keep_parameters (d ∷ ds) (here, rest) =
          (is_set-add_defaults _ other.default_parameters d.0 here, keep_parameters ds rest)

      keep_bootstrap :
          (mine theirs : Option (String → String))
          → HasBootstrap mine owner spec.bootstrap
          → HasBootstrap mine owner (elim theirs [
            | none ↦ spec.bootstrap
            | some sql ↦ add_bootstrap_sql (sql owner) spec.bootstrap
          ])
      keep_bootstrap none theirs h = tt
      keep_bootstrap (some sql) none h = h
      keep_bootstrap (some sql) (some other_sql) h =
          HasSql-add_bootstrap_sql (sql owner) (other_sql owner) spec.bootstrap h

  IsApplied-apply_extension_new :
      (ext : Extension) (spec : ClusterSpec)
      → IsNamed images
      → IsApplied owner images ext (apply_extension owner images ext spec)
  unfolding apply_extension
  IsApplied-apply_extension_new ext spec named = record {
    image = λ h. has_config-add_image_new images ext.catalog_entry _ named h;
    libraries = add_missing-All spec.postgresql.additional_libraries ext.preload_libraries;
    parameters = add_defaults-All spec.postgresql.parameters ext.default_parameters;
    bootstrap = added ext.bootstrap_sql;
  }
    where
      added :
          (mine : Option (String → String))
          → HasBootstrap mine owner (elim mine [
            | none ↦ spec.bootstrap
            | some sql ↦ add_bootstrap_sql (sql owner) spec.bootstrap
          ])
      added none = tt
      added (some sql) = HasSql-add_bootstrap_sql_new (sql owner) spec.bootstrap

  apply_extension_of_IsApplied :
      (ext : Extension) (spec : ClusterSpec)
      → IsApplied owner images ext spec
      → apply_extension owner images ext spec ≡ spec
  unfolding apply_extension
  apply_extension_of_IsApplied ext spec done =
      rw
        (
          add_image_of_has_config images ext.catalog_entry spec.postgresql.extensions done.image,
          add_missing_of_All spec.postgresql.additional_libraries ext.preload_libraries
              done.libraries,
          add_defaults_of_All spec.postgresql.parameters ext.default_parameters done.parameters,
        )
        (ap (λ b. record spec { bootstrap = b }) (same ext.bootstrap_sql done.bootstrap))
    where
      same :
          (mine : Option (String → String))
          → HasBootstrap mine owner spec.bootstrap
          → (let b : Option BootstrapOptions = elim mine [
            | none ↦ spec.bootstrap
            | some sql ↦ add_bootstrap_sql (sql owner) spec.bootstrap
          ] in
              b ≡ spec.bootstrap)
      same none h = refl
      same (some sql) h = add_bootstrap_sql_of_HasSql (sql owner) spec.bootstrap h

  apply_all-IsApplied :
      (exts : List Extension) (ext : Extension) (spec : ClusterSpec)
      → IsApplied owner images ext spec
      → IsApplied owner images ext (apply_all owner images exts spec)
  unfolding apply_all
  apply_all-IsApplied [] ext spec done = done
  apply_all-IsApplied (e ∷ exts) ext spec done =
      apply_all-IsApplied exts ext (apply_extension owner images e spec)
        (IsApplied-apply_extension ext e spec done)

  apply_all-All :
      (exts : List Extension) (spec : ClusterSpec)
      → IsNamed images
      → All (λ ext. IsApplied owner images ext (apply_all owner images exts spec)) exts
  unfolding apply_all
  apply_all-All [] spec named = tt
  apply_all-All (e ∷ exts) spec named = (
    apply_all-IsApplied exts e _ (IsApplied-apply_extension_new e spec named),
    apply_all-All exts (apply_extension owner images e spec) named,
  )

  apply_all_of_All :
      (exts : List Extension) (spec : ClusterSpec)
      → All (λ ext. IsApplied owner images ext spec) exts
      → apply_all owner images exts spec ≡ spec
  unfolding apply_all
  apply_all_of_All [] spec h = refl
  apply_all_of_All (e ∷ exts) spec (here, rest) =
      rw (apply_extension_of_IsApplied e spec here) (apply_all_of_All exts spec rest)

module _ (default_database default_user : String) (custom : Option CnpgCustomSpec)
    (images : ExtensionImages) (spec : ClusterSpec) where
  abbrev pub once : ClusterSpec
  once = apply_extensions default_database default_user custom images spec

  -- Where each image carries the name of its catalog entry, a second pass over the Cluster changes
  -- nothing.
  pub apply_extensions_idempotent :
      IsNamed images → apply_extensions default_database default_user custom images once ≡ once
  unfolding apply_extensions
  apply_extensions_idempotent named =
      apply_all_of_All _ images (enabled_extensions custom) _
        (apply_all-All _ images (enabled_extensions custom) spec named)
