-- ===== src/Cnpg/Extensions/Rules/Spec.antt =====
-- What the checks on extensions accept, stated on the toggles.
use provider_cloudnative_pg.Common.{
  String, Bool, true, false, not, ◌&&◌, Option, List, [], ◌∷◌, ◌≡◌, refl, ◌↔◌, inl, inr, ◌==◌,
  eq_iff, is_empty, any, filter, All, In, All-In, All-of_In, In-filter, Bool-cases, Result, ok,
  each, each-eq-ok, each-reject, arith,
}
use provider_cloudnative_pg.Cnpg.Components.{CnpgCustomSpec}
use provider_cloudnative_pg.Cnpg.Extensions.Table.{
  Extension, enabled, enabled_extensions, first_class_extensions, timescaledb,
  timescaledb_community, postgis, pgrouting,
}
use provider_cloudnative_pg.Cnpg.Extensions.Versions.{
  postgres_version, postgres_major, version_at_least,
}
use provider_cloudnative_pg.Cnpg.Extensions.Rules.{
  Error, requires_extension, conflicting, has_field, validate_extension, validate_extensions,
}

any-filter {ℓ} :
    {A : Type ℓ} (p q : A → Bool) (xs : List A) → any q (filter p xs) ≡ any (λ x. q x && p x) xs
any-filter p q [] = refl
any-filter p q (x ∷ xs) = ground (arith, any-filter p q xs)

-- The rules of the extensions, by toggle.
pub record IsAllowed (custom : Option CnpgCustomSpec) (version major : String) : Type 0 where
  pub image_volume :
      (e : Extension)
      → In e first_class_extensions
      → enabled e custom ≡ true
      → (e.catalog_entry == "") ≡ false
      → major ≡ "18"
  pub community :
      enabled timescaledb_community custom ≡ true → version_at_least version "18.6" ≡ true
  pub routing : enabled pgrouting custom ≡ true → enabled postgis custom ≡ true
  pub editions : enabled timescaledb custom ≡ true → enabled timescaledb_community custom ≡ false

abbrev image_fails : String → Extension → Bool
image_fails major ext = not (is_empty ext.catalog_entry) && not (major == "18")

abbrev version_fails : String → Extension → Bool
version_fails version ext =
    not (is_empty ext.min_postgres_version)
    && not (version_at_least version ext.min_postgres_version)

-- What a round of the loop asks of an extension beyond the major version.
abbrev IsCompatible : String → List Extension → Extension → Type 0
IsCompatible version on ext =
    (version_fails version ext ≡ false)
    × All (λ r. not (has_field r on) ≡ false) ext.requires
    × All (λ c. has_field c on ≡ false) ext.conflicts

validate_extension_iff :
    (version major : String) (on : List Extension) (ext : Extension)
    → (validate_extension version major on ext ≡ ok tt)
      ↔ ((image_fails major ext ≡ false) × IsCompatible version on ext)
unfolding validate_extension
validate_extension_iff version major on ext =
    let required =
      each-reject (λ r. not (has_field r on)) (λ r. requires_extension ext.field r) ext.requires in
    let clashing = each-reject (λ c. has_field c on) (λ c. conflicting ext.field c) ext.conflicts in
    (
      λ h. (ground arith, (ground arith, required.0 (ground arith), clashing.0 (ground arith))),
      λ (image, compatible).
          rw (image, compatible.0, required.1 compatible.1, clashing.1 compatible.2),
    )

module _ (custom : Option CnpgCustomSpec) where
  listed :
      (e : Extension)
      → In e first_class_extensions
      → enabled e custom ≡ true
      → In e (enabled_extensions custom)
  unfolding enabled_extensions
  listed e m on = (In-filter _ first_class_extensions e).1 (m, on)

  listed_only :
      (e : Extension)
      → In e (enabled_extensions custom)
      → In e first_class_extensions × (enabled e custom ≡ true)
  unfolding enabled_extensions
  listed_only e m = (In-filter _ first_class_extensions e).0 m

  has_field-postgis : has_field "postgis" (enabled_extensions custom) ≡ enabled postgis custom
  unfolding enabled_extensions first_class_extensions
  has_field-postgis = rw any-filter (ground arith)

  has_field-timescaledb :
      has_field "timescaledb" (enabled_extensions custom) ≡ enabled timescaledb custom
  unfolding enabled_extensions first_class_extensions
  has_field-timescaledb = rw any-filter (ground arith)

  has_field-community :
      has_field "timescaledbCommunity" (enabled_extensions custom)
      ≡ enabled timescaledb_community custom
  unfolding enabled_extensions first_class_extensions
  has_field-community = rw any-filter (ground arith)

  module _ (version major : String) (a : IsAllowed custom version major) where
    IsCompatible-of_In :
        (e : Extension)
        → In e first_class_extensions
        → enabled e custom ≡ true
        → IsCompatible version (enabled_extensions custom) e
    unfolding first_class_extensions
    IsCompatible-of_In e (inl p) =
        rw p (λ h. (refl, tt, (rw has_field-community (a.editions h), tt)))
    IsCompatible-of_In e (inr (inl p)) =
        rw p (λ h. (rw (a.community h), tt, (rw has_field-timescaledb (off h), tt)))
      where
        off : enabled timescaledb_community custom ≡ true → enabled timescaledb custom ≡ false
        off h = elim (Bool-cases (enabled timescaledb custom)) [
          | inl on ↦ cc (a.editions on)
          | inr none_on ↦ none_on
        ]
    IsCompatible-of_In e (inr (inr (inl p))) = rw p (λ h. (refl, tt, tt))
    IsCompatible-of_In e (inr (inr (inr (inl p)))) =
        rw p (λ h. (refl, (rw (has_field-postgis, a.routing h), tt), tt))
    IsCompatible-of_In e (inr (inr (inr (inr (inl p))))) = rw p (λ h. (refl, tt, tt))
    IsCompatible-of_In e (inr (inr (inr (inr (inr (inl p)))))) = rw p (λ h. (refl, tt, tt))
    IsCompatible-of_In e (inr (inr (inr (inr (inr (inr (inl p))))))) = rw p (λ h. (refl, tt, tt))
    IsCompatible-of_In e (inr (inr (inr (inr (inr (inr (inr (inl p)))))))) =
        rw p (λ h. (refl, tt, tt))
    IsCompatible-of_In e (inr (inr (inr (inr (inr (inr (inr (inr (inl p))))))))) =
        rw p (λ h. (refl, tt, tt))
    IsCompatible-of_In e (inr (inr (inr (inr (inr (inr (inr (inr (inr m))))))))) = absurd m

  abbrev all_rounds : String → String → Result Error (Unit {0})
  all_rounds version major =
      each (validate_extension version major (enabled_extensions custom))
        (enabled_extensions custom)

  IsAllowed-of_rounds :
      (version major : String) → all_rounds version major ≡ ok tt → IsAllowed custom version major
  unfolding first_class_extensions
  IsAllowed-of_rounds version major h = record {
    image_volume = λ e m on named. (eq_iff major "18").0 (ground (arith, (round e m on).0));
    community = λ on. ground (arith, (round timescaledb_community (inr (inl refl)) on).1.0);
    routing = λ on.
        ground (arith, (round pgrouting (inr (inr (inr (inl refl)))) on).1.1.0, has_field-postgis);
    editions = λ on. ground (arith, (round timescaledb (inl refl) on).1.2.0, has_field-community);
  }
    where
      round :
          (e : Extension)
          → In e first_class_extensions
          → enabled e custom ≡ true
          → (image_fails major e ≡ false) × IsCompatible version (enabled_extensions custom) e
      round e m on =
          (validate_extension_iff version major (enabled_extensions custom) e).0
            (All-In _ (enabled_extensions custom) ((each-eq-ok _ _).0 h) e (listed e m on))

  rounds_of_IsAllowed :
      (version major : String) → IsAllowed custom version major → all_rounds version major ≡ ok tt
  rounds_of_IsAllowed version major a = (each-eq-ok _ _).1 (
      All-of_In _ (enabled_extensions custom) (λ e m.
        let (known, on) = listed_only e m in
        (validate_extension_iff version major (enabled_extensions custom) e).1 (
          ground (arith, a.image_volume e known on, eq_iff major "18"),
          IsCompatible-of_In version major a e known on,
        )))

-- The checks on the spec pass exactly when: PostgreSQL has major 18 if an extension with an image is
-- on, the version is at least 18.6 if TimescaleDB Community is on, PostGIS is on if pgRouting is,
-- and the two editions of TimescaleDB are not both on.
pub validate_extensions_iff :
    (custom : Option CnpgCustomSpec) (engine_version instance_version : String)
    → (validate_extensions custom engine_version instance_version ≡ ok tt)
      ↔ IsAllowed custom
          (postgres_version engine_version instance_version)
          (postgres_major engine_version instance_version)
unfolding validate_extensions
validate_extensions_iff custom engine_version instance_version =
    (IsAllowed-of_rounds custom _ _, rounds_of_IsAllowed custom _ _)
