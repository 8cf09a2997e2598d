-- ===== src/Tests/Extensions.antt =====
-- The theorems on internal/cnpg/extensions.go, applied to concrete inputs.
use provider_cloudnative_pg.Common.{
  true, false, none, some, [], ◌∷◌, ◌≡◌, refl, ◌↔◌, ◌⊎◌, inl, inr, ◌==◌, text_cases, eq_iff, ok, In,
  found,
}
use provider_cloudnative_pg.Common.Dict.{lookup, insert}
use provider_cloudnative_pg.Common.Texts.{atoi, split}
use provider_cloudnative_pg.Common.Int.{pos}
use provider_cloudnative_pg.Cnpg.Types.{ClusterSpec, Database}
use provider_cloudnative_pg.Cnpg.Extensions.Table.{
  Extension, pgvector, first_class_extensions, enabled_extensions, enabled, created_extensions,
}
use provider_cloudnative_pg.Cnpg.Extensions.Versions.{
  version_at_least, postgres_version, postgres_major,
}
use provider_cloudnative_pg.Cnpg.Extensions.Versions.Padded.{
  version_at_least_iff, IsAtLeast, number_at,
}
use provider_cloudnative_pg.Cnpg.Extensions.Rules.{
  validate_extensions, validate_extensions_at_creation, validate_extensions_not_disabled,
}
use provider_cloudnative_pg.Cnpg.Extensions.Rules.Spec.{validate_extensions_iff, IsAllowed}
use provider_cloudnative_pg.Cnpg.Extensions.Rules.Lifecycle.{
  validate_extensions_at_creation_iff, validate_extensions_not_disabled_iff, IsMounted,
  is_installed, creates,
}
use provider_cloudnative_pg.Cnpg.Extensions.Images.{
  Catalog, ExtensionImages, resolve_extension_images, apply_extensions,
}
use provider_cloudnative_pg.Cnpg.Extensions.Images.Apply.{apply_extensions_idempotent, once}
use provider_cloudnative_pg.Cnpg.Extensions.Images.Keeps.{apply_extensions-KeepsUser, KeepsUser}
use provider_cloudnative_pg.Cnpg.Extensions.Images.Applied.{IsNamed}
use provider_cloudnative_pg.Cnpg.Extensions.Images.Resolve.{
  resolve_extension_images-IsComplete, IsComplete,
}
use provider_cloudnative_pg.Cnpg.Extensions.Database.{extensions_status, build_extensions_database}
use provider_cloudnative_pg.Cnpg.Extensions.Database.Laws.{
  build_extensions_database-keeps, extensions_status-eq-none, IsReconciled, lists,
}
use provider_cloudnative_pg.Tests.Data.{custom, cluster, cluster_spec}

version_at_least_iff_example :
    (version_at_least "18.10" "18.6" ≡ true)
    ↔ IsAtLeast (number_at (split b'.' "18.10")) (number_at (split b'.' "18.6"))
version_at_least_iff_example = version_at_least_iff "18.10" "18.6"

validate_extensions_iff_example :
    (validate_extensions (some custom) "18.6" "" ≡ ok tt)
    ↔ IsAllowed (some custom) (postgres_version "18.6" "") (postgres_major "18.6" "")
validate_extensions_iff_example = validate_extensions_iff (some custom) "18.6" ""

validate_extensions_at_creation_iff_example :
    (validate_extensions_at_creation (λ n. found cluster) "db" (some custom) ≡ ok tt)
    ↔ IsMounted (some custom) cluster
validate_extensions_at_creation_iff_example =
    validate_extensions_at_creation_iff (λ n. found cluster) "db" (some custom) cluster refl

abbrev database : Database
database = record {
  generation = pos 1;
  spec = record {
    name = "app";
    owner = "app";
    cluster = "db";
    reclaim_policy = "retain";
    extensions =
        (record { name = "vector"; ensure = "present"; version = "" })
        ∷ (record { name = "age"; ensure = "present"; version = "" })
        ∷ [];
  };
  status = record {
    observed_generation = pos 1;
    applied = some true;
    message = "";
    extensions =
        (record { name = "vector"; applied = true; message = "" })
        ∷ (record { name = "age"; applied = true; message = "" })
        ∷ [];
  };
}

validate_extensions_not_disabled_iff_example :
    (validate_extensions_not_disabled (λ n. found database) "db" (some custom) ≡ ok tt) ↔ (
      (e : Extension)
      → In e first_class_extensions
      → (e.sql_extension == "") ≡ false
      → is_installed e.sql_extension database ≡ true
      → creates e.sql_extension (some custom) ≡ true)
validate_extensions_not_disabled_iff_example =
    validate_extensions_not_disabled_iff (λ n. found database) "db" (some custom) database refl

nothing_disabled : validate_extensions_not_disabled (λ n. found database) "db" (some custom) ≡ ok tt
unfolding validate_extensions_not_disabled created_extensions enabled_extensions
    first_class_extensions enabled
nothing_disabled = refl

pgvector_known : In pgvector first_class_extensions
unfolding first_class_extensions
pgvector_known = inr (inr (inr (inr (inl refl))))

build_extensions_database-keeps_example :
    lists "vector" (build_extensions_database "app" "app" "db" (some custom) []) ≡ true
build_extensions_database-keeps_example =
    build_extensions_database-keeps "app" "app" "db" (some custom) [] (λ n. found database) database
      pgvector refl nothing_disabled pgvector_known refl refl

extensions_status-eq-none_example :
    (extensions_status (λ n. found database) "db" (some custom) ≡ none) ↔ (
      (created_extensions (some custom) ≡ [])
      ⊎ ((db : Database) × (found database ≡ found db)
          × IsReconciled (created_extensions (some custom)) db))
extensions_status-eq-none_example =
    extensions_status-eq-none (λ n. found database) "db" (some custom)

abbrev catalog : Catalog
catalog = record {
  annotations = ("sql-version.extensions.openeverest.io/18.age", "1.6.0") ∷ [];
  find_extensions_for_major = λ major.
      (record { name = "wal2json"; image = "wal2json:1" })
      ∷ (record { name = "age"; image = "age:1" })
      ∷ [];
}

abbrev images : ExtensionImages
images =
    ("age", record { config = record { name = "age"; image = "age:1" }; sql_version = "1.6.0" })
    ∷ []

resolved :
    resolve_extension_images (λ n. found catalog) "catalog" (some custom) "18.6" "" ≡ ok images
unfolding resolve_extension_images enabled_extensions first_class_extensions enabled atoi
    postgres_major insert lookup
resolved = refl

resolve_extension_images-IsComplete_example :
    IsComplete (some custom) catalog (postgres_major "18.6" "") images
resolve_extension_images-IsComplete_example =
    resolve_extension_images-IsComplete (λ n. found catalog) "catalog" (some custom) "18.6" ""
      catalog images refl resolved

-- A Cluster with an own image of an extension, a parameter, and SQL of initdb.
abbrev user_spec : ClusterSpec
user_spec = record cluster_spec {
  postgresql = record cluster_spec.postgresql {
    parameters = ("work_mem", "8MB") ∷ [];
    extensions = (record { name = "age"; image = "own:1" }) ∷ [];
  };
  bootstrap = some (record {
    init_db = some (record {
      database = "shop";
      owner = "keeper";
      secret = none;
      post_init_application_sql = "SELECT 1" ∷ [];
    });
    recovery = none;
  });
}

apply_extensions-KeepsUser_example :
    KeepsUser user_spec (once "app" "app" (some custom) images user_spec)
apply_extensions-KeepsUser_example =
    apply_extensions-KeepsUser "app" "app" (some custom) images user_spec

images-IsNamed : IsNamed images
unfolding lookup
images-IsNamed entry image h = elim (text_cases "age" entry) [
  | inl first ↦ cc (first, rw ((eq_iff "age" entry).1 first, lookup) at h)
  | inr other ↦ cc (rw (other, lookup) at h)
]

apply_extensions_idempotent_example :
    apply_extensions "app" "app"
      (some custom)
      images
      (once "app" "app" (some custom) images cluster_spec)
    ≡ once "app" "app" (some custom) images cluster_spec
apply_extensions_idempotent_example =
    apply_extensions_idempotent "app" "app" (some custom) images cluster_spec images-IsNamed
