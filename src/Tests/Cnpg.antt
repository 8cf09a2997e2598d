-- ===== src/Tests/Cnpg.antt =====
-- The theorems on internal/cnpg, applied to concrete inputs.
use provider_cloudnative_pg.Common.{none, [], ◌≡◌, ◌↔◌, ◌⊎◌, ok}
use provider_cloudnative_pg.Cnpg.Validate.{
  validate_engine, validate_custom_spec, validate_synchronous, validate_scheduling,
}
use provider_cloudnative_pg.Cnpg.Validate.Sound.{IsSound, engine_checks_iff}
use provider_cloudnative_pg.Cnpg.Roles.{managed_roles_status, managed_roles}
use provider_cloudnative_pg.Cnpg.Roles.Laws.{managed_roles_status-eq-none, IsSettled}
use provider_cloudnative_pg.Tests.Data.{milli, milli-IsLawful, free_names, engine, custom, cluster}

engine_checks_iff_example :
    ((validate_engine milli free_names engine ≡ ok tt)
      × (validate_custom_spec milli free_names custom ≡ ok tt)
      × (validate_synchronous milli free_names engine custom ≡ ok tt)
      × (validate_scheduling engine.scheduling_policy custom ≡ ok tt))
    ↔ IsSound milli milli-IsLawful free_names engine custom
engine_checks_iff_example = engine_checks_iff milli milli-IsLawful free_names engine custom

managed_roles_status-eq-none_example : (managed_roles_status cluster ≡ none) ↔ (
    (managed_roles cluster.spec.managed ≡ [])
    ⊎ IsSettled cluster.status.managed_roles.cannot_reconcile
        cluster.status.managed_roles.reconciled
        (managed_roles cluster.spec.managed))
managed_roles_status-eq-none_example = managed_roles_status-eq-none cluster
