-- ===== src/Cnpg/Roles.antt =====
-- internal/cnpg/roles.go: the managed roles' part in the readiness of the Instance.
pub mod Laws
pub mod Unready
use provider_cloudnative_pg.Common.{
  String, ◌<>◌, Bool, true, false, not, Option, none, some, List, [], ◌∷◌, map, filter, contains,
}
use provider_cloudnative_pg.Common.Texts.{join, quote}
use provider_cloudnative_pg.Cnpg.Types.{Cluster, ManagedRoles, ManagedConfiguration}
use provider_cloudnative_pg.Cnpg.Status.{Status, failed, provisioning, text}

unfoldable pub failure_message : String × List String → String
unfolding join quote
failure_message (role, errors) =
    "managed PostgreSQL role " <> (quote role <> (" cannot be reconciled: " <> join "; " errors))

unfoldable pub awaiting_roles : List String → List String → List String
awaiting_roles reconciled roles = filter (λ r. not (contains reconciled r)) roles

awaiting_status : List String → Option Status
awaiting_status [] = none
awaiting_status (r ∷ rs) = some (
    provisioning
      (text ("waiting for managed PostgreSQL roles to be reconciled: " <> join ", " (r ∷ rs))))

-- The roles that the Cluster manages; a nil configuration has none.
abbrev pub managed_roles : Option ManagedConfiguration → List String
managed_roles none = []
managed_roles (some m) = m.roles

report : List (String × List String) → List String → List String → Option Status
report [] reconciled roles = awaiting_status (awaiting_roles reconciled roles)
report (e ∷ es) reconciled roles = some (failed (text (join "\n" (map failure_message (e ∷ es)))))

roles_status : ManagedRoles → List String → Option Status
roles_status status [] = none
roles_status status (r ∷ rs) = report status.cannot_reconcile status.reconciled (r ∷ rs)

-- `none` is the second result false.
unfoldable pub managed_roles_status : Cluster → Option Status
unfolding roles_status report awaiting_status awaiting_roles failure_message
managed_roles_status pg = roles_status pg.status.managed_roles (managed_roles pg.spec.managed)
