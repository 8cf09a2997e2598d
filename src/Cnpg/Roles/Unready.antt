-- ===== src/Cnpg/Roles/Unready.antt =====
-- The managed roles of internal/cnpg/roles.go never report readiness.
use provider_cloudnative_pg.Common.{String, List, [], ◌∷◌}
use provider_cloudnative_pg.Cnpg.Types.{Cluster, ManagedRoles}
use provider_cloudnative_pg.Cnpg.Status.{Unready}
use provider_cloudnative_pg.Cnpg.Roles.{
  managed_roles_status, roles_status, report, awaiting_status, awaiting_roles, managed_roles,
}

awaiting-Unready : (roles : List String) → Unready (awaiting_status roles)
unfolding awaiting_status
awaiting-Unready [] d h = cc
awaiting-Unready (r ∷ rs) d h = cc

roles-Unready : (s : ManagedRoles) (roles : List String) → Unready (roles_status s roles)
unfolding roles_status report
roles-Unready s [] d h = cc
roles-Unready s (r ∷ rs) d h = go s.cannot_reconcile d h
  where
    go : (es : List (String × List String)) → Unready (report es s.reconciled (r ∷ rs))
    go [] d h = awaiting-Unready (awaiting_roles s.reconciled (r ∷ rs)) d h
    go (e ∷ es) d h = cc

pub managed_roles-Unready : (pg : Cluster) → Unready (managed_roles_status pg)
unfolding managed_roles_status
managed_roles-Unready pg d h =
    roles-Unready pg.status.managed_roles (managed_roles pg.spec.managed) d h
