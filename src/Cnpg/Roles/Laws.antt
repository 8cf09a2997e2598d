-- ===== src/Cnpg/Roles/Laws.antt =====
-- When the managed roles let the Instance become ready.
use provider_cloudnative_pg.Common.{
  String, true, none, List, [], ◌∷◌, ◌≡◌, refl, ◌↔◌, ◌⊎◌, inl, inr, contains, All, Bool-cases,
}
use provider_cloudnative_pg.Cnpg.Types.{Cluster, ManagedRoles}
use provider_cloudnative_pg.Cnpg.Roles.{
  awaiting_roles, awaiting_status, managed_roles, report, roles_status, managed_roles_status,
}

awaiting_roles-eq-nil :
    (reconciled roles : List String)
    → (awaiting_roles reconciled roles ≡ []) ↔ All (λ r. contains reconciled r ≡ true) roles
unfolding awaiting_roles
awaiting_roles-eq-nil reconciled [] = (λ _. tt, λ _. refl)
awaiting_roles-eq-nil reconciled (r ∷ roles) =
    let rest = awaiting_roles-eq-nil reconciled roles in
    elim (Bool-cases (contains reconciled r)) [
      | inl there ↦ rw (there, awaiting_roles) (λ h. (refl, rest.0 h), λ h. rest.1 h.1)
      | inr missing ↦ rw (missing, awaiting_roles) (λ h. cc, λ h. cc)
    ]

awaiting_status-eq-none : (roles : List String) → (awaiting_status roles ≡ none) ↔ (roles ≡ [])
unfolding awaiting_status
awaiting_status-eq-none [] = (λ _. refl, λ _. refl)
awaiting_status-eq-none (r ∷ rs) = (λ h. cc, λ h. cc)

-- No role has an error, and every managed role is reconciled.
abbrev pub IsSettled : List (String × List String) → List String → List String → Type 0
IsSettled failures reconciled roles =
    (failures ≡ []) × All (λ r. contains reconciled r ≡ true) roles

report-eq-none :
    (failures : List (String × List String)) (reconciled roles : List String)
    → (report failures reconciled roles ≡ none) ↔ IsSettled failures reconciled roles
unfolding report
report-eq-none [] reconciled roles =
    let one = awaiting_status-eq-none (awaiting_roles reconciled roles) in
    let all = awaiting_roles-eq-nil reconciled roles in
    (λ h. (refl, all.0 (one.0 h)), λ (_, a). one.1 (all.1 a))
report-eq-none (e ∷ es) reconciled roles = (λ h. cc, λ (h, _). cc)

roles_status-eq-none :
    (status : ManagedRoles) (roles : List String)
    → (roles_status status roles ≡ none)
      ↔ ((roles ≡ []) ⊎ IsSettled status.cannot_reconcile status.reconciled roles)
unfolding roles_status
roles_status-eq-none status [] = (λ _. inl refl, λ _. refl)
roles_status-eq-none status (r ∷ rs) =
    let inner = report-eq-none status.cannot_reconcile status.reconciled (r ∷ rs) in
    (λ h. inr (inner.0 h), elim [ inl bad ↦ cc | inr s ↦ inner.1 s ])

-- The managed roles let the Instance become ready exactly when the Cluster manages none, or when no
-- role is reported with errors and every managed role is reported as reconciled.
pub managed_roles_status-eq-none :
    (pg : Cluster)
    → (managed_roles_status pg ≡ none) ↔ (
        (managed_roles pg.spec.managed ≡ [])
        ⊎ IsSettled pg.status.managed_roles.cannot_reconcile pg.status.managed_roles.reconciled
            (managed_roles pg.spec.managed))
unfolding managed_roles_status
managed_roles_status-eq-none pg =
    roles_status-eq-none pg.status.managed_roles (managed_roles pg.spec.managed)
