-- ===== src/Barman/Schedule/Retained.antt =====
-- When the schedules of a storage agree on their retention.
use provider_cloudnative_pg.Common.{
  String, List, [], ◌∷◌, ◌≡◌, refl, sym, ap, ne_of_test, ◌∙◌, ◌↔◌, ◌⊎◌, inl, inr, eq_iff, All,
  text_cases, Result, ok, err,
}
use provider_cloudnative_pg.Barman.Types.{BackupSchedule, InstanceBackupStorage}
use provider_cloudnative_pg.Barman.Schedule.{
  schedule_duration, retention_loop, retention_of, storage_retention_policy,
}

Result-cases : {E A : Type 0} (r : Result E A) → ((a : A) × (r ≡ ok a)) ⊎ ((e : E) × (r ≡ err e))
Result-cases (ok a) = inl (a, refl)
Result-cases (err e) = inr (e, refl)

retention_loop-eq-ok :
    (storage policy result : String) (schedules : List BackupSchedule)
    → (retention_loop storage policy schedules ≡ ok result)
      ↔ ((policy ≡ result) × All (λ s. schedule_duration s ≡ ok result) schedules)
unfolding retention_loop
retention_loop-eq-ok storage policy result [] = (λ h. (cc, tt), λ (e, _). ap ok e)
retention_loop-eq-ok storage policy result (s ∷ schedules) =
    elim (Result-cases (schedule_duration s)) [
      | inr (e, bad) ↦ rw (bad, retention_loop) (λ h. cc, λ h. cc (h.1.0))
      | inl (d, good) ↦ elim (text_cases d policy) [
        | inl same ↦
            let rest = retention_loop-eq-ok storage d result schedules in
            let test = (eq_iff d policy).1 same in
            (
              λ h.
                  let r = rest.0 (rw (good, test, retention_loop) at h) in
                  (sym same ∙ r.0, (good ∙ ap ok r.0, r.1)),
              λ h. rw (good, test, retention_loop) (rest.1 (same ∙ h.0, h.1.1)),
            )
        | inr other ↦
            rw (good, other, retention_loop)
              (λ h. cc, λ h. absurd (ne_of_test d policy other (cc (h.0, h.1.0))))
      ]
    ]

retention_of-eq-ok :
    (storage result : String) (schedules : List BackupSchedule)
    → (retention_of storage schedules ≡ ok result)
      ↔ (All (λ s. schedule_duration s ≡ ok result) schedules × (schedules ≡ [] → result ≡ ""))
unfolding retention_of
retention_of-eq-ok storage result [] = (λ h. (tt, λ _. cc), λ (_, e). rw (e refl))
retention_of-eq-ok storage result (s ∷ schedules) = elim (Result-cases (schedule_duration s)) [
  | inr (e, bad) ↦ rw (bad, retention_of) (λ h. cc, λ h. cc (h.0.0))
  | inl (d, good) ↦
      let rest = retention_loop-eq-ok storage d result schedules in
      (
        λ h.
            let r = rest.0 (rw (good, retention_of) at h) in
            ((good ∙ ap ok r.0, r.1), λ none_there. cc),
        λ h.
            let same : d ≡ result = cc (good, h.0.0) in
            rw (good, retention_of) (rest.1 (same, h.0.1)),
      )
]

-- A storage has a retention policy exactly when all its schedules have one and the same duration,
-- where a schedule without retention has the empty one; a storage without schedules has the empty
-- policy.
pub storage_retention_policy_iff :
    (storage : InstanceBackupStorage) (policy : String)
    → (storage_retention_policy storage ≡ ok policy) ↔ (
        All (λ s. schedule_duration s ≡ ok policy) storage.schedules
        × (storage.schedules ≡ [] → policy ≡ ""))
unfolding storage_retention_policy
storage_retention_policy_iff storage policy =
    retention_of-eq-ok storage.storage_ref policy storage.schedules
