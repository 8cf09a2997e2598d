-- ===== src/Provider/Backup/Restored.antt =====
-- `SyncRestore` of internal/provider/backup.go: when a restore is done and when it has failed.
use provider_cloudnative_pg.Common.{
  Bool, true, false, Option, none, some, ◌≡◌, ◌≢◌, refl, ◌↔◌, ◌⊎◌, inl, inr, Bool-cases, eq_iff, ok,
  Got, found, not_found, failed, arith, test_of_ne, ne_of_test, subst,
}
use provider_cloudnative_pg.Common.Int.{eqb_ℤ_iff}
use provider_cloudnative_pg.Cnpg.Types.{
  Cluster, ClusterPhase, Condition, unrecoverable, failure_plugin, cannot_create_cluster_objects,
  image_catalog_error, unknown_plugin, architecture_binary_missing, definition_invalid, other_phase,
}
use provider_cloudnative_pg.Barman.Types.{BackupState}
use provider_cloudnative_pg.Provider.Backup.{
  recovered, recovery_failed, restore_status, find_status_condition, sync_restore,
  RestoreExecutionStatus,
}

-- The Cluster has the condition, it is "True", there is a primary, and all instances are ready.
abbrev is_recovered : Cluster → Option Condition → Bool
is_recovered cluster none = false
is_recovered cluster (some condition) = recovered cluster condition

abbrev restore_state : Bool → Bool → BackupState
restore_state true stopped = BackupState.succeeded
restore_state false true = BackupState.failed
restore_state false false = BackupState.running

restore_state-eq :
    (cluster : Cluster) (ready : Option Condition)
    → (restore_status cluster ready).state
      ≡ restore_state (is_recovered cluster ready) (recovery_failed cluster.status.phase)
unfolding restore_status
restore_state-eq cluster none = elim (Bool-cases (recovery_failed cluster.status.phase)) [
  | inl stopped ↦ rw (stopped, restore_status) refl
  | inr going ↦ rw (going, restore_status) refl
]
restore_state-eq cluster (some condition) = elim (Bool-cases (recovered cluster condition)) [
  | inl done ↦ rw (done, restore_status) refl
  | inr waiting ↦ elim (Bool-cases (recovery_failed cluster.status.phase)) [
    | inl stopped ↦ rw (waiting, stopped, restore_status) refl
    | inr going ↦ rw (waiting, going, restore_status) refl
  ]
]

RestoreMatches : BackupState → Bool → Bool → Type 0
RestoreMatches state done stopped =
    ((state ≡ BackupState.succeeded) ↔ (done ≡ true))
    × ((state ≡ BackupState.failed) ↔ ((stopped ≡ true) × (done ≡ false)))

restore_state-RestoreMatches :
    (done stopped : Bool) → RestoreMatches (restore_state done stopped) done stopped
unfolding RestoreMatches
restore_state-RestoreMatches true stopped = ((λ _. refl, λ _. refl), (λ h. cc, λ h. cc (h.1)))
restore_state-RestoreMatches false true = ((λ h. cc, λ h. cc), (λ _. (refl, refl), λ _. refl))
restore_state-RestoreMatches false false = ((λ h. cc, λ h. cc), (λ h. cc, λ h. cc (h.0)))

-- The recovery is complete: of the conditions of the Cluster the one of type "Ready" is true, there is a
-- primary, and all instances are ready.
pub record IsRecovered (cluster : Cluster) : Type 0 where
  pub condition : Condition
  pub looked_up : find_status_condition cluster.status.conditions "Ready" ≡ some condition
  pub is_true : condition.status ≡ "True"
  pub primary : cluster.status.current_primary ≢ ""
  pub all_ready : cluster.status.ready_instances ≡ cluster.status.instances

-- The phases that stop the recovery.
abbrev pub StopsRecovery : ClusterPhase → Type 0
StopsRecovery p =
    (p ≡ unrecoverable)
    ⊎ (p ≡ failure_plugin)
    ⊎ (p ≡ cannot_create_cluster_objects)
    ⊎ (p ≡ image_catalog_error)

recovery_failed-StopsRecovery : (p : ClusterPhase) → recovery_failed p ≡ true → StopsRecovery p
unfolding recovery_failed
recovery_failed-StopsRecovery unrecoverable h = inl refl
recovery_failed-StopsRecovery failure_plugin h = inr (inl refl)
recovery_failed-StopsRecovery cannot_create_cluster_objects h = inr (inr (inl refl))
recovery_failed-StopsRecovery image_catalog_error h = inr (inr (inr refl))
recovery_failed-StopsRecovery unknown_plugin h = cc
recovery_failed-StopsRecovery architecture_binary_missing h = cc
recovery_failed-StopsRecovery definition_invalid h = cc
recovery_failed-StopsRecovery (other_phase p) h = cc

recovery_failed_of_StopsRecovery : (p : ClusterPhase) → StopsRecovery p → recovery_failed p ≡ true
unfolding recovery_failed
recovery_failed_of_StopsRecovery p (inl e) = rw e refl
recovery_failed_of_StopsRecovery p (inr (inl e)) = rw e refl
recovery_failed_of_StopsRecovery p (inr (inr (inl e))) = rw e refl
recovery_failed_of_StopsRecovery p (inr (inr (inr e))) = rw e refl

IsRecovered-iff :
    (cluster : Cluster)
    → (is_recovered cluster (find_status_condition cluster.status.conditions "Ready") ≡ true)
      ↔ IsRecovered cluster
unfolding recovered
IsRecovered-iff cluster = (
  (λ h. from (find_status_condition cluster.status.conditions "Ready") refl h),
  λ r.
      let same = eqb_ℤ_iff cluster.status.ready_instances cluster.status.instances in
      rw r.looked_up (
        ground (
          arith,
          r.is_true,
          test_of_ne cluster.status.current_primary "" r.primary,
          same.1 r.all_ready,
          eq_iff r.condition.status "True",
        )),
)
  where
    from :
        (o : Option Condition)
        → find_status_condition cluster.status.conditions "Ready" ≡ o
        → is_recovered cluster o ≡ true
        → IsRecovered cluster
    from none e h = cc
    from (some c) e h = record {
      condition = c;
      looked_up = e;
      is_true = (eq_iff c.status "True").0 (ground arith);
      primary = ne_of_test cluster.status.current_primary "" (ground arith);
      all_ready =
          (eqb_ℤ_iff cluster.status.ready_instances cluster.status.instances).0 (ground arith);
    }

restore_status-state :
    (cluster : Cluster) (ready : Option Condition)
    → RestoreMatches
        (restore_status cluster ready).state
        (is_recovered cluster ready)
        (recovery_failed cluster.status.phase)
restore_status-state cluster ready = rw (restore_state-eq cluster ready) (
    restore_state-RestoreMatches (is_recovered cluster ready)
      (recovery_failed cluster.status.phase))

-- The reported state, for what the read of the Cluster gives.
IsReported : Got Cluster → BackupState → Type 0
IsReported got state =
    ((state ≡ BackupState.succeeded)
      ↔ ((cluster : Cluster) × (got ≡ found cluster) × IsRecovered cluster))
    × ((state ≡ BackupState.failed) ↔ (
        (cluster : Cluster) × (got ≡ found cluster)
        × StopsRecovery cluster.status.phase
        × ¬ IsRecovered cluster))

found-injective : (a b : Cluster) → Path (Got Cluster) (found a) (found b) → b ≡ a
found-injective a b e = cc

restore_status-IsReported :
    (cluster : Cluster)
    → IsReported
        (found cluster)
        (restore_status cluster (find_status_condition cluster.status.conditions "Ready")).state
unfolding IsReported RestoreMatches
restore_status-IsReported cluster =
    let ready = find_status_condition cluster.status.conditions "Ready" in
    let (done, stopped) = restore_status-state cluster ready in
    let recovered = IsRecovered-iff cluster in
    (
      (
        (λ h. (cluster, refl, recovered.0 (done.0 h))),
        λ (c, e, k). done.1 (recovered.1 (subst IsRecovered (found-injective cluster c e) k)),
      ),
      (
        (λ h.
            let (stops, off) = stopped.0 h in
            (
              cluster,
              refl,
              recovery_failed-StopsRecovery cluster.status.phase stops,
              λ k. cc (off, recovered.1 k),
            )),
        λ (c, e, stops, never).
            let same = found-injective cluster c e in
            stopped.1 (
              recovery_failed_of_StopsRecovery cluster.status.phase
                  (subst (λ c. StopsRecovery c.status.phase) same stops),
              elim (Bool-cases (is_recovered cluster ready)) [
                | inl done' ↦ absurd (subst (λ c. ¬ IsRecovered c) same never (recovered.0 done'))
                | inr off ↦ off
              ],
            ),
      ),
    )

sync_restore-IsReported :
    (got : Got Cluster) (status : RestoreExecutionStatus)
    → sync_restore got ≡ ok status
    → IsReported got status.state
unfolding sync_restore IsReported
sync_restore-IsReported not_found status h =
    let pending : BackupState.pending ≡ status.state = cc in
    (((λ e. cc), λ (c, e, k). cc e), ((λ e. cc), λ (c, e, k, m). cc e))
sync_restore-IsReported (failed x) status h = cc
sync_restore-IsReported (found cluster) status h =
    let same : restore_status cluster (find_status_condition cluster.status.conditions "Ready")
        ≡ status =
      cc in
    subst (λ s. IsReported (found cluster) s.state) same (restore_status-IsReported cluster)

-- `SyncRestore` reports a restore as succeeded exactly when the Cluster exists and its condition "Ready"
-- is true, there is a primary, and all its instances are ready; and as failed exactly when the Cluster
-- exists, is not so, and its phase is one of the four that stop a recovery.
pub sync_restore-state :
    (got : Got Cluster) (status : RestoreExecutionStatus)
    → sync_restore got ≡ ok status
    → ((status.state ≡ BackupState.succeeded)
        ↔ ((cluster : Cluster) × (got ≡ found cluster) × IsRecovered cluster))
      × ((status.state ≡ BackupState.failed) ↔ (
          (cluster : Cluster) × (got ≡ found cluster)
          × StopsRecovery cluster.status.phase
          × ¬ IsRecovered cluster))
unfolding IsReported
sync_restore-state got status h = sync_restore-IsReported got status h
