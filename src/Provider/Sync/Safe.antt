-- ===== src/Provider/Sync/Safe.antt =====
-- `Validate` and `Sync` of internal/provider/provider.go: what an accepted Instance saves a run from.
use provider_cloudnative_pg.Common.{Bool, Option, none, some, ◌≡◌, ◌≢◌, refl, Result, ok, err}
use provider_cloudnative_pg.Common.Dict.{lookup}
use provider_cloudnative_pg.Cnpg.Types.{BootstrapRecovery, ClusterSpec, ExternalCluster}
use provider_cloudnative_pg.Cnpg.Components.{CnpgCustomSpec, component_engine}
use provider_cloudnative_pg.Cnpg.Quantities.{ComponentSpec, NameChecks, Quantities}
use provider_cloudnative_pg.Cnpg.Validate.{validate_engine}
use provider_cloudnative_pg.Barman.Types.{DataSource}
use provider_cloudnative_pg.Barman.Restore
use provider_cloudnative_pg.Barman.Restore.{validate_data_source, build_recovery_config}
use provider_cloudnative_pg.Barman.Restore.Recovery.{build_recovery_config-never_panics}
use provider_cloudnative_pg.Provider.Desired.{build_cluster_spec}
use provider_cloudnative_pg.Provider.Desired.Laws.{build_cluster_spec-total}
use provider_cloudnative_pg.Provider.Validation
use provider_cloudnative_pg.Provider.Validation.{validate}
use provider_cloudnative_pg.Provider.Validation.Laws.{Accepted, accepted, validate_iff}
use provider_cloudnative_pg.Provider.Sync.Chains.{chain-error, check-error}
use provider_cloudnative_pg.Provider.Sync.Errors.{IsLate, cluster-IsLate}
use provider_cloudnative_pg.Provider.Sync.{
  Client, Input, Error, engine_of, recovery_for, sync_spec, sync,
}

-- An error that is no dereference of a nil pointer.
abbrev pub IsCalm : Error → Type 0
IsCalm e = (e ≢ Error.panics) × (e ≢ Error.of_recovery Restore.Error.panics)

late-IsCalm : (e : Error) → IsLate e → IsCalm e
late-IsCalm e late = ((λ h. cc (rw h at late)), λ h. cc (rw h at late))

module _ (q : Quantities) (names : NameChecks) (c : Client) (i : Input q.Quantity) where
  recovery-IsCalm :
      (custom : CnpgCustomSpec) (source : Option DataSource) (s : c.stores.State)
      (x : Restore.Error)
      → validate_data_source source ≡ ok tt
      → recovery_for q c i custom source s ≡ err x
      → IsCalm (Error.of_recovery x)
  recovery-IsCalm custom none s x valid h = cc
  recovery-IsCalm custom (some ds) s x valid h = (
    (λ e. cc),
    λ e.
        built (build_recovery_config (c.get_backup s) (c.get_cnpg_backup s) i.self.name ds custom)
          refl e,
  )
    where
      built :
          (r : Result Restore.Error (BootstrapRecovery × ExternalCluster))
          → build_recovery_config (c.get_backup s) (c.get_cnpg_backup s) i.self.name ds custom ≡ r
          → Error.of_recovery x ≢ Error.of_recovery Restore.Error.panics
      built (ok r) e same = cc (rw (e, recovery_for) at h)
      built (err y) e same =
          build_recovery_config-never_panics (c.get_backup s) (c.get_cnpg_backup s) i.self.name ds
            custom valid (cc (rw (e, recovery_for) at h))

  module _ (engine : validate_engine q names (engine_of i.components) ≡ ok tt)
      (source : validate_data_source i.self.data_source ≡ ok tt) where
    spec-IsCalm :
        (custom : CnpgCustomSpec) (done : Bool) (spec : Option ClusterSpec) (s : c.stores.State)
        (e : Error)
        → build_cluster_spec q (engine_of i.components) custom ≡ spec
        → (sync_spec q c i (engine_of i.components) custom done spec s).0 ≡ err e
        → IsCalm e
    unfolding sync_spec
    spec-IsCalm custom done none s e built h =
        elim (build_cluster_spec-total q names (engine_of i.components) custom engine built) [ ]
    spec-IsCalm custom done (some spec) s e built h =
        check-error IsCalm _ _ s _ e (λ x _. ((λ h. cc), λ h. cc))
          (λ r.
            check-error IsCalm _ _ s _ e (λ x _. ((λ h. cc), λ h. cc))
              (λ images.
                check-error IsCalm _ _ s _ e
                  (λ x. recovery-IsCalm custom i.self.data_source s x source)
                  (λ recovery h. late-IsCalm e (
                    cluster-IsLate q c i r (engine_of i.components) custom images recovery done spec
                      s e h))))
          h

    sync-IsCalm : (s : c.stores.State) (e : Error) → (sync q c i s).0 ≡ err e → IsCalm e
    unfolding sync
    sync-IsCalm s e =
        chain-error IsCalm _ (c.reconcile_data_source s) _ e (λ x. ((λ h. cc), λ h. cc))
          (λ done s.
            check-error IsCalm _ _ s _ e (λ x _. ((λ h. cc), λ h. cc))
              (λ custom. spec-IsCalm custom done _ s e refl))

  engine-found :
      (engine : ComponentSpec q.Quantity)
      → lookup component_engine i.components ≡ some engine
      → engine_of i.components ≡ engine
  engine-found engine e = rw (e, engine_of) refl

  -- For an Instance that `Validate` accepts, no run of `Sync` dereferences a nil pointer, whatever the
  -- Kubernetes API answers and in whatever state it is: an error of the run is another one.
  pub validate-sync-IsCalm :
      (v : Validation.Input q.Quantity) (s : c.stores.State) (e : Error)
      → v.components ≡ i.components
      → v.data_source ≡ i.self.data_source
      → validate q names v ≡ ok tt
      → (sync q c i s).0 ≡ err e
      → IsCalm e
  validate-sync-IsCalm v s e components source valid = go ((validate_iff q names v).0 valid)
    where
      go : Accepted q names v → (sync q c i s).0 ≡ err e → IsCalm e
      go (accepted engine custom images there h1 h2 h3 h4 h5 h6 h7 h8 h9 h10 h11 h12 h13) =
          let same = engine-found engine (rw components at there) in
          sync-IsCalm (rw same h1) (rw source at h13) s e
