-- ===== src/Provider/Sync/Errors.antt =====
-- `Sync` of internal/provider/provider.go: the errors that come before its own first write.
use provider_cloudnative_pg.Common.{
  Bool, true, false, Option, none, some, ◌≡◌, refl, Result, ok, err,
}
use provider_cloudnative_pg.Cnpg.Types.{ClusterSpec, BootstrapRecovery, ExternalCluster}
use provider_cloudnative_pg.Cnpg.Components.{CnpgCustomSpec}
use provider_cloudnative_pg.Cnpg.Quantities.{ComponentSpec, Quantities}
use provider_cloudnative_pg.Cnpg.Extensions.Images.{ExtensionImages}
use provider_cloudnative_pg.Provider.Desired
use provider_cloudnative_pg.Provider.Sync.Chains.{chain-error}
use provider_cloudnative_pg.Provider.Sync.{
  Client, Input, Error, chain, check, sync_restored, sync_resources, sync_cluster, sync_spec, sync,
}

-- The errors of `ReconcileDataSource`, of the engine's parameters, of `buildClusterSpec`, of the provider's
-- specification, of the extension images and of the recovery. Those of the backup infrastructure, which
-- reads its storages between its writes, and of all that comes after it are no such errors.
abbrev pub is_early : Error → Bool
is_early (Error.data_source_failed e) = true
is_early (Error.bad_custom_spec e) = true
is_early Error.panics = true
is_early (Error.provider_spec_failed e) = true
is_early (Error.of_images e) = true
is_early (Error.of_recovery e) = true
is_early _ = false

-- A check keeps the state on every error that the rest meets in the same state.
check-stays :
    {E F A B S : Type 0} (f : E → F) (m : Result E A) (s : S) (next : A → Result F B × S) (e : F)
    → ((a : A) → (next a).0 ≡ err e → (next a).1 ≡ s)
    → (check f m s next).0 ≡ err e
    → (check f m s next).1 ≡ s
unfolding check
check-stays f (err x) s next e later h = refl
check-stays f (ok a) s next e later h = later a h

-- A chain leaves the state of its first call on every error that the rest meets in that state.
chain-stays :
    {E F A B S : Type 0} (f : E → F) (m : Result E A × S) (next : A → S → Result F B × S) (e : F)
    → ((a : A) (s : S) → (next a s).0 ≡ err e → (next a s).1 ≡ s)
    → (chain f m next).0 ≡ err e
    → (chain f m next).1 ≡ m.1
unfolding chain
chain-stays f (err x, s) next e later h = refl
chain-stays f (ok a, s) next e later h = later a s h

abbrev pub IsLate : Error → Type 0
IsLate e = is_early e ≡ false

module _ (q : Quantities) (c : Client) (i : Input q.Quantity) where
  restored-IsLate :
      (custom : CnpgCustomSpec) (images : ExtensionImages) (done : Bool) (s : c.stores.State)
      (e : Error)
      → (sync_restored q c i custom images done s).0 ≡ err e
      → IsLate e
  unfolding sync_restored
  restored-IsLate custom images false s e h = cc
  restored-IsLate custom images true s e h =
      chain-error IsLate _ _ _ e (λ x. refl)
        (λ _ s. chain-error IsLate _ _ _ e (λ x. refl) (λ _ s h. cc)) h

  pub cluster-IsLate :
      (r : Desired.Runtime) (engine : ComponentSpec q.Quantity) (custom : CnpgCustomSpec)
      (images : ExtensionImages) (recovery : Option (BootstrapRecovery × ExternalCluster))
      (done : Bool) (spec : ClusterSpec) (s : c.stores.State) (e : Error)
      → (sync_cluster q c i r engine custom images recovery done spec s).0 ≡ err e
      → IsLate e
  unfolding sync_cluster sync_resources
  cluster-IsLate r engine custom images recovery done spec s e =
      chain-error IsLate _ _ _ e (λ x. refl)
        (λ plugins s.
          chain-error IsLate _ _ _ e (λ x. refl)
            (λ pg s.
              chain-error IsLate _ _ _ e (λ x. refl)
                (λ _ s.
                  chain-error IsLate _ _ _ e (λ x. refl)
                    (λ _ s. restored-IsLate custom images done s e))))

  spec-stays :
      (engine : ComponentSpec q.Quantity) (custom : CnpgCustomSpec) (done : Bool)
      (spec : Option ClusterSpec) (s : c.stores.State) (e : Error)
      → is_early e ≡ true
      → (sync_spec q c i engine custom done spec s).0 ≡ err e
      → (sync_spec q c i engine custom done spec s).1 ≡ s
  unfolding sync_spec
  spec-stays engine custom done none s e early h = refl
  spec-stays engine custom done (some spec) s e early h =
      check-stays _ _ s _ e
        (λ r. check-stays _ _ s _ e (λ images. check-stays _ _ s _ e (λ recovery h.
          let late = cluster-IsLate r engine custom images recovery done spec s e h in cc)))
        h

  -- A run of `Sync` that ends with an error of `ReconcileDataSource`, of the decoding of the engine's
  -- parameters, of `buildClusterSpec`, of the read of the provider's specification, of the images of the
  -- extensions or of the recovery ends in the state in which `ReconcileDataSource` left the API.
  pub sync_early_error :
      (s : c.stores.State) (e : Error)
      → is_early e ≡ true
      → (sync q c i s).0 ≡ err e
      → (sync q c i s).1 ≡ (c.reconcile_data_source s).1
  unfolding sync
  sync_early_error s e early =
      chain-stays _ (c.reconcile_data_source s) _ e
        (λ done s. check-stays _ _ s _ e (λ custom. spec-stays _ custom done _ s e early))
