-- ===== src/Provider/Sync/Guarded.antt =====
-- `Sync` of internal/provider/provider.go: what a run leaves alone while a restore is at work, and what
-- an error leaves behind.
use provider_cloudnative_pg.Common.{
  String, false, Option, none, some, Option-cases, Bool-cases, inl, inr, List, [], ◌∷◌, ◌≡◌, refl,
  Result, ok, err,
}
use provider_cloudnative_pg.Cnpg.Types.{Cluster, ClusterSpec, BootstrapRecovery, ExternalCluster}
use provider_cloudnative_pg.Cnpg.Components.{CnpgCustomSpec}
use provider_cloudnative_pg.Cnpg.Quantities.{ComponentSpec, Quantities}
use provider_cloudnative_pg.Cnpg.Extensions.Images.{ExtensionImages}
use provider_cloudnative_pg.Barman.Types.{Instance, InstanceBackupStorage, ObjectStore}
use provider_cloudnative_pg.Provider.Desired
use provider_cloudnative_pg.Barman.ObjectStore
use provider_cloudnative_pg.Barman.ObjectStore.{
  prepare, sync_storages, with_plugins, sync_enabled, backup_storages, sync_backup_infrastructure,
}
use provider_cloudnative_pg.Provider.Types.{Pooler}
use provider_cloudnative_pg.Provider.PodMonitor.{PodMonitor, sync_pod_monitor}
use provider_cloudnative_pg.Provider.Validation
use provider_cloudnative_pg.Provider.Validation.{PrometheusParameters, prometheus_parameters}
use provider_cloudnative_pg.Provider.Sync.Chains.{chain-keeps, check-keeps}
use provider_cloudnative_pg.Provider.Sync.{
  Client, Input, chain, sync_restored, sync_resources, sync_cluster, sync_spec, sync,
}
use provider_cloudnative_pg.Provider.Sync.Kept.{pooler-keeps}

-- Every write but those of the Database and the ScheduledBackups keeps the property.
pub record Keeps (c : Client) (K : c.stores.State → Type 0) : Type 0 where
  pub store : (o : ObjectStore) (s : c.stores.State) → K s → K (c.stores.apply_object_store o s).1
  pub cluster :
      (n : String) (spec : ClusterSpec) (s : c.stores.State) → K s → K (c.apply_cluster n spec s).1
  pub monitor : (m : PodMonitor) (s : c.stores.State) → K s → K (c.apply_pod_monitor m s).1
  pub no_monitor : (n : String) (s : c.stores.State) → K s → K (c.delete_pod_monitor n s).1
  pub pooler : (p : Pooler) (s : c.stores.State) → K s → K (c.apply_pooler p s).1
  pub no_pooler : (n : String) (s : c.stores.State) → K s → K (c.delete_pooler n s).1

module _ (c : Client) (K : c.stores.State → Type 0) (keeps : Keeps c K) where
  storages-keeps :
      (self : Instance) (storages : List InstanceBackupStorage) (s : c.stores.State)
      → K s
      → K (sync_storages c.stores self storages s).1
  unfolding sync_storages
  storages-keeps self [] s here = here
  storages-keeps self (strg ∷ storages) s here =
      go (λ s. storages-keeps self storages s) (prepare c.stores s self strg) refl
    where
      go :
          ((s : c.stores.State) → K s → K (sync_storages c.stores self storages s).1)
          → (r : Result ObjectStore.Error ObjectStore) → prepare c.stores s self strg ≡ r
          → K (sync_storages c.stores self (strg ∷ storages) s).1
      go rest (err e) got = rw (got, sync_storages) here
      go rest (ok store) got =
          let written = keeps.store store s here in
          let later = rest (c.stores.apply_object_store store s).1 written in
          elim (Option-cases (c.stores.apply_object_store store s).0) [
            | inl fine ↦ rw (got, fine, sync_storages) later
            | inr (e, bad) ↦ rw (got, bad, sync_storages) written
          ]

  infrastructure-keeps :
      (self : Instance) (storages : List InstanceBackupStorage) (s : c.stores.State)
      → K s
      → K (sync_enabled c.stores self storages s).1
  unfolding sync_enabled
  infrastructure-keeps self [] s here = here
  infrastructure-keeps self (strg ∷ storages) s here =
      with_plugins-keeps strg.storage_ref (sync_storages c.stores self (strg ∷ storages) s)
        (storages-keeps self (strg ∷ storages) s here)
    where
      with_plugins-keeps :
          (main : String) (r : Result ObjectStore.Error (Unit {0}) × c.stores.State)
          → K r.1
          → K (with_plugins main r).1
      with_plugins-keeps main (err e, s) h = h
      with_plugins-keeps main (ok _, s) h = h

  module _ (q : Quantities) (i : Input q.Quantity) where
    monitor-keeps :
        (pg : Cluster) (s : c.stores.State)
        → K s
        → K
            (sync_pod_monitor c.apply_pod_monitor c.delete_pod_monitor i.decode_topology i.topology
              i.monitoring i.self.name pg s).1
    unfolding sync_pod_monitor
    monitor-keeps pg s here = go (prometheus_parameters i.decode_topology i.topology) refl
      where
        go :
            (r : Result Validation.Error PrometheusParameters)
            → prometheus_parameters i.decode_topology i.topology ≡ r
            → K
                (sync_pod_monitor c.apply_pod_monitor c.delete_pod_monitor i.decode_topology
                  i.topology i.monitoring i.self.name pg s).1
        go (err e) got = rw (got, sync_pod_monitor) here
        go (ok p) got = elim (Bool-cases p.enabled) [
          | inl on ↦ rw (got, on, sync_pod_monitor) (keeps.monitor _ s here)
          | inr off ↦ rw (got, off, sync_pod_monitor) (keeps.no_monitor _ s here)
        ]

    resources-keeps :
        (custom : CnpgCustomSpec) (images : ExtensionImages) (pg : Cluster) (s : c.stores.State)
        → K s
        → K (sync_resources q c i custom images false pg s).1
    unfolding sync_resources sync_restored
    resources-keeps custom images pg s here =
        chain-keeps K _ _ _ (monitor-keeps pg s here) (λ _ s here.
          chain-keeps K _ _ _ (pooler-keeps c K q i keeps.pooler keeps.no_pooler _ s here)
            (λ _ s here. here))

    cluster-keeps :
        (r : Desired.Runtime) (engine : ComponentSpec q.Quantity) (custom : CnpgCustomSpec)
        (images : ExtensionImages) (recovery : Option (BootstrapRecovery × ExternalCluster))
        (spec : ClusterSpec) (s : c.stores.State)
        → K s
        → K (sync_cluster q c i r engine custom images recovery false spec s).1
    unfolding sync_cluster sync_backup_infrastructure
    cluster-keeps r engine custom images recovery spec s here =
        chain-keeps K _ _ _ (infrastructure-keeps i.self (backup_storages i.self.backup) s here)
          (λ plugins s here.
            chain-keeps K _ _ _ (keeps.cluster _ _ s here)
              (λ pg s here. resources-keeps custom images pg s here))

    spec-keeps :
        (engine : ComponentSpec q.Quantity) (custom : CnpgCustomSpec) (spec : Option ClusterSpec)
        (s : c.stores.State)
        → K s
        → K (sync_spec q c i engine custom false spec s).1
    unfolding sync_spec
    spec-keeps engine custom none s here = here
    spec-keeps engine custom (some spec) s here = check-keeps K _ _ s _ here (λ r.
        check-keeps K _ _ s _ here (λ images.
          check-keeps K _ _ s _ here
            (λ recovery. cluster-keeps r engine custom images recovery spec s here)))

    -- While a restore is at work, a run of `Sync` keeps every property that the writes other than
    -- those of the Database and the ScheduledBackups keep: it writes neither of them, whatever else
    -- it does and however it ends.
    pub sync-keeps :
        (s reconciled : c.stores.State)
        → c.reconcile_data_source s ≡ (ok false, reconciled)
        → K reconciled
        → K (sync q c i s).1
    unfolding sync chain
    sync-keeps s reconciled at_work here =
        rw (at_work, sync)
          (check-keeps K _ _ reconciled _ here (λ custom. spec-keeps _ custom _ reconciled here))
