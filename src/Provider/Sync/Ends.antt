-- ===== src/Provider/Sync/Ends.antt =====
-- `Sync` of internal/provider/provider.go: what a run without an error has done.
use provider_cloudnative_pg.Common.{
  String, true, Option, none, some, List, ◌≡◌, sym, subst, Result, ok,
}
use provider_cloudnative_pg.Cnpg.Types.{ClusterSpec, BootstrapRecovery, ExternalCluster}
use provider_cloudnative_pg.Cnpg.Components.{CnpgCustomSpec}
use provider_cloudnative_pg.Cnpg.Quantities.{ComponentSpec, Quantities}
use provider_cloudnative_pg.Cnpg.Extensions.Images.{ExtensionImages}
use provider_cloudnative_pg.Barman.Types.{ScheduledBackup}
use provider_cloudnative_pg.Barman.Schedule.{build_scheduled_backups}
use provider_cloudnative_pg.Barman.Schedule.Sync.{sync_scheduled_backups}
use provider_cloudnative_pg.Barman.Schedule.Refines.{
  IsStore, last_named, sync_scheduled_backups-refines,
}
use provider_cloudnative_pg.Provider.Desired
use provider_cloudnative_pg.Provider.Sync.Chains.{chain-end, check-end, chain-last}
use provider_cloudnative_pg.Provider.Sync.{
  Client, Input, Error, chain, schedule_client, sync_restored, sync_resources, sync_cluster,
  sync_spec, sync,
}

-- What holds of every end of `SyncScheduledBackups` without an error holds of every end of `Sync` without
-- one, once the restore is done.
module _ (q : Quantities) (c : Client) (i : Input q.Quantity) (P : c.stores.State → Type 0)
    (last : (s : c.stores.State)
      → (sync_scheduled_backups
          (schedule_client c)
          i.unmarshal_backup
          i.self.name
          i.self.backup
          s).0
        ≡ ok tt
      → P
          (sync_scheduled_backups
            (schedule_client c)
            i.unmarshal_backup
            i.self.name
            i.self.backup
            s).1) where
  End : Result Error (Unit {0}) × c.stores.State → Type 0
  End r = P r.1

  restored-End :
      (custom : CnpgCustomSpec) (images : ExtensionImages) (s : c.stores.State)
      → (sync_restored q c i custom images true s).0 ≡ ok tt
      → End (sync_restored q c i custom images true s)
  unfolding sync_restored End
  restored-End custom images s =
      chain-end End _ _ _ tt
        (λ _ s h. let ends = chain-last _ _ h in subst P (sym ends.1) (last s ends.0))

  cluster-End :
      (r : Desired.Runtime) (engine : ComponentSpec q.Quantity) (custom : CnpgCustomSpec)
      (images : ExtensionImages) (recovery : Option (BootstrapRecovery × ExternalCluster))
      (spec : ClusterSpec) (s : c.stores.State)
      → (sync_cluster q c i r engine custom images recovery true spec s).0 ≡ ok tt
      → End (sync_cluster q c i r engine custom images recovery true spec s)
  unfolding sync_cluster sync_resources
  cluster-End r engine custom images recovery spec s = chain-end End _ _ _ tt (λ _ _.
      chain-end End _ _ _ tt (λ pg s.
        chain-end End _ _ _ tt
          (λ _ _. chain-end End _ _ _ tt (λ _ s. restored-End custom images s))))

  spec-End :
      (engine : ComponentSpec q.Quantity) (custom : CnpgCustomSpec) (spec : Option ClusterSpec)
      (s : c.stores.State)
      → (sync_spec q c i engine custom true spec s).0 ≡ ok tt
      → End (sync_spec q c i engine custom true spec s)
  unfolding sync_spec
  spec-End engine custom none s h = cc
  spec-End engine custom (some spec) s h =
      check-end End _ _ s _ tt
        (λ r. check-end End _ _ s _ tt (λ images.
          check-end End _ _ s _ tt
            (λ recovery. cluster-End r engine custom images recovery spec s)))
        h

  pub sync-End :
      (s reconciled : c.stores.State)
      → c.reconcile_data_source s ≡ (ok true, reconciled)
      → (sync q c i s).0 ≡ ok tt
      → P (sync q c i s).1
  unfolding sync End chain
  sync-End s reconciled done h =
      rw (done, sync)
        (check-end End _ _ reconciled _ tt (λ custom. spec-End _ custom _ reconciled)
          (rw (done, sync) at h))

module _ (q : Quantities) (c : Client) (i : Input q.Quantity) (desired : List ScheduledBackup)
    (built : build_scheduled_backups i.unmarshal_backup i.self.name i.self.backup
      ≡ ok desired) where
  -- After a run of `Sync` without an error, with the restore done, the ScheduledBackups that the
  -- Instance controls are those that its spec asks for, each with the content that the spec gives it.
  pub sync-refines :
      (l : IsStore (schedule_client c)) (s reconciled : c.stores.State)
      → c.reconcile_data_source s ≡ (ok true, reconciled)
      → (sync q c i s).0 ≡ ok tt
      → (n : String) → IsStore.content l (sync q c i s).1 n ≡ last_named n desired
  sync-refines l s reconciled done h n =
      sync-End q c i (λ s. IsStore.content l s n ≡ last_named n desired)
        (λ s.
          sync_scheduled_backups-refines (schedule_client c) l i.unmarshal_backup i.self.name
            i.self.backup s desired n built)
        s reconciled done h
