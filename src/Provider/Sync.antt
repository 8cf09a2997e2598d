-- ===== src/Provider/Sync.antt =====
-- `Sync` of internal/provider/provider.go: the sequence of its calls, over a state of the Kubernetes
-- API that each write passes on, and their errors.
pub mod Chains
pub mod Ends
pub mod Kept
pub mod Guarded
pub mod Errors
pub mod Applied
pub mod Backups
pub mod Safe
pub mod Poolers
pub mod Monitors
use provider_cloudnative_pg.Common.{
  String, Bool, false, not, Option, none, some, List, is_empty, Result, ok, err, Got, if◌then◌else◌,
}
use provider_cloudnative_pg.Common.Dict.{Dict, lookup}
use provider_cloudnative_pg.Cnpg.Types.{
  Opaque, Cluster, ClusterSpec, DatabaseSpec, BootstrapRecovery, ExternalCluster,
}
use provider_cloudnative_pg.Cnpg.Components.{CnpgCustomSpec, PgBouncerParameters, component_engine}
use provider_cloudnative_pg.Cnpg.Quantities.{ComponentSpec, Quantities, Resources}
use provider_cloudnative_pg.Cnpg.Extensions.Images
use provider_cloudnative_pg.Cnpg.Extensions.Images.{
  Catalog, ExtensionImages, resolve_extension_images,
}
use provider_cloudnative_pg.Cnpg.Extensions.Database.{sync_extensions_database}
use provider_cloudnative_pg.Barman.Types.{
  Backup, BackupConfig, CnpgBackup, DataSource, Instance, ScheduledBackup,
}
use provider_cloudnative_pg.Barman.ObjectStore
use provider_cloudnative_pg.Barman.ObjectStore.{sync_backup_infrastructure}
use provider_cloudnative_pg.Barman.Restore
use provider_cloudnative_pg.Barman.Restore.{build_recovery_config}
use provider_cloudnative_pg.Barman.Schedule.Sync
use provider_cloudnative_pg.Barman.Schedule.Sync.{Listed, SyncError, sync_scheduled_backups}
use provider_cloudnative_pg.Provider.Types.{Pooler}
use provider_cloudnative_pg.Provider.Desired
use provider_cloudnative_pg.Provider.Desired.{build_cluster_spec, complete}
use provider_cloudnative_pg.Provider.Pooler
use provider_cloudnative_pg.Provider.Pooler.{sync_pooler}
use provider_cloudnative_pg.Provider.PodMonitor
use provider_cloudnative_pg.Provider.PodMonitor.{PodMonitor, Reply, sync_pod_monitor}
use provider_cloudnative_pg.Provider.Validation.{TopologyParameters, zero_custom}

-- The image functions of the runtime at the provider's specification.
pub record ProviderSpec : Type 0 where
  pub image_for_version : String → String
  pub default_image : String

-- The calls that `Sync` and its parts make, with the states of the calls on ObjectStores; `none` is the
-- nil error.
pub record Client : Type 1 where
  pub stores : ObjectStore.Client
  -- `ReconcileDataSource`, which returns whether the restore is done.
  pub reconcile_data_source : stores.State → Result String Bool × stores.State
  pub provider_spec : stores.State → Result String ProviderSpec
  pub get_catalog : stores.State → String → Got Catalog
  pub get_backup : stores.State → String → Got Backup
  pub get_cnpg_backup : stores.State → String → Got CnpgBackup
  -- A write of the Cluster returns it as the API has it.
  pub apply_cluster : String → ClusterSpec → stores.State → Result String Cluster × stores.State
  pub apply_pod_monitor : PodMonitor → stores.State → Reply × stores.State
  pub delete_pod_monitor : String → stores.State → Reply × stores.State
  pub apply_pooler : Pooler → stores.State → Option String × stores.State
  pub has_pooler : stores.State → String → Result String Bool
  pub delete_pooler : String → stores.State → Option String × stores.State
  pub apply_database : String → DatabaseSpec → stores.State → Option String × stores.State
  pub apply_scheduled : ScheduledBackup → stores.State → Option String × stores.State
  pub list_scheduled : stores.State → Result String (List Listed)
  pub delete_scheduled : String → stores.State → Option String × stores.State

abbrev pub schedule_client : Client → Sync.Client
schedule_client c = record {
  State = c.stores.State;
  apply = c.apply_scheduled;
  list = c.list_scheduled;
  delete = c.delete_scheduled;
}

-- The Instance, and what the runtime computes from it or decodes.
pub record Input (Quantity : Type 0) : Type 0 where
  pub self : Instance
  pub version : String
  pub components : Dict (ComponentSpec Quantity)
  pub topology : Option String
  pub extension_catalog : String
  pub runtime : Desired.Runtime
  pub monitoring : PodMonitor.Runtime
  pub proxy_labels : Dict String
  pub resources_text : Resources Quantity → Opaque
  pub try_decode : ComponentSpec Quantity → Bool
  pub decode_custom : ComponentSpec Quantity → Result String CnpgCustomSpec
  pub decode_proxy : String → Result String PgBouncerParameters
  pub decode_topology : String → Result String TopologyParameters
  pub unmarshal_backup : String → Result String BackupConfig

pub data Error : Type 0 where
  data_source_failed bad_custom_spec provider_spec_failed apply_failed database_failed :
      String → Error
  -- The dereference of a nil pointer in `buildClusterSpec`.
  panics : Error
  of_images : Images.Error → Error
  of_recovery : Restore.Error → Error
  of_infrastructure : ObjectStore.Error → Error
  of_pod_monitor : PodMonitor.Error → Error
  of_pooler : Pooler.Error → Error
  of_schedules : SyncError → Error

-- `if err != nil { return err }` after a call that changes the state.
unfoldable pub chain :
    {E F A B S : Type 0} → (E → F) → Result E A × S → (A → S → Result F B × S) → Result F B × S
chain f (err e, s) next = (err (f e), s)
chain f (ok a, s) next = next a s

-- The same after a call that only reads.
unfoldable pub check :
    {E F A B S : Type 0} → (E → F) → Result E A → S → (A → Result F B × S) → Result F B × S
check f (err e) s next = (err (f e), s)
check f (ok a) s next = next a

abbrev zero_engine : {Quantity : Type 0} → ComponentSpec Quantity
zero_engine = record {
  kind = "";
  version = "";
  image = "";
  replicas = none;
  storage = none;
  resources = none;
  scheduling_policy = none;
  parameters = none;
}

-- `c.Instance().Spec.Components[common.ComponentEngine]`
abbrev pub engine_of : {Quantity : Type 0} → Dict (ComponentSpec Quantity) → ComponentSpec Quantity
engine_of components = elim (lookup component_engine components) [
  | none ↦ zero_engine
  | some engine ↦ engine
]

abbrev pub requires_tls : CnpgCustomSpec → Bool
requires_tls custom = elim custom.require_tls [ none ↦ false | some b ↦ b ]

abbrev with_provider_spec : Desired.Runtime → ProviderSpec → Desired.Runtime
with_provider_spec r spec = record r {
  image_for_version = spec.image_for_version;
  default_image = spec.default_image;
}

module _ (q : Quantities) (c : Client) (i : Input q.Quantity) where
  open q use {Quantity}

  abbrev pub custom_of : ComponentSpec Quantity → Result String CnpgCustomSpec
  custom_of engine = if i.try_decode engine then i.decode_custom engine else ok zero_custom

  -- `ProviderSpec` is read only for an engine without an image.
  abbrev pub runtime_for : String → c.stores.State → Result String Desired.Runtime
  runtime_for image s = if not (is_empty image) then ok i.runtime else elim (c.provider_spec s) [
    | err e ↦ err e
    | ok spec ↦ ok (with_provider_spec i.runtime spec)
  ]

  abbrev pub recovery_for :
      CnpgCustomSpec
      → Option DataSource
      → c.stores.State
      → Result Restore.Error (Option (BootstrapRecovery × ExternalCluster))
  recovery_for custom none s = ok none
  recovery_for custom (some ds) s =
      elim (build_recovery_config (c.get_backup s) (c.get_cnpg_backup s) i.self.name ds custom) [
        | err e ↦ err e
        | ok recovery ↦ ok (some recovery)
      ]

  abbrev pub sync_database :
      CnpgCustomSpec → ExtensionImages → c.stores.State → Result String (Unit {0}) × c.stores.State
  sync_database custom images s =
      let (failed, s') =
        sync_extensions_database c.apply_database i.runtime.default_database i.runtime.default_user
          i.self.name (some custom) images s in
      (elim failed [ none ↦ ok tt | some e ↦ err e ], s')

  -- From `if !dataSource.Done` on.
  unfoldable pub sync_restored :
      CnpgCustomSpec
      → ExtensionImages
      → Bool
      → c.stores.State
      → Result Error (Unit {0}) × c.stores.State
  sync_restored custom images done s =
      if not done
      then (ok tt, s)
      else chain database_failed (sync_database custom images s) (λ _ s.
        chain of_schedules
          (sync_scheduled_backups (schedule_client c) i.unmarshal_backup i.self.name i.self.backup
            s)
          (λ _ s. (ok tt, s)))

  -- From the PodMonitor on.
  unfoldable pub sync_resources :
      CnpgCustomSpec
      → ExtensionImages
      → Bool
      → Cluster
      → c.stores.State
      → Result Error (Unit {0}) × c.stores.State
  unfolding sync_restored
  sync_resources custom images done pg s =
      chain of_pod_monitor
        (sync_pod_monitor c.apply_pod_monitor c.delete_pod_monitor i.decode_topology i.topology
          i.monitoring i.self.name pg s)
        (λ _ s.
          chain of_pooler
            (sync_pooler q i.decode_proxy c.apply_pooler c.has_pooler c.delete_pooler
              i.resources_text i.self.name i.proxy_labels i.components (requires_tls custom) s)
            (λ _ s. sync_restored custom images done s))

  -- From the backup infrastructure on.
  unfoldable pub sync_cluster :
      Desired.Runtime
      → ComponentSpec Quantity
      → CnpgCustomSpec
      → ExtensionImages
      → Option (BootstrapRecovery × ExternalCluster)
      → Bool
      → ClusterSpec
      → c.stores.State
      → Result Error (Unit {0}) × c.stores.State
  unfolding sync_resources
  sync_cluster r engine custom images recovery done spec s =
      chain of_infrastructure (sync_backup_infrastructure c.stores i.self s) (λ plugins s.
        chain apply_failed
          (c.apply_cluster i.self.name (complete r engine custom images recovery plugins spec) s)
          (λ pg s. sync_resources custom images done pg s))

  -- From `buildClusterSpec` on, with its result.
  unfoldable pub sync_spec :
      ComponentSpec Quantity
      → CnpgCustomSpec
      → Bool
      → Option ClusterSpec
      → c.stores.State
      → Result Error (Unit {0}) × c.stores.State
  unfolding sync_cluster
  sync_spec engine custom done none s = (err panics, s)
  sync_spec engine custom done (some spec) s =
      check provider_spec_failed (runtime_for engine.image s) s (λ r.
        check of_images
          (resolve_extension_images (c.get_catalog s) i.extension_catalog (some custom)
            engine.version i.version)
          s
          (λ images.
            check of_recovery (recovery_for custom i.self.data_source s) s
              (λ recovery. sync_cluster r engine custom images recovery done spec s)))

  unfoldable pub sync : c.stores.State → Result Error (Unit {0}) × c.stores.State
  unfolding sync_spec
  sync s =
      let engine = engine_of i.components in
      chain data_source_failed (c.reconcile_data_source s) (λ done s.
        check bad_custom_spec (custom_of engine) s
          (λ custom. sync_spec engine custom done (build_cluster_spec q engine custom) s))
