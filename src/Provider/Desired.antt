-- ===== src/Provider/Desired.antt =====
-- The Cluster that `Sync` of internal/provider/provider.go applies, with `applyScheduling` of
-- internal/provider/scheduling.go. A dereference of a nil pointer is the result none. What the
-- provider runtime computes is a parameter.
pub mod Laws
use provider_cloudnative_pg.Common.{
  String, ◌<>◌, Bool, true, false, not, ◌&&◌, Option, none, some, List, [], ◌∷◌, ◌++◌, ◌==◌,
  is_empty, is_nil, or_else, map, if◌then◌else◌,
}
use provider_cloudnative_pg.Common.Dict.{Dict}
use provider_cloudnative_pg.Common.Int.{ℤ}
use provider_cloudnative_pg.Cnpg.Types.{
  Opaque, ClusterSpec, StorageConfiguration, AffinityConfiguration, PostgresConfiguration,
  BootstrapOptions, BootstrapRecovery, ExternalCluster, PluginConfiguration, ResourceAmounts,
}
use provider_cloudnative_pg.Cnpg.Components.{CnpgCustomSpec, BootstrapConfiguration}
use provider_cloudnative_pg.Cnpg.Quantities.{
  Quantities, ComponentSpec, Storage, Resources, SchedulingPolicy, SchedulingAffinity,
}
use provider_cloudnative_pg.Cnpg.Extensions.Images.{ExtensionImages, apply_extensions}
use provider_cloudnative_pg.Cnpg.Tls.{apply_require_tls}

abbrev empty_affinity : AffinityConfiguration
empty_affinity = record {
  enable_pod_anti_affinity = none;
  node_selector = [];
  tolerations = [];
  node_affinity = none;
  additional_pod_affinity = none;
  additional_pod_anti_affinity = none;
}

abbrev pub empty_postgres : PostgresConfiguration
empty_postgres = record {
  parameters = [];
  pg_hba = [];
  additional_libraries = [];
  extensions = [];
  synchronous = none;
}

-- `if o != nil { x = *o }`
abbrev pub or_keep : {A : Type 0} → Option A → A → A
or_keep none x = x
or_keep (some y) x = y

-- `if o != nil { x = o }`
abbrev pub or_keep_pointer : {A : Type 0} → Option A → Option A → Option A
or_keep_pointer none x = x
or_keep_pointer (some y) x = some y

abbrev class_of : Option String → Option String
class_of none = none
class_of (some c) = if is_empty c then none else some c

module _ (q : Quantities) where
  open q use {Quantity, to_text}

  -- The specification, once the pointers of the engine are known.
  abbrev pub spec_of : ℤ → Storage Quantity → Resources Quantity → CnpgCustomSpec → ClusterSpec
  spec_of replicas storage resources custom = record {
    instances = replicas;
    image_name = "";
    image_pull_policy = "";
    priority_class_name = custom.priority_class_name;
    scheduler_name = "";
    storage = record {
      size = to_text storage.size;
      storage_class = class_of storage.storage_class;
      resize_in_use_volumes = custom.resize_in_use_volumes;
      pvc_template = custom.pvc_template;
    };
    wal_storage = custom.wal_storage;
    requests = record {
      cpu = to_text resources.request_cpu;
      memory = to_text resources.request_memory;
    };
    limits = record { cpu = to_text resources.limit_cpu; memory = to_text resources.limit_memory };
    affinity = empty_affinity;
    topology_spread_constraints = [];
    postgresql = empty_postgres;
    bootstrap = none;
    certificates = none;
    monitoring = none;
    managed = none;
    inherited_labels = [];
    plugins = [];
    external_clusters = [];
  }

  abbrev pub spec_from :
      Option (Storage Quantity)
      → Option ℤ
      → Option (Resources Quantity)
      → CnpgCustomSpec
      → Option ClusterSpec
  spec_from (some storage) (some replicas) (some resources) custom =
      some (spec_of replicas storage resources custom)
  spec_from _ _ _ custom = none

  unfoldable pub build_cluster_spec : ComponentSpec Quantity → CnpgCustomSpec → Option ClusterSpec
  build_cluster_spec engine custom =
      spec_from engine.storage engine.replicas engine.resources custom

-- `constraints` is `controller.TopologySpreadConstraints` at the labels of the Cluster's pods.
unfoldable pub apply_scheduling :
    (SchedulingPolicy → List Opaque) → Option SchedulingPolicy → ClusterSpec → ClusterSpec
apply_scheduling constraints none spec = spec
apply_scheduling constraints (some policy) spec =
    let affinity = spec.affinity in
    let selected =
      (if is_nil policy.node_selector
        then affinity
        else record affinity { node_selector = policy.node_selector }) in
    let tolerant =
      (if is_nil policy.tolerations
        then selected
        else record selected { tolerations = policy.tolerations }) in
    record spec {
      scheduler_name = policy.scheduler_name;
      affinity = with_affinity policy.affinity tolerant;
      topology_spread_constraints = constraints policy;
    }
  where
    with_affinity : Option SchedulingAffinity → AffinityConfiguration → AffinityConfiguration
    with_affinity none a = a
    with_affinity (some p) a = record a {
      enable_pod_anti_affinity = some false;
      node_affinity = p.node_affinity;
      additional_pod_affinity = p.pod_affinity;
      additional_pod_anti_affinity = p.pod_anti_affinity;
    }

-- The image of the engine: the user's, or what the provider's specification has for the version, or
-- its default. The two functions are the runtime's.
unfoldable pub image_of : (String → String) → String → String → String → String
image_of image_for_version default_image image version =
    if not (is_empty image)
    then image
    else or_else (if is_empty version then "" else image_for_version version) default_image

abbrev bootstrap_of : Option BootstrapConfiguration → Option BootstrapOptions
bootstrap_of none = none
bootstrap_of (some b) = some (record { init_db = b.init_db; recovery = none })

-- What the runtime adds to a Cluster.
pub record Runtime : Type 0 where
  pub constraints : SchedulingPolicy → List Opaque
  pub image_for_version : String → String
  pub default_image : String
  pub pod_labels : Dict String
  -- The default names of CloudNativePG's database and owner.
  pub default_database : String
  pub default_user : String

-- The assignments of `Sync` from the user's parameters, up to the extensions.
unfoldable pub customise :
    Runtime
    → Option SchedulingPolicy
    → String
    → String
    → CnpgCustomSpec
    → ExtensionImages
    → ClusterSpec
    → ClusterSpec
unfolding apply_require_tls apply_scheduling image_of apply_extensions
customise r policy image version custom images spec =
    let configured = record spec { postgresql = or_keep custom.postgresql spec.postgresql } in
    let secured = apply_require_tls configured custom in
    let placed = record secured {
      managed = or_keep_pointer custom.managed secured.managed;
      affinity = or_keep custom.affinity secured.affinity;
    } in
    let scheduled = apply_scheduling r.constraints policy placed in
    let completed = record scheduled {
      bootstrap = or_keep_pointer (bootstrap_of custom.bootstrap) scheduled.bootstrap;
      image_name = image_of r.image_for_version r.default_image image version;
      image_pull_policy = or_else scheduled.image_pull_policy "IfNotPresent";
      certificates = or_keep_pointer custom.certificates scheduled.certificates;
      monitoring = or_keep_pointer custom.monitoring scheduled.monitoring;
      inherited_labels = r.pod_labels;
    } in
    apply_extensions r.default_database r.default_user (some custom) images completed

-- `if c.Instance().Spec.DataSource != nil`
unfoldable pub set_recovery :
    Option (BootstrapRecovery × ExternalCluster) → ClusterSpec → ClusterSpec
set_recovery none spec = spec
set_recovery (some (recovery, external)) spec = record spec {
  bootstrap = some (record { init_db = none; recovery = some recovery });
  external_clusters = external ∷ [];
}

-- `if len(plugins) > 0`
unfoldable pub set_plugins : List PluginConfiguration → ClusterSpec → ClusterSpec
set_plugins [] spec = spec
set_plugins (p ∷ ps) spec = record spec { plugins = p ∷ ps }

-- The assignments of `Sync` after `buildClusterSpec`.
unfoldable pub complete :
    {Quantity : Type 0}
    → Runtime
    → ComponentSpec Quantity
    → CnpgCustomSpec
    → ExtensionImages
    → Option (BootstrapRecovery × ExternalCluster)
    → List PluginConfiguration
    → ClusterSpec
    → ClusterSpec
unfolding customise set_recovery set_plugins
complete r engine custom images recovery plugins spec = set_plugins plugins (
    set_recovery recovery
      (customise r engine.scheduling_policy engine.image engine.version custom images spec))

abbrev pub map_option : {A B : Type 0} → (A → B) → Option A → Option B
map_option f none = none
map_option f (some a) = some (f a)

-- The specification that `Sync` applies, from what the recovery and the backup infrastructure return.
unfoldable pub desired_spec :
    (q : Quantities)
    → Runtime
    → ComponentSpec q.Quantity
    → CnpgCustomSpec
    → ExtensionImages
    → Option (BootstrapRecovery × ExternalCluster)
    → List PluginConfiguration
    → Option ClusterSpec
unfolding build_cluster_spec complete
desired_spec q r engine custom images recovery plugins =
    map_option (complete r engine custom images recovery plugins)
      (build_cluster_spec q engine custom)
