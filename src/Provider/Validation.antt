-- ===== src/Provider/Validation.antt =====
-- `Validate` of internal/provider/provider.go, with `validatePrometheus` of
-- internal/provider/podmonitor.go. The decoding of JSON, the checks of names and the reads of the
-- Kubernetes API are parameters.
pub mod Laws
use provider_cloudnative_pg.Common.{
  String, Bool, true, false, not, ◌&&◌, Option, none, some, List, [], ◌∷◌, is_nil, Result, ok, err,
  ◌>>=◌, ◌>>◌, reject, wrap, Got, if◌then◌else◌,
}
use provider_cloudnative_pg.Common.Dict.{Dict, lookup}
use provider_cloudnative_pg.Cnpg.Types.{Cluster, Database}
use provider_cloudnative_pg.Cnpg.Components.{CnpgCustomSpec, PgBouncerParameters, component_engine}
use provider_cloudnative_pg.Cnpg.Quantities.{ComponentSpec, NameChecks, Quantities}
use provider_cloudnative_pg.Cnpg.Validate
use provider_cloudnative_pg.Cnpg.Validate.{
  validate_engine, validate_custom_spec, validate_synchronous, validate_scheduling,
}
use provider_cloudnative_pg.Cnpg.Extensions.Rules
use provider_cloudnative_pg.Cnpg.Extensions.Rules.{
  validate_extensions, validate_extensions_at_creation, validate_extensions_not_disabled,
}
use provider_cloudnative_pg.Cnpg.Extensions.Images
use provider_cloudnative_pg.Cnpg.Extensions.Images.{Catalog, resolve_extension_images}
use provider_cloudnative_pg.Barman.Types.{BackupConfig, DataSource, InstanceBackupSpec}
use provider_cloudnative_pg.Barman.Schedule
use provider_cloudnative_pg.Barman.Schedule.{validate_schedules}
use provider_cloudnative_pg.Barman.Restore
use provider_cloudnative_pg.Barman.Restore.{validate_data_source}
use provider_cloudnative_pg.Provider.Pooler
use provider_cloudnative_pg.Provider.Pooler.{validate_proxy}

-- `PrometheusParameters`, and `MonitoringParameters` and `ReplicaSetTopologyParameters` around it.
pub record PrometheusParameters : Type 0 where
  pub enabled : Bool
  pub pod_monitor_labels : Dict String

pub record TopologyParameters : Type 0 where
  pub monitoring : Option (Option PrometheusParameters)

pub data Error : Type 0 where
  engine_required : Error
  of_validate : Validate.Error → Error
  of_schedules : Schedule.Error → Error
  bad_custom_spec : String → Error
  of_extensions : Rules.Error → Error
  of_images : Images.Error → Error
  bad_topology : String → Error
  bad_labels : List String → Error
  pod_monitor_twice : Error
  of_proxy : Pooler.Error → Error
  of_data_source : Restore.Error → Error

-- What `Validate` reads, and the functions of others that it calls.
pub record Input (Quantity : Type 0) : Type 0 where
  pub instance : String
  pub version : String
  pub components : Dict (ComponentSpec Quantity)
  pub backup : Option InstanceBackupSpec
  pub data_source : Option DataSource
  -- The raw parameters of the topology; none for nil.
  pub topology : Option String
  pub extension_catalog : String
  pub get_catalog : String → Got Catalog
  pub get_cluster : String → Got Cluster
  pub get_database : String → Got Database
  pub try_decode : ComponentSpec Quantity → Bool
  pub decode_custom : ComponentSpec Quantity → Result String CnpgCustomSpec
  pub decode_proxy : String → Result String PgBouncerParameters
  pub decode_topology : String → Result String TopologyParameters
  pub unmarshal_backup : String → Result String BackupConfig
  -- `ValidateLabels`: the faults of a set of labels.
  pub label_faults : Dict String → List String

abbrev pub zero_custom : CnpgCustomSpec
zero_custom = record {
  priority_class_name = "";
  require_tls = none;
  wal_storage = none;
  resize_in_use_volumes = none;
  pvc_template = none;
  affinity = none;
  postgresql = none;
  managed = none;
  bootstrap = none;
  certificates = none;
  monitoring = none;
  extensions = none;
}

abbrev disabled : PrometheusParameters
disabled = record { enabled = false; pod_monitor_labels = [] }

abbrev prometheus_of : TopologyParameters → PrometheusParameters
prometheus_of params = elim params.monitoring [
  | none ↦ disabled
  | some m ↦ elim m [ none ↦ disabled | some p ↦ p ]
]

unfoldable pub prometheus_parameters :
    (String → Result String TopologyParameters) → Option String → Result Error PrometheusParameters
prometheus_parameters decode none = ok disabled
prometheus_parameters decode (some raw) =
    wrap bad_topology (decode raw) >>= λ params. ok (prometheus_of params)

abbrev enables_pod_monitor : CnpgCustomSpec → Bool
enables_pod_monitor custom = elim custom.monitoring [ none ↦ false | some m ↦ m.enable_pod_monitor ]

unfoldable pub check_prometheus :
    (Dict String → List String) → CnpgCustomSpec → PrometheusParameters → Result Error (Unit {0})
check_prometheus label_faults custom prometheus =
    if not prometheus.enabled
    then ok tt
    else (reject (not (is_nil (label_faults prometheus.pod_monitor_labels)))
          (bad_labels (label_faults prometheus.pod_monitor_labels))
        >> reject (enables_pod_monitor custom) pod_monitor_twice)

unfoldable pub validate_prometheus :
    {Quantity : Type 0} → Input Quantity → CnpgCustomSpec → Result Error (Unit {0})
unfolding prometheus_parameters check_prometheus
validate_prometheus i custom = prometheus_parameters i.decode_topology i.topology >>= λ p.
    check_prometheus i.label_faults custom p

-- The custom specification of the engine: the zero one where the runtime cannot decode it.
unfoldable pub custom_of :
    {Quantity : Type 0} → Input Quantity → ComponentSpec Quantity → Result Error CnpgCustomSpec
custom_of i engine =
    if i.try_decode engine then wrap bad_custom_spec (i.decode_custom engine) else ok zero_custom

module _ (q : Quantities) (names : NameChecks) (i : Input q.Quantity) where
  -- From the checks of the custom specification on.
  unfoldable pub validate_custom :
      ComponentSpec q.Quantity → CnpgCustomSpec → Result Error (Unit {0})
  unfolding validate_prometheus
  validate_custom engine custom = do
    wrap of_validate (validate_custom_spec q names custom)
    wrap of_validate (validate_synchronous q names engine custom)
    wrap of_validate (validate_scheduling engine.scheduling_policy custom)
    wrap of_extensions (validate_extensions (some custom) engine.version i.version)
    _ ← wrap of_images (
        resolve_extension_images i.get_catalog i.extension_catalog (some custom) engine.version
          i.version)
    wrap of_extensions (validate_extensions_not_disabled i.get_database i.instance (some custom))
    wrap of_extensions (validate_extensions_at_creation i.get_cluster i.instance (some custom))
    validate_prometheus i custom
    wrap of_proxy (validate_proxy q i.decode_proxy names i.instance i.components)
    wrap of_data_source (validate_data_source i.data_source)

  -- With the engine component.
  unfoldable pub validate_with : ComponentSpec q.Quantity → Result Error (Unit {0})
  unfolding custom_of validate_custom
  validate_with engine = do
    wrap of_validate (validate_engine q names engine)
    wrap of_schedules (validate_schedules i.unmarshal_backup names i.backup)
    custom_of i engine >>= λ custom. validate_custom engine custom

  unfoldable pub validate : Result Error (Unit {0})
  unfolding validate_with
  validate = elim (lookup component_engine i.components) [
    | none ↦ err engine_required
    | some engine ↦ validate_with engine
  ]
