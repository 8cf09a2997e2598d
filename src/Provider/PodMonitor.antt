-- ===== src/Provider/PodMonitor.antt =====
-- internal/provider/podmonitor.go: the PodMonitor of a Cluster, and its synchronisation. The calls of
-- the Kubernetes API are parameters; the checks stand in Provider/Validation.antt.
pub mod Labels
use provider_cloudnative_pg.Common.{
  String, ◌<>◌, Bool, true, false, not, Option, none, some, List, [], ◌∷◌, Result, ok, err,
  if◌then◌else◌,
}
use provider_cloudnative_pg.Provider.Validation
use provider_cloudnative_pg.Common.Dict.{Dict, insert}
use provider_cloudnative_pg.Cnpg.Types.{Cluster}
use provider_cloudnative_pg.Provider.Validation.{
  PrometheusParameters, TopologyParameters, prometheus_parameters,
}

abbrev pub pod_monitor_suffix : String
pod_monitor_suffix = "-metrics"

abbrev pub metrics_port_name : String
metrics_port_name = "metrics"

pub record TlsSettings : Type 0 where
  pub ca_secret : String
  pub ca_key : String
  pub server_name : String
  pub insecure_skip_verify : Bool

pub record PodMonitor : Type 0 where
  pub name : String
  pub labels : Dict String
  pub selector : Dict String
  pub port : String
  -- The scheme HTTPS with its settings; none for the default scheme.
  pub tls : Option TlsSettings

-- The methods of CloudNativePG's Cluster that are called, and the labels that the runtime gives the
-- resources of an Instance.
pub record Runtime : Type 0 where
  pub managed_labels : Dict String
  pub is_metrics_tls_enabled : Cluster → Bool
  pub get_server_ca_secret_name : Cluster → String
  pub get_service_read_write_name : Cluster → String

unfoldable pub pod_monitor_name : String → String
pod_monitor_name instance = instance <> pod_monitor_suffix

-- `maps.Copy`
unfoldable pub copy : Dict String → Dict String → Dict String
unfolding insert
copy target [] = target
copy target ((k, v) ∷ source) = copy (insert k v target) source

abbrev tls_settings : Runtime → Cluster → Option TlsSettings
tls_settings r pg =
    if r.is_metrics_tls_enabled pg
    then some (record {
      ca_secret = r.get_server_ca_secret_name pg;
      ca_key = "ca.crt";
      server_name = r.get_service_read_write_name pg;
      insecure_skip_verify = true;
    })
    else none

unfoldable pub build_pod_monitor : Runtime → String → Cluster → Dict String → PodMonitor
unfolding copy pod_monitor_name
build_pod_monitor r instance pg extra_labels = record {
  name = pod_monitor_name instance;
  labels = copy extra_labels r.managed_labels;
  selector = ("cnpg.io/cluster", pg.name) ∷ ("cnpg.io/podRole", "instance") ∷ [];
  port = metrics_port_name;
  tls = tls_settings r pg;
}

-- What a write returns: success, that the API has no such kind, or another error.
pub data Reply : Type 0 where
  written no_match : Reply
  refused : String → Reply

-- The parameters are unreadable, or a write was refused.
pub data Error : Type 0 where
  unreadable : Validation.Error → Error
  delete_failed apply_failed : String → Error

abbrev after_delete : Reply → Result Error (Unit {0})
after_delete (refused e) = err (delete_failed e)
after_delete _ = ok tt

abbrev after_apply : Reply → Result Error (Unit {0})
after_apply (refused e) = err (apply_failed e)
after_apply _ = ok tt

module _ {S : Type 0} (apply : PodMonitor → S → Reply × S) (delete : String → S → Reply × S) where
  -- From the test of `Enabled` on.
  unfoldable pub sync_with :
      Runtime → String → Cluster → PrometheusParameters → S → Result Error (Unit {0}) × S
  unfolding build_pod_monitor pod_monitor_name
  sync_with r instance pg prometheus s =
      if not prometheus.enabled
      then (
        after_delete (delete (pod_monitor_name instance) s).0,
        (delete (pod_monitor_name instance) s).1,
      )
      else let monitor = build_pod_monitor r instance pg prometheus.pod_monitor_labels in
        (after_apply (apply monitor s).0, (apply monitor s).1)

  unfoldable pub sync_decoded :
      Runtime
      → String
      → Cluster
      → Result Validation.Error PrometheusParameters
      → S
      → Result Error (Unit {0}) × S
  unfolding sync_with
  sync_decoded r instance pg (err e) s = (err (unreadable e), s)
  sync_decoded r instance pg (ok prometheus) s = sync_with r instance pg prometheus s

  -- `syncPodMonitor`
  unfoldable pub sync_pod_monitor :
      (String → Result String TopologyParameters)
      → Option String
      → Runtime
      → String
      → Cluster
      → S
      → Result Error (Unit {0}) × S
  unfolding sync_decoded prometheus_parameters
  sync_pod_monitor decode topology r instance pg s =
      sync_decoded r instance pg (prometheus_parameters decode topology) s
