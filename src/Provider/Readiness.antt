-- ===== src/Provider/Readiness.antt =====
-- `Status` of internal/provider/provider.go. The reads of the Kubernetes API, the decoding of the
-- engine's parameters and the methods of CloudNativePG's Cluster are parameters.
pub mod Ready
pub mod Uri
use provider_cloudnative_pg.Common.{
  String, ◌<>◌, Bool, true, false, not, ◌&&◌, ◌||◌, Option, none, some, List, [], ◌∷◌, ◌==◌,
  is_empty, is_some, Result, ok, err, Got, found, not_found, failed, if◌then◌else◌,
}
use provider_cloudnative_pg.Common.Dict.{Dict, lookup}
use provider_cloudnative_pg.Common.Int.{ℤ, pos, ltb_ℤ, eqb_ℤ}
use provider_cloudnative_pg.Common.Texts.{itoa}
use provider_cloudnative_pg.Cnpg.Types.{
  Cluster, ClusterPhase, Condition, Database, unrecoverable, failure_plugin, unknown_plugin,
  cannot_create_cluster_objects, image_catalog_error, architecture_binary_missing,
  definition_invalid,
}
use provider_cloudnative_pg.Cnpg.Components.{CnpgCustomSpec, component_proxy}
use provider_cloudnative_pg.Cnpg.Status
use provider_cloudnative_pg.Cnpg.Status.{
  Status, ConnectionDetails, pending, provisioning, initializing, restoring, ready, text, phase,
}
use provider_cloudnative_pg.Cnpg.Roles.{managed_roles_status}
use provider_cloudnative_pg.Cnpg.Extensions.Database.{extensions_status}
use provider_cloudnative_pg.Barman.Types.{
  DataSource, DataSourceKind, from_backup, point_in_time, other_source,
}
use provider_cloudnative_pg.Provider.Types.{ClusterMethods, Pooler, Deployment}
use provider_cloudnative_pg.Provider.Backup.{find_status_condition}
use provider_cloudnative_pg.Provider.Connection.{connection_details}
use provider_cloudnative_pg.Provider.Pooler
use provider_cloudnative_pg.Provider.Pooler.{Readiness, blocks, serves, pooler_blocks_ready}

-- What a run of `Status` reads.
pub record Reads : Type 0 where
  pub get_cluster : String → Got Cluster
  pub get_database : String → Got Database
  pub get_secret : String → Got (Dict String)
  pub get_pooler : String → Got Pooler
  pub get_deployment : String → Got Deployment
  -- The Instance: its name and namespace, its data source, whether the status of the data source says
  -- that it is done, and whether it has a proxy component.
  pub instance : String
  pub namespace : String
  pub data_source : Option DataSource
  pub data_source_done : Option Bool
  pub has_proxy : Bool
  -- What the engine's parameters decode to.
  pub custom : Result String CnpgCustomSpec

-- The phases that stop the reconciliation.
unfoldable pub is_terminal : ClusterPhase → Bool
is_terminal unrecoverable = true
is_terminal failure_plugin = true
is_terminal unknown_plugin = true
is_terminal cannot_create_cluster_objects = true
is_terminal image_catalog_error = true
is_terminal architecture_binary_missing = true
is_terminal definition_invalid = true
is_terminal (ClusterPhase.other_phase _) = false

-- `none` is the second result false.
unfoldable pub failed_cluster_status : Cluster → Option Status
unfolding is_terminal
failed_cluster_status pg =
    if is_terminal pg.status.phase
    then some (Status.failed (phase pg.status.phase pg.status.phase_reason))
    else none

abbrev initialize_text : String
initialize_text = "waiting for CloudNativePG cluster to initialize"

abbrev condition_message : Option Condition → String
condition_message none = initialize_text
condition_message (some c) =
    if not (is_empty c.message)
    then c.message
    else if not (is_empty c.reason)
    then c.reason
    else initialize_text

unfoldable pub initializing_message : Cluster → String
initializing_message pg =
    condition_message (find_status_condition pg.status.conditions "Initialized")

abbrev is_true : Option Condition → Bool
is_true none = false
is_true (some c) = c.status == "True"

-- The test for a ready Cluster.
unfoldable pub is_cluster_ready : Cluster → Bool
is_cluster_ready pg =
    is_true (find_status_condition pg.status.conditions "Ready")
    && (ltb_ℤ (pos 0) pg.status.instances && eqb_ℤ pg.status.ready_instances pg.status.instances)

-- Whether a data source is still at work.
unfoldable pub is_restoring : Option DataSource → Option Bool → Bool
is_restoring none finished = false
is_restoring (some ds) none = true
is_restoring (some ds) (some finished) = not finished

abbrev restoring_message : Option DataSource → String
restoring_message none = ""
restoring_message (some ds) = elim ds.kind [
  | point_in_time ↦ "point-in-time recovery in progress"
  | from_backup ↦ "restoring from backup"
  | other_source _ ↦ "restore in progress"
]

module _ (m : ClusterMethods) (r : Reads) where
  unfoldable pub finish : Result Pooler.Error Readiness → Result Pooler.Error Status
  finish (err e) = err e
  finish (ok (blocks status)) = ok status
  finish (ok (serves details)) = ok (ready details)

  unfoldable pub with_details : Option ConnectionDetails → Result Pooler.Error Status
  unfolding finish
  with_details none = ok (provisioning (text "waiting to get CloudNativePG credentials secret"))
  with_details (some details) =
      finish (
        pooler_blocks_ready r.get_pooler r.get_deployment r.has_proxy r.instance r.namespace
          details)

  unfoldable pub with_extensions : Option Status → Cluster → Result Pooler.Error Status
  unfolding with_details
  with_extensions (some status) pg = ok status
  with_extensions none pg = with_details (connection_details m r.get_secret r.namespace pg)

  unfoldable pub with_custom : Result String CnpgCustomSpec → Cluster → Result Pooler.Error Status
  unfolding with_extensions
  with_custom (err e) pg =
      ok (provisioning (text ("failed to decode component custom spec: " <> e)))
  with_custom (ok custom) pg =
      with_extensions (extensions_status r.get_database r.instance (some custom)) pg

  unfoldable pub with_roles : Option Status → Cluster → Result Pooler.Error Status
  unfolding with_custom
  with_roles (some status) pg = ok status
  with_roles none pg = with_custom r.custom pg

  -- The end of `Status`, for a Cluster that is not ready.
  unfoldable pub unready_status : Cluster → Status
  unfolding initializing_message itoa
  unready_status pg =
      if not (m.is_initialized pg)
      then initializing (text (initializing_message pg))
      else if ltb_ℤ (pos 0) pg.status.instances
      then provisioning (
          text (
            "waiting for CloudNativePG cluster to be ready ("
            <> (itoa pg.status.ready_instances
                <> ("/" <> (itoa pg.status.instances <> " instances ready)")))))
      else provisioning (text "waiting for CloudNativePG cluster to be ready")

  unfoldable pub cluster_status : Option Status → Bool → Cluster → Result Pooler.Error Status
  unfolding with_roles unready_status
  cluster_status (some status) is_ready pg = ok status
  cluster_status none true pg = with_roles (managed_roles_status pg) pg
  cluster_status none false pg = ok (unready_status pg)

  unfoldable pub status_from : Got Cluster → Result Pooler.Error Status
  unfolding cluster_status failed_cluster_status is_cluster_ready
  status_from (found pg) = cluster_status (failed_cluster_status pg) (is_cluster_ready pg) pg
  status_from _ = ok (pending (text "Waiting to get CloudNativePG cluster resource"))

  unfoldable pub status : Result Pooler.Error Status
  unfolding status_from is_restoring
  status =
      if is_restoring r.data_source r.data_source_done
      then ok (restoring (text (restoring_message r.data_source)))
      else status_from (r.get_cluster r.instance)
