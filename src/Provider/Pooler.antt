-- ===== src/Provider/Pooler.antt =====
-- internal/provider/pooler.go: the PgBouncer Pooler of the proxy component. The decoding of JSON and
-- the calls of the Kubernetes API are parameters.
pub mod Laws
use provider_cloudnative_pg.Common.{
  String, ◌<>◌, Bool, true, false, not, ◌&&◌, ◌||◌, Option, none, some, List, [], ◌∷◌, ◌==◌,
  is_empty, is_nil, Result, ok, err, ◌>>=◌, ◌>>◌, reject, wrap, Got, found, not_found, failed,
  if◌then◌else◌,
}
use provider_cloudnative_pg.Common.Dict.{Dict, lookup, value}
use provider_cloudnative_pg.Common.Int.{ℤ, pos, ltb_ℤ}
use provider_cloudnative_pg.Common.Texts.{itoa}
use provider_cloudnative_pg.Cnpg.Types.{Opaque}
use provider_cloudnative_pg.Cnpg.Components.{
  PgBouncerParameters, component_proxy, component_type_pgbouncer,
}
use provider_cloudnative_pg.Cnpg.Quantities.{ComponentSpec, NameChecks, Quantities, Resources}
use provider_cloudnative_pg.Cnpg.Status.{Status, ConnectionDetails, Message, text, provisioning}
use provider_cloudnative_pg.Cnpg.Status
use provider_cloudnative_pg.Cnpg.Validate
use provider_cloudnative_pg.Cnpg.Validate.{validate_resources}
use provider_cloudnative_pg.Provider.Types.{Pooler, PoolerPhase, Deployment}
use provider_cloudnative_pg.Provider.Connection.{service_host, postgres_uri}

pub data Error : Type 0 where
  bad_parameters : String → Error
  unsupported_type : String → Error
  invalid_name : String → List String → Error
  too_few_replicas : Error
  invalid_pool_mode : String → Error
  of_resources : Validate.Error → Error
  get_pooler_failed get_deployment_failed write_failed : String → Error

abbrev pub pooler_name_suffix : String
pooler_name_suffix = "-pooler"

abbrev pub pgbouncer_container_name : String
pgbouncer_container_name = "pgbouncer"

abbrev pub pgbouncer_client_tls_sslmode : String
pgbouncer_client_tls_sslmode = "client_tls_sslmode"

unfoldable pub pooler_name : String → String
pooler_name instance = instance <> pooler_name_suffix

-- The pool modes that the operator accepts, and the empty text.
unfoldable pub is_pool_mode : String → Bool
is_pool_mode mode = is_empty mode || ((mode == "session") || (mode == "transaction"))

module _ (q : Quantities) (decode : String → Result String PgBouncerParameters) where
  open q use {Quantity}

  unfoldable pub proxy_parameters : ComponentSpec Quantity → Result Error PgBouncerParameters
  proxy_parameters proxy = elim proxy.parameters [
    | none ↦ ok (record { pool_mode = "" })
    | some raw ↦
        if is_empty raw then ok (record { pool_mode = "" }) else wrap bad_parameters (decode raw)
  ]

  abbrev too_few : Option ℤ → Bool
  too_few none = false
  too_few (some n) = ltb_ℤ n (pos 1)

  abbrev check_resources : NameChecks → Option (Resources Quantity) → Result Error (Unit {0})
  check_resources names none = ok tt
  check_resources names (some r) = wrap of_resources (validate_resources q names (some r))

  -- `validateProxy` with the proxy component.
  unfoldable pub validate_component :
      NameChecks → String → ComponentSpec Quantity → Result Error (Unit {0})
  unfolding proxy_parameters pooler_name is_pool_mode
  validate_component names instance proxy = do
    reject (not (is_empty proxy.kind) && not (proxy.kind == component_type_pgbouncer))
        (unsupported_type proxy.kind)
    let faults = names.is_dns1035_label (pooler_name instance)
    reject (not (is_nil faults)) (invalid_name (pooler_name instance) faults)
    reject (too_few proxy.replicas) too_few_replicas
    params ← proxy_parameters proxy
    reject (not (is_pool_mode params.pool_mode)) (invalid_pool_mode params.pool_mode)
    check_resources names proxy.resources

  unfoldable pub validate_proxy :
      NameChecks → String → Dict (ComponentSpec Quantity) → Result Error (Unit {0})
  unfolding validate_component
  validate_proxy names instance components = elim (lookup component_proxy components) [
    | none ↦ ok tt
    | some proxy ↦ validate_component names instance proxy
  ]

  abbrev replicas_of : Option ℤ → ℤ
  replicas_of none = pos 1
  replicas_of (some n) = n

  abbrev tls_parameters : Bool → Dict String
  tls_parameters true = (pgbouncer_client_tls_sslmode, "require") ∷ []
  tls_parameters false = []

  abbrev container_of : (Resources Quantity → Opaque) → Option (Resources Quantity) → Option Opaque
  container_of to_text none = none
  container_of to_text (some r) = some (to_text r)

  unfoldable pub build_pooler :
      (Resources Quantity → Opaque)
      → String
      → Dict String
      → ComponentSpec Quantity
      → PgBouncerParameters
      → Bool
      → Pooler
  unfolding pooler_name
  build_pooler to_text instance pod_labels proxy params require_tls = record {
    name = pooler_name instance;
    cluster = instance;
    kind = "rw";
    instances = some (replicas_of proxy.replicas);
    pool_mode = params.pool_mode;
    parameters = tls_parameters require_tls;
    labels = pod_labels;
    container_resources = container_of to_text proxy.resources;
    phase = PoolerPhase.other_phase "";
    phase_reason = "";
  }

  -- The runtime's calls on Poolers; `none` is the nil error.
  module _ {S : Type 0} (apply : Pooler → S → Option String × S)
      (exists : S → String → Result String Bool) (delete : String → S → Option String × S) where
    result_of : Option String × S → Result Error (Unit {0}) × S
    result_of (none, s) = (ok tt, s)
    result_of (some e, s) = (err (write_failed e), s)

    unfoldable pub delete_pooler : String → S → Result Error (Unit {0}) × S
    unfolding pooler_name result_of
    delete_pooler instance s = elim (exists s (pooler_name instance)) [
      | err e ↦ (err (get_pooler_failed e), s)
      | ok there ↦ if not there then (ok tt, s) else result_of (delete (pooler_name instance) s)
    ]

    unfoldable pub sync_pooler :
        (Resources Quantity → Opaque)
        → String
        → Dict String
        → Dict (ComponentSpec Quantity)
        → Bool
        → S
        → Result Error (Unit {0}) × S
    unfolding delete_pooler proxy_parameters build_pooler result_of
    sync_pooler to_text instance pod_labels components require_tls s =
        elim (lookup component_proxy components) [
          | none ↦ delete_pooler instance s
          | some proxy ↦ elim (proxy_parameters proxy) [
            | err e ↦ (err e, s)
            | ok params ↦
                result_of
                  (apply (build_pooler to_text instance pod_labels proxy params require_tls) s)
          ]
        ]

-- The text of a phase and its reason, unless that is empty.
abbrev with_reason : String → String → String
with_reason message reason = if is_empty reason then message else message <> (": " <> reason)

waiting_message : String → String → String
waiting_message phase reason =
    let message : String = "waiting for the CloudNativePG pooler" in
    with_reason (if is_empty phase then message else message <> (" (" <> (phase <> ")"))) reason

-- What `poolerBlocksReady` returns: the status that blocks, or the changed details.
pub data Readiness : Type 0 where
  blocks : Status → Readiness
  serves : ConnectionDetails → Readiness

abbrev want_of : Option ℤ → ℤ
want_of none = pos 1
want_of (some n) = n

unfoldable pub pooler_details : String → String → ConnectionDetails → ConnectionDetails
unfolding service_host postgres_uri itoa
pooler_details name namespace details =
    let host = service_host name namespace in
    let port = itoa (pos 6432) in
    record details {
      host = host;
      port = port;
      uri =
          postgres_uri details.username details.password host port
            (value "database" details.additional_properties)
            (value "sslmode" details.additional_properties);
    }

-- From the test of the Deployment's pods on.
unfoldable pub deployment_readiness :
    Got Deployment → Pooler → String → ConnectionDetails → Result Error Readiness
unfolding pooler_details itoa
deployment_readiness not_found pooler namespace details =
    ok (blocks (provisioning (text "waiting for the PgBouncer deployment")))
deployment_readiness (failed e) pooler namespace details = err (get_deployment_failed e)
deployment_readiness (found d) pooler namespace details =
    if ltb_ℤ d.ready_replicas (want_of pooler.instances)
    then ok (
        blocks (
          provisioning (
            text (
              "waiting for PgBouncer pods ("
              <> (itoa d.ready_replicas
                  <> ("/" <> (itoa (want_of pooler.instances) <> " ready)")))))))
    else ok (serves (pooler_details pooler.name namespace details))

-- From the tests of the Pooler's phase on.
unfoldable pub phase_readiness :
    (String → Got Deployment)
    → PoolerPhase
    → Pooler
    → String
    → ConnectionDetails
    → Result Error Readiness
unfolding deployment_readiness waiting_message
phase_readiness get_deployment (PoolerPhase.failed phase) pooler namespace details =
    ok (blocks (Status.failed (text (with_reason phase pooler.phase_reason))))
phase_readiness get_deployment (PoolerPhase.other_phase phase) pooler namespace details =
    ok (blocks (provisioning (text (waiting_message phase pooler.phase_reason))))
phase_readiness get_deployment PoolerPhase.active pooler namespace details =
    deployment_readiness (get_deployment pooler.name) pooler namespace details

unfoldable pub pooler_readiness :
    (String → Got Deployment) → Got Pooler → String → ConnectionDetails → Result Error Readiness
unfolding phase_readiness
pooler_readiness get_deployment not_found namespace details =
    ok (blocks (provisioning (text "waiting for the CloudNativePG pooler")))
pooler_readiness get_deployment (failed e) namespace details = err (get_pooler_failed e)
pooler_readiness get_deployment (found pooler) namespace details =
    phase_readiness get_deployment pooler.phase pooler namespace details

-- The first flag says whether the Instance has a proxy component.
unfoldable pub pooler_blocks_ready :
    (String → Got Pooler)
    → (String → Got Deployment)
    → Bool
    → String
    → String
    → ConnectionDetails
    → Result Error Readiness
unfolding pooler_readiness pooler_name
pooler_blocks_ready get_pooler get_deployment false instance namespace details = ok (serves details)
pooler_blocks_ready get_pooler get_deployment true instance namespace details =
    pooler_readiness get_deployment (get_pooler (pooler_name instance)) namespace details

-- `instanceOfPoolerDeployment`: the namespace and the name of the Instance to reconcile.
unfoldable pub instance_of_pooler_deployment : Deployment → List (String × String)
unfolding pooler_name
instance_of_pooler_deployment d =
    let cluster = value "cnpg.io/cluster" d.labels in
    if not (value "cnpg.io/podRole" d.labels == "pooler")
    then []
    else if is_empty cluster || not (d.name == pooler_name cluster)
    then []
    else (d.namespace, cluster) ∷ []
