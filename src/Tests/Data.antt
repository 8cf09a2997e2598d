-- ===== src/Tests/Data.antt =====
-- The data of the tests: a spec, a Cluster, an Instance, and implementations of the interfaces.
use provider_cloudnative_pg.Common.{
  String, true, false, not, none, some, List, [], ◌∷◌, ◌==◌, ◌≡◌, refl, ◌↔◌, filter, find, map,
  arith, Result, ok, found, not_found, if◌then◌else◌,
}
use provider_cloudnative_pg.Common.Int.{ℤ, pos, negsuc, ltb_ℤ, eqb_ℤ, eqb_ℤ_iff, ◌<ℤ◌}
use provider_cloudnative_pg.Cnpg.Types.{
  Cluster, ClusterPhase, ClusterSpec, Condition, PluginConfiguration,
}
use provider_cloudnative_pg.Cnpg.Components.{CnpgCustomSpec, ExtensionsSpec}
use provider_cloudnative_pg.Cnpg.Quantities.{
  Quantities, IsLawful, Resources, ComponentSpec, NameChecks,
}
use provider_cloudnative_pg.Barman.Types.{
  Backup, BackupConfig, BackupSchedule, BackupState, BackupPhase, CnpgBackup, Instance,
  InstanceBackupSpec, InstanceBackupStorage, ObjectStore, time,
}
use provider_cloudnative_pg.Barman.ObjectStore
use provider_cloudnative_pg.Barman.ObjectStore.{plugins_for}
use provider_cloudnative_pg.Barman.Schedule.Sync
use provider_cloudnative_pg.Barman.Schedule.Sync.{Listed}

-- Quantities that are whole numbers of milli-units.
abbrev pub sign_of : ℤ → ℤ → ℤ
sign_of a b = if ltb_ℤ b a then pos 1 else if eqb_ℤ a b then pos 0 else negsuc 0

abbrev pub milli : Quantities
milli = record {
  Quantity = ℤ;
  sign = λ a. a;
  is_zero = λ a. eqb_ℤ a (pos 0);
  cmp = sign_of;
  milli_value = λ a. a;
  new_milli_quantity = λ a. a;
  to_text = λ a. "m";
  get_size_or_nil = λ s. some (pos 1);
}

pub sign_of-pos : (a b : ℤ) → (pos 0 <ℤ sign_of a b) ↔ (b <ℤ a)
sign_of-pos a b = ground arith

pub sign_of-zero : (a b : ℤ) → (sign_of a b ≡ pos 0) ↔ (a ≡ b)
sign_of-zero a b = ground (arith, eqb_ℤ_iff a b)

abbrev pub milli-IsLawful : IsLawful milli
milli-IsLawful = record {
  nano = λ a. a;
  sign-pos = λ a. (λ h. h, λ h. h);
  is_zero_iff = λ a. eqb_ℤ_iff a (pos 0);
  cmp-pos = sign_of-pos;
  cmp-zero = sign_of-zero;
  milli_exact = λ a. (λ h. (a, refl), λ h. refl);
}

abbrev pub free_names : NameChecks
free_names = record {
  is_dns1123_subdomain = λ n. [];
  is_dns1123_label = λ n. [];
  is_dns1035_label = λ n. [];
}

abbrev pub small : Resources ℤ
small = record {
  request_cpu = pos 500;
  request_memory = pos 1000;
  limit_cpu = pos 1000;
  limit_memory = pos 2000;
}

abbrev pub engine : ComponentSpec ℤ
engine = record {
  kind = "";
  version = "18.6";
  image = "";
  replicas = some (pos 3);
  storage = some (record { size = pos 5000; storage_class = none });
  resources = some small;
  scheduling_policy = none;
  parameters = none;
}

abbrev pub no_extensions : ExtensionsSpec
no_extensions = record {
  timescaledb = none;
  timescaledb_community = none;
  pgvector = none;
  pgaudit = none;
  postgis = none;
  pgrouting = none;
  pgivm = none;
  wal2json = none;
  age = none;
}

-- TLS is required, and pgvector and AGE are on.
abbrev pub custom : CnpgCustomSpec
custom = record {
  priority_class_name = "";
  require_tls = some true;
  wal_storage = none;
  resize_in_use_volumes = none;
  pvc_template = none;
  affinity = none;
  postgresql = some (record {
    parameters = [];
    pg_hba = "host all all all trust" ∷ [];
    additional_libraries = [];
    extensions = [];
    synchronous = none;
  });
  managed = none;
  bootstrap = none;
  certificates = none;
  monitoring = none;
  extensions = some (record no_extensions {
    pgvector = some (record { enabled = true });
    age = some (record { enabled = true });
  });
}

abbrev pub controlled : String → Listed
controlled n = record { name = n; controlled = true }

-- A state that is the list of the names of the ScheduledBackups.
abbrev pub names_client : Sync.Client
names_client = record {
  State = List String;
  apply = λ sb s. (none, sb.name ∷ s);
  list = λ s. ok (map controlled s);
  delete = λ m s. (none, filter (λ n. not (n == m)) s);
}

abbrev pub cluster_spec : ClusterSpec
cluster_spec = record {
  instances = pos 3;
  image_name = "";
  image_pull_policy = "";
  priority_class_name = "";
  scheduler_name = "";
  storage = record {
    size = "1Gi";
    storage_class = none;
    resize_in_use_volumes = none;
    pvc_template = none;
  };
  wal_storage = none;
  requests = record { cpu = ""; memory = "" };
  limits = record { cpu = ""; memory = "" };
  affinity = record {
    enable_pod_anti_affinity = none;
    node_selector = [];
    tolerations = [];
    node_affinity = none;
    additional_pod_affinity = none;
    additional_pod_anti_affinity = none;
  };
  topology_spread_constraints = [];
  postgresql = record {
    parameters = [];
    pg_hba = [];
    additional_libraries = [];
    extensions = (record { name = "age"; image = "age:1" }) ∷ [];
    synchronous = none;
  };
  bootstrap = none;
  certificates = none;
  monitoring = none;
  managed = some (record { roles = "app" ∷ []; services = "" });
  inherited_labels = [];
  plugins =
      (record {
        name = "barman-cloud.cloudnative-pg.io";
        enabled = some true;
        is_wal_archiver = some true;
        parameters = ("barmanObjectName", "main") ∷ [];
      })
      ∷ [];
  external_clusters = [];
}

abbrev pub ready_condition : Condition
ready_condition = record {
  type_name = "Ready";
  status = "True";
  reason = "";
  message = "";
  last_transition_time = "t";
}

-- A ready Cluster of three instances.
abbrev pub cluster : Cluster
cluster = record {
  name = "db";
  creation_timestamp = "t0";
  spec = cluster_spec;
  status = record {
    phase = ClusterPhase.other_phase "Cluster in healthy state";
    phase_reason = "";
    conditions = ready_condition ∷ [];
    instances = pos 3;
    ready_instances = pos 3;
    current_primary = "db-1";
    managed_roles = record { cannot_reconcile = []; reconciled = "app" ∷ [] };
  };
}

abbrev pub daily : BackupSchedule
daily = record {
  name = "daily";
  enabled = true;
  cron = "0 2 * * *";
  retention = some (record { kind = time; duration = "7d" });
  parameters = none;
}

abbrev pub main_storage : InstanceBackupStorage
main_storage = record { storage_ref = "main"; schedules = daily ∷ [] }

abbrev pub backup_spec : InstanceBackupSpec
backup_spec = record { enabled = true; class_ref = "barman"; storages = main_storage ∷ [] }

abbrev pub instance : Instance
instance = record {
  name = "db";
  namespace = "ns";
  uid = "u";
  deleting = false;
  provider_ref = "provider-cloudnative-pg";
  backup = some backup_spec;
  data_source = none;
}

abbrev pub unmarshal : String → Result String BackupConfig
unmarshal raw = ok (record { target = raw })

abbrev pub cnpg_backup : CnpgBackup
cnpg_backup = record {
  name = "b";
  namespace = "ns";
  labels = [];
  created = true;
  deleting = false;
  cluster = "db";
  method = "plugin";
  plugin = none;
  target = "";
  status = record {
    phase = BackupPhase.completed;
    error = "";
    backup_id = "id";
    server_name = "db";
    destination_path = "s3://bucket/";
    endpoint_url = "";
    started_at = none;
    stopped_at = none;
  };
}

abbrev pub backup : Backup
backup = record {
  name = "b";
  namespace = "ns";
  uid = "u";
  origin_instance = "db";
  class_ref = "barman";
  storage_ref = "main";
  schedule_name = "";
  parameters = none;
  retain = false;
  state = BackupState.succeeded;
  operator_backup_ref = none;
}

-- A state that is the list of the ObjectStores, newest first.
abbrev pub stores : ObjectStore.Client
stores = record {
  State = List ObjectStore;
  get_backup_storage = λ s n. found (record {
    name = n;
    s3 = some (record {
      endpoint_url = "http://s3";
      bucket = "bucket";
      region = "";
      credentials_secret = "keys";
    });
  });
  credentials = λ s b. found ("access", "secret");
  get_secret = λ s n. not_found;
  list_instances = λ s namespace. ok (instance ∷ []);
  get_object_store =
      λ s n. elim (find (λ o. o.name == n) s) [ none ↦ not_found | some o ↦ found o ];
  apply_object_store = λ o s. (none, o ∷ s);
}

abbrev pub plugins : List PluginConfiguration
plugins = plugins_for "main"
