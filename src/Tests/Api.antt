-- ===== src/Tests/Api.antt =====
-- The API, the Instance and the contracts of the tests of `Sync` of internal/provider/provider.go.
use provider_cloudnative_pg.Common.{
  String, Bool, true, false, not, ◌&&◌, Option, none, some, List, [], ◌∷◌, ◌==◌, ◌≡◌, refl, sym,
  any, map, filter, is_some, eq_iff, arith, Result, ok, not_found, if◌then◌else◌,
}
use provider_cloudnative_pg.Common.Int.{ℤ}
use provider_cloudnative_pg.Barman.Types.{ScheduledBackup}
use provider_cloudnative_pg.Barman.Schedule.Sync
use provider_cloudnative_pg.Barman.Schedule.Sync.{Listed}
use provider_cloudnative_pg.Barman.Schedule.Refines.{IsStore}
use provider_cloudnative_pg.Provider.PodMonitor.{PodMonitor, written}
use provider_cloudnative_pg.Provider.Validation.{zero_custom}
use provider_cloudnative_pg.Provider.Types.{Pooler}
use provider_cloudnative_pg.Provider.Sync.{Client, Input}
use provider_cloudnative_pg.Provider.Sync.Poolers.{HoldsPooler}
use provider_cloudnative_pg.Provider.Sync.Monitors.{HoldsMonitor}
use provider_cloudnative_pg.Tests.Data.{engine, cluster, instance, unmarshal, stores}

-- An API that keeps the ScheduledBackups and answers every other call the same in all states.
abbrev pub client : Sync.Client → Client
client schedules = record {
  stores = record {
    State = schedules.State;
    get_backup_storage = λ s n. stores.get_backup_storage [] n;
    credentials = λ s b. stores.credentials [] b;
    get_secret = λ s n. stores.get_secret [] n;
    list_instances = λ s n. stores.list_instances [] n;
    get_object_store = λ s n. not_found;
    apply_object_store = λ o s. (none, s);
  };
  reconcile_data_source = λ s. (ok true, s);
  provider_spec = λ s. ok (record { image_for_version = λ v. ""; default_image = "postgres:18.6" });
  get_catalog = λ s n. not_found;
  get_backup = λ s n. not_found;
  get_cnpg_backup = λ s n. not_found;
  apply_cluster = λ n spec s. (ok cluster, s);
  apply_pod_monitor = λ m s. (written, s);
  delete_pod_monitor = λ n s. (written, s);
  apply_pooler = λ p s. (none, s);
  has_pooler = λ s n. ok false;
  delete_pooler = λ n s. (none, s);
  apply_database = λ n d s. (none, s);
  apply_scheduled = schedules.apply;
  list_scheduled = schedules.list;
  delete_scheduled = schedules.delete;
}

abbrev pub input : Input ℤ
input = record {
  self = instance;
  version = "";
  components = ("engine", engine) ∷ [];
  topology = none;
  extension_catalog = "catalog";
  runtime = record {
    constraints = λ p. [];
    image_for_version = λ v. "";
    default_image = "";
    pod_labels = [];
    default_database = "app";
    default_user = "app";
  };
  monitoring = record {
    managed_labels = [];
    is_metrics_tls_enabled = λ pg. false;
    get_server_ca_secret_name = λ pg. "db-ca";
    get_service_read_write_name = λ pg. "db-rw";
  };
  proxy_labels = [];
  resources_text = λ r. "";
  try_decode = λ c. false;
  decode_custom = λ c. ok zero_custom;
  decode_proxy = λ raw. ok (record { pool_mode = "" });
  decode_topology = λ raw. ok (record { monitoring = none });
  unmarshal_backup = unmarshal;
}

abbrev pub wanted : List ScheduledBackup
wanted =
    (record {
      name = "db-daily";
      schedule = "0 0 2 * * *";
      cluster = "db";
      backup_owner_reference = "none";
      method = "plugin";
      plugin = record {
        name = "barman-cloud.cloudnative-pg.io";
        parameters = ("barmanObjectName", "main") ∷ [];
      };
      target = "";
    })
    ∷ []

-- An API whose state is the list of the ScheduledBackups that the Instance controls, newest first.
abbrev listing : ScheduledBackup → Listed
listing sb = record { name = sb.name; controlled = true }

abbrev pub backups_client : Sync.Client
backups_client = record {
  State = List ScheduledBackup;
  apply = λ sb s. (none, sb ∷ s);
  list = λ s. ok (map listing s);
  delete = λ m s. (none, filter (λ sb. not (sb.name == m)) s);
}

unfoldable pub content : List ScheduledBackup → String → Option ScheduledBackup
content [] n = none
content (sb ∷ s) n = if sb.name == n then some sb else content s n

content-listed :
    (s : List ScheduledBackup) (n : String)
    → is_some (content s n) ≡ any (λ i. (i.name == n) && i.controlled) (map listing s)
unfolding content
content-listed [] n = refl
content-listed (sb ∷ s) n = ground (arith, content-listed s n)

items-injective : (a b : List Listed) → Path (Result String (List Listed)) (ok a) (ok b) → a ≡ b
items-injective a b h = cc

pub content-deleted :
    (m : String) (s : List ScheduledBackup) (n : String)
    → content (filter (λ (sb : ScheduledBackup). not (sb.name == m)) s) n
      ≡ (if m == n then none else content s n)
unfolding content
content-deleted m [] n = ground arith
content-deleted m (sb ∷ s) n =
    ground (arith, eq_iff sb.name m, eq_iff sb.name n, eq_iff m n, content-deleted m s n)

pub content-listed_as :
    (s : List ScheduledBackup) (items : List Listed) (n : String)
    → Path (Result String (List Listed)) (ok (map listing s)) (ok items)
    → is_some (content s n) ≡ any (λ i. (i.name == n) && i.controlled) items
content-listed_as s items n e =
    rw (sym (items-injective (map listing s) items e)) (content-listed s n)

pub content-cons :
    (sb : ScheduledBackup) (s : List ScheduledBackup) (n : String)
    → content (sb ∷ s) n ≡ (if sb.name == n then some sb else content s n)
unfolding content
content-cons sb s n = refl

abbrev pub backups_client-IsStore : IsStore backups_client
backups_client-IsStore = record {
  content = content;
  content-apply = λ sb s n h. content-cons sb s n;
  content-list = content-listed_as;
  content-delete = λ m s n h. content-deleted m s n;
}

-- An API whose state is the Pooler of the Instance.
abbrev no_schedules : Sync.Client
no_schedules = record {
  State = Option Pooler;
  apply = λ sb s. (none, s);
  list = λ s. ok [];
  delete = λ m s. (none, s);
}

abbrev pub pooler_client : Client
pooler_client = record (client no_schedules) {
  apply_pooler = λ p s. (none, some p);
  has_pooler = λ s n. ok (is_some s);
  delete_pooler = λ n s. (none, none);
}

pub there-is_some :
    (s : Option Pooler) (there : Bool)
    → Path (Result String Bool) (ok (is_some s)) (ok there)
    → is_some s ≡ there
there-is_some s there e = cc

abbrev pub pooler_client-HoldsPooler : HoldsPooler pooler_client "db"
pooler_client-HoldsPooler = record {
  pooler = λ s. s;
  pooler-apply = λ p s named fine. refl;
  pooler-has = λ s there e. there-is_some s there e;
  pooler-delete = λ s fine. refl;
  pooler-database = λ n d s. refl;
  pooler-scheduled = λ sb s. refl;
  pooler-unscheduled = λ n s. refl;
}

-- An API whose state is the PodMonitor of the Instance.
abbrev no_poolers : Sync.Client
no_poolers = record {
  State = Option PodMonitor;
  apply = λ sb s. (none, s);
  list = λ s. ok [];
  delete = λ m s. (none, s);
}

abbrev pub monitor_client : Client
monitor_client = record (client no_poolers) {
  apply_pod_monitor = λ m s. (written, some m);
  delete_pod_monitor = λ n s. (written, none);
}

abbrev pub monitor_client-HoldsMonitor : HoldsMonitor monitor_client "db"
monitor_client-HoldsMonitor = record {
  monitor = λ s. s;
  monitor-apply = λ m s named fine. refl;
  monitor-no_match = λ m s e. cc;
  no_monitor-written = λ s fine. refl;
  no_monitor-no_match = λ s e. cc;
  monitor-pooler = λ p s. refl;
  monitor-no_pooler = λ n s. refl;
  monitor-database = λ n d s. refl;
  monitor-scheduled = λ sb s. refl;
  monitor-unscheduled = λ n s. refl;
}
