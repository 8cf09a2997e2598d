-- ===== src/Provider/Deletion/Job.antt =====
-- internal/provider/backup_delete.go: the Job that deletes a backup's data from the object store.
use provider_cloudnative_pg.Common.{
  ℕ, String, len, ◌<>◌, Bool, true, false, ◌||◌, Option, none, some, List, [], ◌∷◌, ◌++◌, is_empty,
  or_else, leb, Result, ok, err, ◌>>=◌, ◌>>◌, reject, wrap, if◌then◌else◌, ◌≤◌, Bool-cases, inl,
  inr, leb→le,
}
use provider_cloudnative_pg.Common.Dict.{Dict}
use provider_cloudnative_pg.Common.Sha256.{sha256_hex}
use provider_cloudnative_pg.Barman.Types.{Backup, CnpgBackup, ObjectStore, S3Spec, SecretKey}
use provider_cloudnative_pg.Barman.Names.{cut_name, len-cut_name}
use provider_cloudnative_pg.Barman.Plugin.{backup_deletion_image}

pub data Error : Type 0 where
  not_s3 : String → Error
  incomplete_credentials : String → Error
  no_backup_id : String → Error
  no_destination : String → Error
  bad_options : String → String → Error
  get_object_store_failed get_storage_failed set_owner_failed create_failed : String → Error
  get_job_failed get_backup_failed delete_failed : String → Error
  not_owned : String → String → Error
  job_failed : String → Error

-- An environment variable of the container, with a value or with the key of a Secret.
pub data EnvVar : Type 0 where
  plain : String → String → EnvVar
  of_secret : String → SecretKey → EnvVar

pub record Volume : Type 0 where
  pub name : String
  pub secret_name : String
  -- The key and the path of each item.
  pub items : List (String × String)

pub record VolumeMount : Type 0 where
  pub name : String
  pub mount_path : String
  pub sub_path : String
  pub read_only : Bool

pub record DeletionJob : Type 0 where
  pub name : String
  pub namespace : String
  pub labels : Dict String
  pub backoff_limit : ℕ
  pub restart_policy : String
  pub automount_service_account_token : Bool
  pub run_as_non_root : Bool
  pub seccomp_profile : String
  pub volumes : List Volume
  pub container : String
  pub image : String
  pub command : List String
  pub args : List String
  pub env : List EnvVar
  pub mounts : List VolumeMount
  pub allow_privilege_escalation : Bool
  pub dropped_capabilities : List String
  -- The amounts of CPU and memory.
  pub requests : String × String
  pub limits : String × String

abbrev pub backup_ca_path : String
backup_ca_path = "/etc/barman-cloud/backup-ca.crt"

abbrev pub backup_deletion_label : String
backup_deletion_label = "backup.openeverest.io/data-deletion"

abbrev pub backup_deletion_schedule_key : String
backup_deletion_schedule_key = "backup.openeverest.io/schedule-name"

unfoldable pub backup_deletion_job_name : String → String
backup_deletion_job_name backup_name =
    let name = "delete-backup-" <> backup_name in
    if leb (len name) 63 then name else cut_name name (sha256_hex backup_name)

unfoldable pub secret_env : String → SecretKey → EnvVar
secret_env name ref = of_secret name ref

abbrev region_env : Option SecretKey → String → List EnvVar
region_env (some ref) region =
    secret_env "AWS_REGION" ref ∷ secret_env "AWS_DEFAULT_REGION" ref ∷ []
region_env none region =
    if is_empty region
    then []
    else plain "AWS_REGION" region ∷ plain "AWS_DEFAULT_REGION" region ∷ []

abbrev ca_env : Option SecretKey → List EnvVar
ca_env none = []
ca_env (some ca) = plain "AWS_CA_BUNDLE" backup_ca_path ∷ []

abbrev ca_volumes : Option SecretKey → List Volume
ca_volumes none = []
ca_volumes (some ca) =
    (record { name = "endpoint-ca"; secret_name = ca.name; items = (ca.key, "backup-ca.crt") ∷ [] })
    ∷ []

abbrev ca_mounts : Option SecretKey → List VolumeMount
ca_mounts none = []
ca_mounts (some ca) =
    (record {
      name = "endpoint-ca";
      mount_path = backup_ca_path;
      sub_path = "backup-ca.crt";
      read_only = true;
    })
    ∷ []

abbrev pub endpoint_args : String → List String
endpoint_args url = if is_empty url then [] else "--endpoint-url" ∷ url ∷ []

abbrev deletion_labels : String → Dict String
deletion_labels schedule =
    (backup_deletion_label, "true")
    ∷ (if is_empty schedule then [] else (backup_deletion_schedule_key, schedule) ∷ [])

-- The Job for the arguments of its command and the two keys of the storage.
unfoldable pub deletion_job :
    Backup → ObjectStore → S3Spec → SecretKey → SecretKey → List String → DeletionJob
unfolding secret_env backup_deletion_job_name
deletion_job backup store s3 access_key secret_key args = record {
  name = backup_deletion_job_name backup.name;
  namespace = backup.namespace;
  labels = deletion_labels backup.schedule_name;
  backoff_limit = 0;
  restart_policy = "Never";
  automount_service_account_token = false;
  run_as_non_root = true;
  seccomp_profile = "RuntimeDefault";
  volumes = ca_volumes store.endpoint_ca;
  container = "delete-backup-data";
  image = backup_deletion_image;
  command = "barman-cloud-backup-delete" ∷ [];
  args = args;
  env =
      secret_env "AWS_ACCESS_KEY_ID" access_key
      ∷ secret_env "AWS_SECRET_ACCESS_KEY" secret_key
      ∷ (region_env store.region s3.region ++ ca_env store.endpoint_ca);
  mounts = ca_mounts store.endpoint_ca;
  allow_privilege_escalation = false;
  dropped_capabilities = "ALL" ∷ [];
  requests = ("50m", "64Mi");
  limits = ("500m", "256Mi");
}

abbrev pub destination_of : CnpgBackup → ObjectStore → String
destination_of b store = or_else b.status.destination_path store.destination_path

abbrev pub server_of : CnpgBackup → String
server_of b = or_else b.status.server_name b.cluster

abbrev pub required : {A : Type 0} → Option A → Error → Result Error A
required none e = err e
required (some a) e = ok a

module _ (append_options : List String → ObjectStore → Result String (List String)) where
  unfoldable pub build_backup_deletion_job :
      Backup → CnpgBackup → ObjectStore → Option S3Spec → Result Error DeletionJob
  unfolding deletion_job
  build_backup_deletion_job backup b store s3 = do
    spec ← required s3 (not_s3 backup.storage_ref)
    access_key ← required store.access_key_id (incomplete_credentials store.name)
    secret_key ← required store.secret_access_key (incomplete_credentials store.name)
    reject (is_empty b.status.backup_id) (no_backup_id b.name)
    reject (is_empty (destination_of b store) || is_empty (server_of b)) (no_destination b.name)
    options ←
        wrap (bad_options store.name)
          (append_options (endpoint_args (or_else b.status.endpoint_url store.endpoint_url)) store)
    let args =
        options ++ ("--backup-id" ∷ b.status.backup_id ∷ destination_of b store ∷ server_of b ∷ [])
    ok (deletion_job backup store spec access_key secret_key args)

-- The name of the deletion Job always fits the 63 bytes of a label.
pub len-backup_deletion_job_name :
    (backup_name : String) → len (backup_deletion_job_name backup_name) ≤ 63
unfolding backup_deletion_job_name
len-backup_deletion_job_name backup_name =
    let name = "delete-backup-" <> backup_name in
    elim (Bool-cases (leb (len name) 63)) [
      | inl fits ↦ rw (fits, backup_deletion_job_name) (leb→le (len name) 63 fits)
      | inr long ↦ rw (long, backup_deletion_job_name) (len-cut_name name (sha256_hex backup_name))
    ]
