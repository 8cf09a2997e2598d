-- ===== src/Barman/ObjectStore.antt =====
-- internal/cnpg/barman/backup.go: the ObjectStores of an Instance's backup storages, and the plugin
-- configuration of its Cluster. The reads and writes of the Kubernetes API are parameters.
pub mod Shared
pub mod Stable
pub mod Infrastructure
use Prim.Native.Char.{Char, code}
use Prim.Native.String.{[], ◌∷◌}
use provider_cloudnative_pg.Common.{
  ℕ, ◌+◌, String, ◌<>◌, Bool, true, false, not, ◌&&◌, ◌||◌, Option, none, some, List, [], ◌∷◌, ◌++◌,
  ◌==◌, is_empty, is_nil, leb, eqb, Result, ok, err, ◌>>=◌, ◌>>◌, reject, wrap, Got, found,
  not_found, failed, if◌then◌else◌,
}
use provider_cloudnative_pg.Common.Dict.{Dict, value}
use provider_cloudnative_pg.Cnpg.Types.{PluginConfiguration}
use provider_cloudnative_pg.Barman.Types.{
  BackupConfig, Instance, InstanceBackupSpec, InstanceBackupStorage, BackupStorage, S3Spec,
  SecretKey, ObjectStore,
}
use provider_cloudnative_pg.Barman.Plugin.{
  plugin_name, plugin_parameter_object_store, endpoint_ca_secret_suffix, endpoint_ca_key,
}
use provider_cloudnative_pg.Barman.Schedule
use provider_cloudnative_pg.Barman.Schedule.{storage_retention_policy}

-- The runtime's calls. A write returns an error, or none, and the new state.
pub record Client : Type 1 where
  pub State : Type 0
  pub get_backup_storage : State → String → Got BackupStorage
  -- The access key and the secret key.
  pub credentials : State → BackupStorage → Got (String × String)
  -- The data of a Secret.
  pub get_secret : State → String → Got (Dict String)
  pub list_instances : State → String → Result String (List Instance)
  pub get_object_store : State → String → Got ObjectStore
  pub apply_object_store : ObjectStore → State → Option String × State

pub data Error : Type 0 where
  wait_for_storage : String → Error
  storage_resolution_failed : String → Error
  unsupported_storage : String → Error
  wait_for_credentials : String → String → Error
  credentials_unavailable : String → Error
  credentials_incomplete : String → Error
  get_secret_failed : String → String → Error
  endpoint_ca_invalid : String → Error
  invalid_backup_retention : Schedule.Error → Error
  list_failed : String → String → Error
  get_object_store_failed : String → String → Error
  -- The storage, the namespace, the own policy, and the peers with theirs.
  retention_conflict : String → String → String → List (String × String) → Error
  apply_failed : String → String → Error

-- The lower case of an ASCII letter.
abbrev lower : ℕ → ℕ
lower n = if leb b'A' n && leb n b'Z' then n + 32 else n

-- `strings.HasPrefix(strings.ToLower(s), prefix)` for a prefix of lower-case letters that no other
-- character has as its lower case.
unfoldable pub has_prefix_fold : String → String → Bool
has_prefix_fold s [] = true
has_prefix_fold [] (p ∷ ps) = false
has_prefix_fold (c ∷ s) (p ∷ ps) = eqb (lower (code c)) (code p) && has_prefix_fold s ps

unfoldable pub retention_label : String → String
retention_label policy = if is_empty policy then "keep all" else policy

unfoldable pub build_object_store : String → S3Spec → Option SecretKey → ObjectStore
build_object_store logical_name s3 endpoint_ca = record {
  name = logical_name;
  endpoint_url = s3.endpoint_url;
  endpoint_ca = endpoint_ca;
  destination_path = "s3://" <> (s3.bucket <> "/");
  access_key_id = some (record { name = s3.credentials_secret; key = "AWS_ACCESS_KEY_ID" });
  secret_access_key = some (record { name = s3.credentials_secret; key = "AWS_SECRET_ACCESS_KEY" });
  region = none;
  wal_compression = "gzip";
  retention_policy = "";
}

-- The innermost test, on a storage that names the store.
unfoldable pub add_conflict :
    String → String → Result Schedule.Error String → List (String × String) → List (String × String)
add_conflict peer retention (err e) rest = rest
add_conflict peer retention (ok policy) rest =
    if policy == retention then rest else (peer, policy) ∷ rest

-- The part of one peer's storages in the loops of `checkSharedRetention`.
unfoldable pub conflicts_of_storages :
    String → String → String → List InstanceBackupStorage → List (String × String)
unfolding add_conflict
conflicts_of_storages storage retention peer [] = []
conflicts_of_storages storage retention peer (strg ∷ storages) =
    let rest = conflicts_of_storages storage retention peer storages in
    if not (strg.storage_ref == storage)
    then rest
    else add_conflict peer retention (storage_retention_policy strg) rest

abbrev pub backup_storages : Option InstanceBackupSpec → List InstanceBackupStorage
backup_storages none = []
backup_storages (some b) = if b.enabled then b.storages else []

-- Whether an Instance shares storages with `self`.
abbrev pub is_peer : Instance → Instance → Bool
is_peer self peer =
    not (peer.name == self.name) && not peer.deleting && (peer.provider_ref == self.provider_ref)

unfoldable pub conflicts_of : Instance → String → String → List Instance → List (String × String)
unfolding conflicts_of_storages
conflicts_of self storage retention [] = []
conflicts_of self storage retention (peer ∷ peers) =
    let rest = conflicts_of self storage retention peers in
    if is_peer self peer
    then conflicts_of_storages storage retention peer.name (backup_storages peer.backup) ++ rest
    else rest

-- From the test for conflicts on, with what the read of the current ObjectStore gives.
unfoldable pub settle :
    Instance → String → String → Got ObjectStore → List (String × String) → Result Error (Unit {0})
settle self storage retention current [] = ok tt
settle self storage retention current (conflict ∷ conflicts) =
    let refused = retention_conflict storage self.namespace retention (conflict ∷ conflicts) in
    elim current [
      | failed e ↦ err (get_object_store_failed storage e)
      | not_found ↦ err refused
      | found store ↦ if store.retention_policy == retention then ok tt else err refused
    ]

-- What the Cluster is given with the first storage.
abbrev pub plugins_for : String → List PluginConfiguration
plugins_for main =
    (record {
      name = plugin_name;
      enabled = some true;
      is_wal_archiver = some true;
      parameters = (plugin_parameter_object_store, main) ∷ [];
    })
    ∷ []

-- The end of `SyncBackupInfrastructure`, after the loop.
abbrev pub with_plugins :
    {S : Type 0}
    → String
    → Result Error (Unit {0}) × S
    → Result Error (List PluginConfiguration) × S
with_plugins main (err e, s) = (err e, s)
with_plugins main (ok _, s) = (ok (plugins_for main), s)

module _ (c : Client) where
  open c use {
    State, get_backup_storage, credentials, get_secret, list_instances, get_object_store,
    apply_object_store,
  }

  unfoldable pub check_shared_retention :
      State → Instance → String → String → Result Error (Unit {0})
  unfolding conflicts_of settle
  check_shared_retention s self storage retention =
      wrap (list_failed storage) (list_instances s self.namespace) >>= λ instances.
      settle self storage retention (get_object_store s storage)
        (conflicts_of self storage retention instances)

  unfoldable pub endpoint_ca_ref : State → String → String → Result Error (Option SecretKey)
  unfolding has_prefix_fold
  endpoint_ca_ref s logical_name endpoint_url =
      if not (has_prefix_fold endpoint_url "https://")
      then ok none
      else let name = logical_name <> endpoint_ca_secret_suffix in
        elim (get_secret s name) [
          | not_found ↦ ok none
          | failed e ↦ err (get_secret_failed name e)
          | found contents ↦
              if is_empty (value endpoint_ca_key contents)
              then err (endpoint_ca_invalid name)
              else ok (some (record { name = name; key = endpoint_ca_key }))
        ]

  unfoldable pub resolve_storage : State → String → Result Error (BackupStorage × S3Spec)
  resolve_storage s name = elim (get_backup_storage s name) [
    | not_found ↦ err (wait_for_storage name)
    | failed e ↦ err (storage_resolution_failed e)
    | found bg ↦ elim bg.s3 [ none ↦ err (unsupported_storage bg.name) | some s3 ↦ ok (bg, s3) ]
  ]

  unfoldable pub check_credentials : State → BackupStorage → S3Spec → Result Error (Unit {0})
  check_credentials s bg s3 = elim (credentials s bg) [
    | not_found ↦ err (wait_for_credentials s3.credentials_secret bg.name)
    | failed e ↦ err (credentials_unavailable e)
    | found (access, secret) ↦
        reject (is_empty access || is_empty secret) (credentials_incomplete s3.credentials_secret)
  ]

  -- One round of the loop of `SyncBackupInfrastructure`, up to the write.
  unfoldable pub prepare : State → Instance → InstanceBackupStorage → Result Error ObjectStore
  unfolding resolve_storage check_credentials endpoint_ca_ref check_shared_retention
  prepare s self strg = do
    resolved ← resolve_storage s strg.storage_ref
    check_credentials s resolved.0 resolved.1
    ca ← endpoint_ca_ref s strg.storage_ref resolved.1.endpoint_url
    let store = build_object_store strg.storage_ref resolved.1 ca
    retention ← wrap invalid_backup_retention (storage_retention_policy strg)
    check_shared_retention s self strg.storage_ref retention
    ok (record store { retention_policy = retention })

  unfoldable pub sync_storages :
      Instance → List InstanceBackupStorage → State → Result Error (Unit {0}) × State
  sync_storages self [] s = (ok tt, s)
  sync_storages self (strg ∷ storages) s = elim (prepare s self strg) [
    | err e ↦ (err e, s)
    | ok store ↦
        let s' = (apply_object_store store s).1 in
        let rest = sync_storages self storages s' in
        elim (apply_object_store store s).0 [
          | none ↦ rest
          | some e ↦ (err (apply_failed strg.storage_ref e), s')
        ]
  ]

  -- From the test for an empty list of storages on.
  unfoldable pub sync_enabled :
      Instance
      → List InstanceBackupStorage
      → State
      → Result Error (List PluginConfiguration) × State
  unfolding sync_storages
  sync_enabled self [] s = (ok [], s)
  sync_enabled self (strg ∷ storages) s =
      with_plugins strg.storage_ref (sync_storages self (strg ∷ storages) s)

  unfoldable pub sync_backup_infrastructure :
      Instance → State → Result Error (List PluginConfiguration) × State
  unfolding sync_enabled
  sync_backup_infrastructure self s = sync_enabled self (backup_storages self.backup) s
