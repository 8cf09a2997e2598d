-- ===== src/Cnpg/Validate.antt =====
-- internal/cnpg/validate.go: the checks on the engine component and its parameters.
pub mod Accepts
pub mod Engine
pub mod Parts
pub mod Sound
use Prim.Native.Char.{Char, code}
use Prim.Native.String.{[], ◌∷◌}
use provider_cloudnative_pg.Common.{
  String, Bool, true, false, not, ◌&&◌, ◌||◌, Option, none, some, List, ◌+◌, ◌==◌, is_empty,
  is_none, is_some, is_nil, length, leb, eqb, Result, ok, err, ◌>>=◌, ◌>>◌, reject, if◌then◌else◌,
}
use provider_cloudnative_pg.Common.Int.{ℤ, pos, ltb_ℤ, eqb_ℤ, ◌+ℤ◌}
use provider_cloudnative_pg.Cnpg.Types.{CertificatesConfiguration, BootstrapInitDb, Synchronous}
use provider_cloudnative_pg.Cnpg.Components.{CnpgCustomSpec, BootstrapConfiguration}
use provider_cloudnative_pg.Cnpg.Quantities.{
  Quantities, Resources, ComponentSpec, SchedulingPolicy, NameChecks,
}

pub data Cpu : Type 0 where
  requests_cpu limits_cpu : Cpu

-- One constructor for each error text, with what the text shows.
pub data Error : Type 0 where
  invalid_priority_class : String → List String → Error
  wal_storage_size : Error
  server_alt_dns_names : Error
  server_ca_required : Error
  client_ca_required : Error
  database_and_owner : Error
  invalid_database : String → Error
  invalid_owner : String → Error
  empty_secret_name : Error
  replicas_required : Error
  replicas_too_low : Error
  storage_required : Error
  resources_required : Error
  requests_required : Error
  limits_required : Error
  cpu_not_positive : Cpu → String → Error
  cpu_too_fine : Cpu → String → Error
  cpu_above_limit : String → String → Error
  memory_above_limit : String → String → Error
  affinity_conflict : Error
  synchronous_too_low : Error
  synchronous_too_high : ℤ → ℤ → Error

-- The expression `^[a-zA-Z_][a-zA-Z0-9_]*$`.
unfoldable pub is_word_start : Char → Bool
is_word_start c =
    let n = code c in (leb b'a' n && leb n b'z') || (leb b'A' n && leb n b'Z') || eqb n b'_'

unfoldable pub is_word : Char → Bool
unfolding is_word_start
is_word c = is_word_start c || (leb b'0' (code c) && leb (code c) b'9')

unfoldable pub all_word : String → Bool
unfolding is_word
all_word [] = true
all_word (c ∷ s) = is_word c && all_word s

unfoldable pub is_postgres_identifier : String → Bool
unfolding is_word_start all_word
is_postgres_identifier [] = false
is_postgres_identifier (c ∷ s) = is_word_start c && all_word s

unfoldable pub validate_certificates : CertificatesConfiguration → Result Error (Unit {0})
validate_certificates c = do
  reject (not (is_empty c.server_tls_secret) && not (is_nil c.server_alt_dns_names))
      server_alt_dns_names
  reject (not (is_empty c.server_tls_secret) && is_empty c.server_ca_secret) server_ca_required
  reject (not (is_empty c.replication_tls_secret) && is_empty c.client_ca_secret) client_ca_required

abbrev is_unnamed : Option String → Bool
is_unnamed none = false
is_unnamed (some name) = is_empty name

unfoldable pub validate_init_db : BootstrapInitDb → Result Error (Unit {0})
validate_init_db i = do
  reject
      ((not (is_empty i.database) && is_empty i.owner)
        || (is_empty i.database && not (is_empty i.owner)))
      database_and_owner
  reject (not (is_empty i.database) && not (is_postgres_identifier i.database))
      (invalid_database i.database)
  reject (not (is_empty i.owner) && not (is_postgres_identifier i.owner)) (invalid_owner i.owner)
  reject (is_unnamed i.secret) empty_secret_name

-- A check of an optional part; nil passes.
abbrev pub optional :
    {A : Type 0} → (A → Result Error (Unit {0})) → Option A → Result Error (Unit {0})
optional f none = ok tt
optional f (some a) = f a

unfoldable pub validate_bootstrap : BootstrapConfiguration → Result Error (Unit {0})
unfolding validate_init_db
validate_bootstrap b = optional validate_init_db b.init_db

-- A nil policy and nil affinity pass.
unfoldable pub validate_scheduling :
    Option SchedulingPolicy → CnpgCustomSpec → Result Error (Unit {0})
validate_scheduling none custom = ok tt
validate_scheduling (some policy) custom =
    reject
      (is_some custom.affinity
        && (is_some policy.affinity
            || not (is_nil policy.node_selector)
            || not (is_nil policy.tolerations)))
      affinity_conflict

unfoldable pub validate_synchronous_at : ℤ → Synchronous → Result Error (Unit {0})
validate_synchronous_at replicas sync = do
  reject (ltb_ℤ sync.number (pos 1)) synchronous_too_low
  reject
      (not (
        ltb_ℤ sync.number
          (replicas +ℤ (length sync.standby_names_pre + length sync.standby_names_post))))
      (synchronous_too_high sync.number replicas)

module _ (q : Quantities) (names : NameChecks) where
  open q use {
    Quantity, sign, is_zero, cmp, milli_value, new_milli_quantity, to_text, get_size_or_nil,
  }

  abbrev not_positive : Quantity → Bool
  not_positive a = not (ltb_ℤ (pos 0) (sign a))

  unfoldable pub validate_cpu : Cpu → Quantity → Result Error (Unit {0})
  validate_cpu name cpu = do
    reject (not_positive cpu) (cpu_not_positive name (to_text cpu))
    reject (not (eqb_ℤ (cmp (new_milli_quantity (milli_value cpu)) cpu) (pos 0)))
        (cpu_too_fine name (to_text cpu))

  -- `none` is the nil pointer.
  unfoldable pub validate_resources : Option (Resources Quantity) → Result Error (Unit {0})
  unfolding validate_cpu
  validate_resources none = err resources_required
  validate_resources (some r) = do
    reject (is_zero r.request_cpu || is_zero r.request_memory) requests_required
    reject (is_zero r.limit_cpu || is_zero r.limit_memory) limits_required
    validate_cpu requests_cpu r.request_cpu
    validate_cpu limits_cpu r.limit_cpu
    reject (ltb_ℤ (pos 0) (cmp r.request_cpu r.limit_cpu))
        (cpu_above_limit (to_text r.request_cpu) (to_text r.limit_cpu))
    reject (ltb_ℤ (pos 0) (cmp r.request_memory r.limit_memory))
        (memory_above_limit (to_text r.request_memory) (to_text r.limit_memory))

  abbrev pub size_missing : ComponentSpec Quantity → Bool
  size_missing engine = elim engine.storage [ none ↦ true | some s ↦ not_positive s.size ]

  unfoldable pub validate_replicas : Option ℤ → Result Error (Unit {0})
  validate_replicas none = err replicas_required
  validate_replicas (some n) = reject (ltb_ℤ n (pos 1)) replicas_too_low

  unfoldable pub validate_engine : ComponentSpec Quantity → Result Error (Unit {0})
  unfolding validate_replicas validate_resources
  validate_engine engine = do
    validate_replicas engine.replicas
    reject (size_missing engine) storage_required
    validate_resources engine.resources

  unfoldable pub validate_custom_spec : CnpgCustomSpec → Result Error (Unit {0})
  unfolding validate_bootstrap validate_certificates
  validate_custom_spec custom = do
    let faults = names.is_dns1123_subdomain custom.priority_class_name
    reject (not (is_empty custom.priority_class_name) && not (is_nil faults))
        (invalid_priority_class custom.priority_class_name faults)
    optional
        (λ w.
          reject (elim (get_size_or_nil w) [ none ↦ true | some s ↦ not_positive s ])
            wal_storage_size)
        custom.wal_storage
    optional validate_bootstrap custom.bootstrap
    optional validate_certificates custom.certificates

  unfoldable pub validate_synchronous :
      ComponentSpec Quantity → CnpgCustomSpec → Result Error (Unit {0})
  unfolding validate_synchronous_at
  validate_synchronous engine custom = elim custom.postgresql [
    | none ↦ ok tt
    | some cfg ↦ elim cfg.synchronous [
      | none ↦ ok tt
      | some sync ↦ elim engine.replicas [
        | none ↦ ok tt
        | some replicas ↦ validate_synchronous_at replicas sync
      ]
    ]
  ]
