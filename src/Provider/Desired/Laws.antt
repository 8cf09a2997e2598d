-- ===== src/Provider/Desired/Laws.antt =====
-- The Cluster that `Sync` of internal/provider/provider.go applies: it exists for every engine that
-- passes validation, and it has what the parts of the program promise of it.
use provider_cloudnative_pg.Common.{
  String, Bool, true, false, Option, none, some, List, [], ◌∷◌, ◌≡◌, ◌≢◌, refl, sym, ap, ◌∙◌, inl,
  inr, Bool-cases, ok, reject, >>-eq-ok, reject-eq-ok, if◌then◌else◌,
}
use provider_cloudnative_pg.Common.Int.{ℤ}
use provider_cloudnative_pg.Cnpg.Types.{
  Opaque, ClusterSpec, BootstrapRecovery, ExternalCluster, PluginConfiguration,
}
use provider_cloudnative_pg.Cnpg.Components.{CnpgCustomSpec}
use provider_cloudnative_pg.Cnpg.Quantities.{
  Quantities, ComponentSpec, NameChecks, Storage, Resources, SchedulingPolicy,
}
use provider_cloudnative_pg.Cnpg.Validate.{
  validate_engine, validate_replicas, validate_resources, size_missing, storage_required,
}
use provider_cloudnative_pg.Cnpg.Tls.{
  apply_require_tls, apply_require_tls-access, access, is_required, reject_non_tls_rule,
}
use provider_cloudnative_pg.Cnpg.Extensions.Images.{ExtensionImages}
use provider_cloudnative_pg.Cnpg.Extensions.Images.Keeps.{apply_extensions-KeepsUser}
use provider_cloudnative_pg.Provider.Desired.{
  Runtime, apply_scheduling, customise, set_recovery, set_plugins, complete, map_option,
  build_cluster_spec, spec_from, spec_of, desired_spec, or_keep, empty_postgres,
}

some-injective : {A : Type 0} (a b : A) → some a ≡ some b → a ≡ b
some-injective a b h = cc

map_option-some :
    {A B : Type 0} (f : A → B) (o : Option A) (b : B)
    → map_option f o ≡ some b
    → (a : A) × (o ≡ some a) × (f a ≡ b)
map_option-some f none b h = cc
map_option-some f (some a) b h = (a, refl, some-injective (f a) b h)

spec_from-some :
    (q : Quantities) (names : NameChecks) (storage : Option (Storage q.Quantity))
    (replicas : Option ℤ) (resources : Option (Resources q.Quantity)) (custom : CnpgCustomSpec)
    → storage ≢ none
    → validate_replicas q names replicas ≡ ok tt
    → validate_resources q names resources ≡ ok tt
    → spec_from q storage replicas resources custom ≢ none
unfolding validate_replicas validate_resources
spec_from-some q names none _ _ custom s h k e = s refl
spec_from-some q names (some a) none _ custom s h k e = cc
spec_from-some q names (some a) (some b) none custom s h k e = cc
spec_from-some q names (some a) (some b) (some c) custom s h k e = cc

storage-some :
    (q : Quantities) (names : NameChecks) (engine : ComponentSpec q.Quantity)
    → size_missing q names engine ≡ false
    → engine.storage ≢ none
storage-some q names engine h e = cc (rw e at h)

-- An engine that passes validation has all the pointers that `buildClusterSpec` dereferences.
pub build_cluster_spec-total :
    (q : Quantities) (names : NameChecks) (engine : ComponentSpec q.Quantity)
    (custom : CnpgCustomSpec)
    → validate_engine q names engine ≡ ok tt
    → build_cluster_spec q engine custom ≢ none
unfolding build_cluster_spec validate_engine
build_cluster_spec-total q names engine custom valid =
    let first = (>>-eq-ok (validate_replicas q names engine.replicas) _).0 valid in
    let second =
      (>>-eq-ok (reject (size_missing q names engine) storage_required)
          (validate_resources q names engine.resources)).0
        first.1 in
    let sized = (reject-eq-ok (size_missing q names engine) storage_required).0 second.0 in
    spec_from-some q names engine.storage engine.replicas engine.resources custom
      (storage-some q names engine sized) first.0 second.1

apply_scheduling-postgresql :
    (constraints : SchedulingPolicy → List Opaque) (policy : Option SchedulingPolicy)
    (spec : ClusterSpec)
    → (apply_scheduling constraints policy spec).postgresql ≡ spec.postgresql
unfolding apply_scheduling
apply_scheduling-postgresql constraints none spec = refl
apply_scheduling-postgresql constraints (some policy) spec = refl

apply_scheduling-plugins :
    (constraints : SchedulingPolicy → List Opaque) (policy : Option SchedulingPolicy)
    (spec : ClusterSpec)
    → (apply_scheduling constraints policy spec).plugins ≡ spec.plugins
unfolding apply_scheduling
apply_scheduling-plugins constraints none spec = refl
apply_scheduling-plugins constraints (some policy) spec = refl

apply_require_tls-plugins :
    (spec : ClusterSpec) (custom : CnpgCustomSpec)
    → (apply_require_tls spec custom).plugins ≡ spec.plugins
unfolding apply_require_tls
apply_require_tls-plugins spec custom = elim (Bool-cases (is_required custom.require_tls)) [
  | inl on ↦ rw (on, apply_require_tls) refl
  | inr off ↦ rw (off, apply_require_tls) refl
]

-- The configuration of PostgreSQL that the user asks for.
abbrev pub with_postgres : CnpgCustomSpec → ClusterSpec → ClusterSpec
with_postgres custom spec = record spec { postgresql = or_keep custom.postgresql spec.postgresql }

customise-pg_hba :
    (r : Runtime) (policy : Option SchedulingPolicy) (image version : String)
    (custom : CnpgCustomSpec) (images : ExtensionImages) (spec : ClusterSpec)
    → (customise r policy image version custom images spec).postgresql.pg_hba
      ≡ (apply_require_tls (with_postgres custom spec) custom).postgresql.pg_hba
unfolding customise
customise-pg_hba r policy image version custom images spec =
    ap (λ s. s.postgresql.pg_hba)
      (apply_extensions-KeepsUser r.default_database r.default_user (some custom) images _).others
    ∙ ap (λ p. p.pg_hba) (apply_scheduling-postgresql r.constraints policy _)

customise-plugins :
    (r : Runtime) (policy : Option SchedulingPolicy) (image version : String)
    (custom : CnpgCustomSpec) (images : ExtensionImages) (spec : ClusterSpec)
    → (customise r policy image version custom images spec).plugins ≡ spec.plugins
unfolding customise
customise-plugins r policy image version custom images spec =
    ap (λ s. s.plugins)
      (apply_extensions-KeepsUser r.default_database r.default_user (some custom) images _).others
    ∙ apply_scheduling-plugins r.constraints policy _
    ∙ apply_require_tls-plugins (with_postgres custom spec) custom

Blank : ClusterSpec → Type 0
Blank spec = (spec.plugins ≡ []) × (spec.postgresql ≡ empty_postgres)

spec_from-Blank :
    (q : Quantities) (storage : Option (Storage q.Quantity)) (replicas : Option ℤ)
    (resources : Option (Resources q.Quantity)) (custom : CnpgCustomSpec) (spec : ClusterSpec)
    → spec_from q storage replicas resources custom ≡ some spec
    → Blank spec
unfolding Blank
spec_from-Blank q none _ _ custom spec h = cc
spec_from-Blank q (some a) none _ custom spec h = cc
spec_from-Blank q (some a) (some b) none custom spec h = cc
spec_from-Blank q (some a) (some b) (some c) custom spec h =
    let same : spec_of q b a c custom ≡ spec = some-injective _ spec h in
    (ap (λ s. s.plugins) (sym same), ap (λ s. s.postgresql) (sym same))

set_recovery-pg_hba :
    (recovery : Option (BootstrapRecovery × ExternalCluster)) (spec : ClusterSpec)
    → ((set_recovery recovery spec).postgresql ≡ spec.postgresql)
      × ((set_recovery recovery spec).plugins ≡ spec.plugins)
unfolding set_recovery
set_recovery-pg_hba none spec = (refl, refl)
set_recovery-pg_hba (some (a, b)) spec = (refl, refl)

set_plugins-postgresql :
    (plugins : List PluginConfiguration) (spec : ClusterSpec)
    → (set_plugins plugins spec).postgresql ≡ spec.postgresql
unfolding set_plugins
set_plugins-postgresql [] spec = refl
set_plugins-postgresql (p ∷ ps) spec = refl

set_plugins-plugins :
    (plugins : List PluginConfiguration) (spec : ClusterSpec)
    → spec.plugins ≡ []
    → (set_plugins plugins spec).plugins ≡ plugins
unfolding set_plugins
set_plugins-plugins [] spec h = h
set_plugins-plugins (p ∷ ps) spec h = refl

module _ (q : Quantities) (r : Runtime) (engine : ComponentSpec q.Quantity)
    (custom : CnpgCustomSpec) (images : ExtensionImages)
    (recovery : Option (BootstrapRecovery × ExternalCluster)) (plugins : List PluginConfiguration)
    (spec : ClusterSpec) where
  Built : Type 0
  Built =
      (start : ClusterSpec) × Blank start
      × (complete r engine custom images recovery plugins start ≡ spec)

  built : desired_spec q r engine custom images recovery plugins ≡ some spec → Built
  unfolding desired_spec build_cluster_spec Built
  built h =
      let start = spec_from q engine.storage engine.replicas engine.resources custom in
      let m = map_option-some (complete r engine custom images recovery plugins) start spec h in
      (m.0, spec_from-Blank q engine.storage engine.replicas engine.resources custom m.0 m.1, m.2)

  -- The applied Cluster has exactly the plugins that the backup infrastructure returned.
  pub desired_spec-plugins :
      desired_spec q r engine custom images recovery plugins ≡ some spec → spec.plugins ≡ plugins
  unfolding Built Blank complete
  desired_spec-plugins h =
      let b = built h in
      let made =
        customise r engine.scheduling_policy engine.image engine.version custom images b.0 in
      let clean : made.plugins ≡ [] =
        customise-plugins r engine.scheduling_policy engine.image engine.version custom images b.0
        ∙ b.1.0 in
      ap (λ s. s.plugins) (sym b.2)
      ∙ set_plugins-plugins plugins (set_recovery recovery made)
          ((set_recovery-pg_hba recovery made).1 ∙ clean)

  -- With TLS required, PostgreSQL under the applied Cluster rejects every connection without TLS, and
  -- decides on all others by the user's rules alone, where `decide` reads the rule
  -- `hostnossl all all all reject` as the documentation of PostgreSQL does.
  pub desired_spec-access :
      {Connection : Type 0} (is_tls : Connection → Bool)
      (decide : String → Connection → Option Bool) (c : Connection)
      → decide reject_non_tls_rule c ≡ (if is_tls c then none else some false)
      → is_required custom.require_tls ≡ true
      → desired_spec q r engine custom images recovery plugins ≡ some spec
      → access is_tls decide spec.postgresql.pg_hba c ≡ (
          if is_tls c
          then access is_tls decide (or_keep custom.postgresql empty_postgres).pg_hba c
          else some false)
  unfolding Built Blank complete
  desired_spec-access is_tls decide c rule on h =
      let b = built h in
      let made =
        customise r engine.scheduling_policy engine.image engine.version custom images b.0 in
      let user = with_postgres custom b.0 in
      let rules : spec.postgresql.pg_hba ≡ (apply_require_tls user custom).postgresql.pg_hba =
        ap (λ s. s.postgresql.pg_hba) (sym b.2)
        ∙ ap (λ p. p.pg_hba) (set_plugins-postgresql plugins (set_recovery recovery made))
        ∙ ap (λ p. p.pg_hba) (set_recovery-pg_hba recovery made).0
        ∙ customise-pg_hba r engine.scheduling_policy engine.image engine.version custom images
            b.0 in
      let asked : user.postgresql ≡ or_keep custom.postgresql empty_postgres =
        ap (or_keep custom.postgresql) b.1.1 in
      rw (rules, sym asked) (apply_require_tls-access is_tls decide user custom c rule on)
