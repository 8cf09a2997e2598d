-- ===== src/Cnpg/Validate/Sound.antt =====
-- internal/cnpg/validate.go: what the four checks on an engine and its parameters accept together.
use provider_cloudnative_pg.Common.{
  String, some, [], ◌≡◌, ◌≢◌, ◌↔◌, Result, ok, reject, >>-eq-ok, reject-eq-ok, gate_iff, is_nil,
  not, is_empty, ◌&&◌, ◌>>◌, true, none, arith,
}
use provider_cloudnative_pg.Common.Int.{ℤ, pos, ltb_ℤ, ◌<ℤ◌, ◌≤ℤ◌}
use provider_cloudnative_pg.Cnpg.Types.{CertificatesConfiguration, StorageConfiguration}
use provider_cloudnative_pg.Cnpg.Components.{CnpgCustomSpec, BootstrapConfiguration}
use provider_cloudnative_pg.Cnpg.Quantities.{
  Quantities, IsLawful, Resources, Storage, ComponentSpec, NameChecks,
}
use provider_cloudnative_pg.Cnpg.Validate.{
  Error, optional, size_missing, validate_replicas, validate_resources, validate_engine,
  validate_custom_spec, validate_synchronous, validate_scheduling, validate_bootstrap,
  validate_certificates, storage_required, wal_storage_size, invalid_priority_class,
}
use provider_cloudnative_pg.Cnpg.Validate.Accepts.{
  IsConsistent, is_nil_iff, validate_certificates_iff,
}
use provider_cloudnative_pg.Cnpg.Validate.Engine.{IsSized}
use provider_cloudnative_pg.Cnpg.Validate.Parts.{
  IsNamed, IsReplicated, IsPlaced, optional_iff, validate_bootstrap_iff, replicas_iff, storage_iff,
  wal_iff, resources_iff, synchronous_iff, scheduling_iff,
}

module _ (q : Quantities) (l : IsLawful q) (names : NameChecks) where
  open q use {Quantity}
  open l use {nano}

  -- What makes an engine sound.
  pub record IsSound (engine : ComponentSpec Quantity) (custom : CnpgCustomSpec) : Type 0 where
    pub replicas : (n : ℤ) × (engine.replicas ≡ some n) × (pos 1 ≤ℤ n)
    pub storage : (s : Storage Quantity) × (engine.storage ≡ some s) × (pos 0 <ℤ nano s.size)
    pub resources : (r : Resources Quantity) × (engine.resources ≡ some r) × IsSized q l r
    pub priority :
        custom.priority_class_name ≢ "" → names.is_dns1123_subdomain custom.priority_class_name ≡ []
    pub wal :
        (w : StorageConfiguration)
        → custom.wal_storage ≡ some w
        → (s : Quantity) × (q.get_size_or_nil w ≡ some s) × (pos 0 <ℤ nano s)
    pub bootstrap : (b : BootstrapConfiguration) → custom.bootstrap ≡ some b → IsNamed b
    pub certificates :
        (c : CertificatesConfiguration) → custom.certificates ≡ some c → IsConsistent c
    pub replication : IsReplicated q l names custom.postgresql engine.replicas
    pub placement : IsPlaced q l names engine.scheduling_policy custom

  wal_storage_iff :
      (w : StorageConfiguration)
      → (reject
            (elim (q.get_size_or_nil w) [ none ↦ true | some s ↦ not (ltb_ℤ (pos 0) (q.sign s)) ])
            wal_storage_size
          ≡ ok tt)
        ↔ ((s : Quantity) × (q.get_size_or_nil w ≡ some s) × (pos 0 <ℤ nano s))
  wal_storage_iff w =
      let outer = reject-eq-ok _ wal_storage_size in
      let inner = wal_iff q l names (q.get_size_or_nil w) in
      ((λ h. inner.0 (outer.0 h)), λ k. outer.1 (inner.1 k))

  priority_iff :
      (name : String)
      → (reject
            (not (is_empty name) && not (is_nil (names.is_dns1123_subdomain name)))
            (invalid_priority_class name (names.is_dns1123_subdomain name))
          ≡ ok tt)
        ↔ (name ≢ "" → names.is_dns1123_subdomain name ≡ [])
  priority_iff name =
      let faults = names.is_dns1123_subdomain name in
      let outer = reject-eq-ok _ (invalid_priority_class name faults) in
      let gate = gate_iff name (not (is_nil faults)) in
      let empty = is_nil_iff faults in
      (
        (λ h n. let none_there = gate.0 (outer.0 h) n in empty.0 (ground arith)),
        λ k. outer.1 (gate.1 (λ n. let all = empty.1 (k n) in ground arith)),
      )

  engine_iff :
      (engine : ComponentSpec Quantity)
      → (validate_engine q names engine ≡ ok tt) ↔ (
          ((n : ℤ) × (engine.replicas ≡ some n) × (pos 1 ≤ℤ n))
          × ((s : Storage Quantity) × (engine.storage ≡ some s) × (pos 0 <ℤ nano s.size))
          × ((r : Resources Quantity) × (engine.resources ≡ some r) × IsSized q l r))
  unfolding validate_engine
  engine_iff engine =
      let sized = reject (size_missing q names engine) storage_required in
      let rest = validate_resources q names engine.resources in
      let first = >>-eq-ok (validate_replicas q names engine.replicas) (sized >> rest) in
      let second = >>-eq-ok sized rest in
      let size = reject-eq-ok (size_missing q names engine) storage_required in
      let replicas = replicas_iff q l names engine.replicas in
      let storage = storage_iff q l names engine.storage in
      let resources = resources_iff q l names engine.resources in
      (
        (λ h.
            let (a, b) = first.0 h in
            let (c, d) = second.0 b in (replicas.0 a, storage.0 (size.0 c), resources.0 d)),
        λ (a, b, c). first.1 (replicas.1 a, second.1 (size.1 (storage.1 b), resources.1 c)),
      )

  abbrev wal_check : StorageConfiguration → Result Error (Unit {0})
  wal_check w =
      reject (elim (q.get_size_or_nil w) [ none ↦ true | some s ↦ not (ltb_ℤ (pos 0) (q.sign s)) ])
        wal_storage_size

  custom_iff :
      (custom : CnpgCustomSpec)
      → (validate_custom_spec q names custom ≡ ok tt) ↔ (
          (custom.priority_class_name ≢ ""
            → names.is_dns1123_subdomain custom.priority_class_name ≡ [])
          × ((w : StorageConfiguration)
              → custom.wal_storage ≡ some w
              → (s : Quantity) × (q.get_size_or_nil w ≡ some s) × (pos 0 <ℤ nano s))
          × ((b : BootstrapConfiguration) → custom.bootstrap ≡ some b → IsNamed b)
          × ((c : CertificatesConfiguration) → custom.certificates ≡ some c → IsConsistent c))
  unfolding validate_custom_spec
  custom_iff custom =
      let name = custom.priority_class_name in
      let faults = names.is_dns1123_subdomain name in
      let m1 =
        reject (not (is_empty name) && not (is_nil faults)) (invalid_priority_class name faults) in
      let m2 = optional wal_check custom.wal_storage in
      let m3 = optional validate_bootstrap custom.bootstrap in
      let m4 = optional validate_certificates custom.certificates in
      let first = >>-eq-ok m1 (m2 >> (m3 >> m4)) in
      let second = >>-eq-ok m2 (m3 >> m4) in
      let third = >>-eq-ok m3 m4 in
      let priority = priority_iff name in
      let wal =
        optional_iff wal_check
          (λ w. (s : Quantity) × (q.get_size_or_nil w ≡ some s) × (pos 0 <ℤ nano s)) wal_storage_iff
          custom.wal_storage in
      let bootstrap =
        optional_iff validate_bootstrap IsNamed validate_bootstrap_iff custom.bootstrap in
      let certificates =
        optional_iff validate_certificates IsConsistent validate_certificates_iff
          custom.certificates in
      (
        (λ h.
            let (a, b) = first.0 h in
            let (c, d) = second.0 b in
            let (e, f) = third.0 d in (priority.0 a, wal.0 c, bootstrap.0 e, certificates.0 f)),
        λ (a, b, c, d).
            first.1 (priority.1 a, second.1 (wal.1 b, third.1 (bootstrap.1 c, certificates.1 d))),
      )

  -- The four checks on an engine and its parameters pass exactly when the engine has at least one
  -- replica, a positive size and sized resources; and of the parameters that are given, the priority class
  -- is a name, the WAL storage has a positive size, the bootstrap is named, the certificates are
  -- consistent, synchronous replication leaves a candidate over, and the affinity is given once.
  pub engine_checks_iff :
      (engine : ComponentSpec Quantity) (custom : CnpgCustomSpec)
      → ((validate_engine q names engine ≡ ok tt)
          × (validate_custom_spec q names custom ≡ ok tt)
          × (validate_synchronous q names engine custom ≡ ok tt)
          × (validate_scheduling engine.scheduling_policy custom ≡ ok tt))
        ↔ IsSound engine custom
  engine_checks_iff engine custom =
      let one = engine_iff engine in
      let two = custom_iff custom in
      let three = synchronous_iff q l names engine custom in
      let four = scheduling_iff q l names engine.scheduling_policy custom in
      (
        (λ (a, b, c, d).
            let (r, s, m) = one.0 a in
            let (p, w, t, k) = two.0 b in
            record {
              replicas = r;
              storage = s;
              resources = m;
              priority = p;
              wal = w;
              bootstrap = t;
              certificates = k;
              replication = three.0 c;
              placement = four.0 d;
            }),
        λ s. (
          one.1 (s.replicas, s.storage, s.resources),
          two.1 (s.priority, s.wal, s.bootstrap, s.certificates),
          three.1 s.replication,
          four.1 s.placement,
        ),
      )
