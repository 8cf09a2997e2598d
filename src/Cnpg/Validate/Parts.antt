-- ===== src/Cnpg/Validate/Parts.antt =====
-- internal/cnpg/validate.go: what the checks on each part of an engine and its parameters accept.
use provider_cloudnative_pg.Common.{
  true, false, not, ◌&&◌, ◌||◌, Option-cases, Option, none, some, is_some, [], ◌≡◌, ◌≢◌, refl, sym,
  ap, subst, ◌∙◌, ◌↔◌, inl, inr, ◌+◌, is_nil, length, Result, ok, reject-eq-ok, Bool-cases, arith,
}
use provider_cloudnative_pg.Common.Int.{ℤ, pos, ltb_ℤ, ltb_ℤ_iff, ◌<ℤ◌, ◌≤ℤ◌, ◌+ℤ◌}
use provider_cloudnative_pg.Cnpg.Types.{BootstrapInitDb, PostgresConfiguration, Synchronous}
use provider_cloudnative_pg.Cnpg.Components.{CnpgCustomSpec, BootstrapConfiguration}
use provider_cloudnative_pg.Cnpg.Quantities.{
  Quantities, IsLawful, Resources, ComponentSpec, SchedulingPolicy, NameChecks, Storage,
}
use provider_cloudnative_pg.Cnpg.Validate.{
  Error, optional, validate_replicas, validate_resources, validate_synchronous, validate_scheduling,
  validate_synchronous_at, validate_bootstrap, validate_init_db,
}
use provider_cloudnative_pg.Cnpg.Validate.Accepts.{
  IsNamedPair, is_nil_iff, validate_init_db_iff, validate_synchronous_at_iff,
}
use provider_cloudnative_pg.Cnpg.Validate.Engine.{IsSized, validate_resources_iff}

some-injective : {A : Type 0} {a b : A} → Path (Option A) (some a) (some b) → a ≡ b
some-injective e = cc

-- A check of an optional part passes exactly when it passes on the part that is given.
pub optional_iff :
    {A : Type 0} (f : A → Result Error (Unit {0})) (P : A → Type 0)
    → ((a : A) → (f a ≡ ok tt) ↔ P a)
    → (o : Option A) → (optional f o ≡ ok tt) ↔ ((a : A) → o ≡ some a → P a)
optional_iff f P each none = ((λ h a e. cc e), λ k. refl)
optional_iff f P each (some a) =
    ((λ h b e. subst P (some-injective e) ((each a).0 h)), λ k. (each a).1 (k a refl))

-- The bootstrap's names.
abbrev pub IsNamed : BootstrapConfiguration → Type 0
IsNamed b = (i : BootstrapInitDb) → b.init_db ≡ some i → IsNamedPair i × (i.secret ≢ some "")

abbrev pub IsQuorum : ℤ → Synchronous → Type 0
IsQuorum replicas sync =
    (pos 1 ≤ℤ sync.number)
    × (sync.number
        <ℤ (replicas +ℤ (length sync.standby_names_pre + length sync.standby_names_post)))

pub validate_bootstrap_iff :
    (b : BootstrapConfiguration) → (validate_bootstrap b ≡ ok tt) ↔ IsNamed b
unfolding validate_bootstrap
validate_bootstrap_iff b =
    optional_iff validate_init_db (λ i. IsNamedPair i × (i.secret ≢ some "")) validate_init_db_iff
      b.init_db

module _ (q : Quantities) (l : IsLawful q) (names : NameChecks) where
  open q use {Quantity}
  open l use {nano}

  pub replicas_iff :
      (o : Option ℤ)
      → (validate_replicas q names o ≡ ok tt) ↔ ((n : ℤ) × (o ≡ some n) × (pos 1 ≤ℤ n))
  unfolding validate_replicas
  replicas_iff none = ((λ h. cc), λ (n, e, k). cc e)
  replicas_iff (some n) = (
    (λ h. (n, refl, ground arith)),
    λ (m, e, k). let same = some-injective e in rw same (ground arith),
  )

  positive_iff : (a : Quantity) → (not (ltb_ℤ (pos 0) (q.sign a)) ≡ false) ↔ (pos 0 <ℤ nano a)
  positive_iff a =
      let test = ltb_ℤ_iff (pos 0) (q.sign a) in
      ((λ h. (l.sign-pos a).0 (test.0 (ground arith))), λ k. rw (test.1 ((l.sign-pos a).1 k)) refl)

  pub storage_iff :
      (o : Option (Storage Quantity))
      → ((elim o [ none ↦ true | some s ↦ not (ltb_ℤ (pos 0) (q.sign s.size)) ]) ≡ false)
        ↔ ((s : Storage Quantity) × (o ≡ some s) × (pos 0 <ℤ nano s.size))
  storage_iff none = ((λ h. cc), λ (s, e, k). cc e)
  storage_iff (some s) = (
    (λ h. (s, refl, (positive_iff s.size).0 h)),
    λ (s', e, k).
        let same = some-injective e in
        (positive_iff s.size).1 (subst (λ x. pos 0 <ℤ nano x.size) (sym same) k),
  )

  pub wal_iff :
      (o : Option Quantity)
      → ((elim o [ none ↦ true | some s ↦ not (ltb_ℤ (pos 0) (q.sign s)) ]) ≡ false)
        ↔ ((s : Quantity) × (o ≡ some s) × (pos 0 <ℤ nano s))
  wal_iff none = ((λ h. cc), λ (s, e, k). cc e)
  wal_iff (some s) = (
    (λ h. (s, refl, (positive_iff s).0 h)),
    λ (s', e, k).
        let same = some-injective e in
        (positive_iff s).1 (subst (λ x. pos 0 <ℤ nano x) (sym same) k),
  )

  pub resources_iff :
      (o : Option (Resources Quantity))
      → (validate_resources q names o ≡ ok tt)
        ↔ ((r : Resources Quantity) × (o ≡ some r) × IsSized q l r)
  unfolding validate_resources
  resources_iff none = ((λ h. cc), λ (r, e, k). cc e)
  resources_iff (some r) = (
    (λ h. (r, refl, (validate_resources_iff q l names r).0 h)),
    λ (r', e, k).
        (validate_resources_iff q l names r).1 (subst (IsSized q l) (sym (some-injective e)) k),
  )

  -- The check of a configuration of PostgreSQL.
  abbrev check_at : Option Synchronous → Option ℤ → Result Error (Unit {0})
  check_at o replicas = elim o [
    | none ↦ ok tt
    | some sync ↦ elim replicas [ none ↦ ok tt | some n ↦ validate_synchronous_at n sync ]
  ]

  synchronous_at_iff :
      (o : Option Synchronous) (replicas : Option ℤ)
      → (check_at o replicas ≡ ok tt)
        ↔ ((sync : Synchronous) (n : ℤ) → o ≡ some sync → replicas ≡ some n → IsQuorum n sync)
  synchronous_at_iff none replicas = ((λ h sync n e. cc e), λ k. refl)
  synchronous_at_iff (some sync) none = ((λ h sync n e e'. cc e'), λ k. refl)
  synchronous_at_iff (some sync) (some n) =
      let both = validate_synchronous_at_iff n sync in
      (
        (λ h sync' n' e e'.
            subst (λ x. IsQuorum x sync') (some-injective e')
              (subst (IsQuorum n) (some-injective e) (both.0 h))),
        λ k. both.1 (k sync n refl refl),
      )

  abbrev pub IsReplicated : Option PostgresConfiguration → Option ℤ → Type 0
  IsReplicated postgresql replicas =
      (cfg : PostgresConfiguration) (sync : Synchronous) (n : ℤ)
      → postgresql ≡ some cfg
      → cfg.synchronous ≡ some sync
      → replicas ≡ some n
      → IsQuorum n sync

  pub synchronous_iff :
      (engine : ComponentSpec Quantity) (custom : CnpgCustomSpec)
      → (validate_synchronous q names engine custom ≡ ok tt)
        ↔ IsReplicated custom.postgresql engine.replicas
  unfolding validate_synchronous
  synchronous_iff engine custom = elim (Option-cases custom.postgresql) [
    | inl e ↦ rw (e, validate_synchronous) ((λ h cfg sync n e'. cc e'), λ k. refl)
    | inr (cfg, e) ↦
        let both = synchronous_at_iff cfg.synchronous engine.replicas in
        rw (e, validate_synchronous)
          (
            (λ h cfg' sync n e' s r.
                let same = some-injective e' in
                both.0 h sync n (ap (λ c. c.synchronous) same ∙ s) r),
            λ k. both.1 (λ sync n s r. k cfg sync n refl s r),
          )
  ]

  -- The affinity is not given twice.
  abbrev pub IsPlaced : Option SchedulingPolicy → CnpgCustomSpec → Type 0
  IsPlaced policy custom =
      (p : SchedulingPolicy)
      → policy ≡ some p
      → custom.affinity ≢ none
      → (p.affinity ≡ none) × (p.node_selector ≡ []) × (p.tolerations ≡ [])

  is_some_iff : {A : Type 0} (o : Option A) → (is_some o ≡ false) ↔ (o ≡ none)
  is_some_iff none = ((λ h. refl), λ e. refl)
  is_some_iff (some a) = ((λ h. cc), λ e. cc)

  placed_iff :
      (p : SchedulingPolicy) (custom : CnpgCustomSpec)
      → ((is_some custom.affinity
            && (is_some p.affinity || not (is_nil p.node_selector) || not (is_nil p.tolerations)))
          ≡ false)
        ↔ (custom.affinity ≢ none
            → (p.affinity ≡ none) × (p.node_selector ≡ []) × (p.tolerations ≡ []))
  placed_iff p custom =
      let there = is_some_iff custom.affinity in
      let affinity = is_some_iff p.affinity in
      let selector = is_nil_iff p.node_selector in
      let tolerations = is_nil_iff p.tolerations in
      (
        (λ h n. elim (Bool-cases (is_some custom.affinity)) [
          | inl on ↦
              (affinity.0 (ground arith), selector.0 (ground arith), tolerations.0 (ground arith))
          | inr off ↦ absurd (n (there.0 off))
        ]),
        λ k. elim (Bool-cases (is_some custom.affinity)) [
          | inr off ↦ ground arith
          | inl on ↦
              let (a, b, c) = k (λ e. cc (on, there.1 e)) in
              let a' = affinity.1 a in
              let b' = selector.1 b in let c' = tolerations.1 c in ground arith
        ],
      )

  pub scheduling_iff :
      (policy : Option SchedulingPolicy) (custom : CnpgCustomSpec)
      → (validate_scheduling policy custom ≡ ok tt) ↔ IsPlaced policy custom
  unfolding validate_scheduling
  scheduling_iff none custom = ((λ h p e. cc e), λ k. refl)
  scheduling_iff (some policy) custom =
      let both = placed_iff policy custom in
      (
        (λ h p e n.
            subst (λ p. (p.affinity ≡ none) × (p.node_selector ≡ []) × (p.tolerations ≡ []))
              (some-injective e) (both.0 ((reject-eq-ok _ _).0 h) n)),
        λ k. (reject-eq-ok _ _).1 (both.1 (k policy refl)),
      )
