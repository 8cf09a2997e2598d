-- ===== src/Cnpg/Validate/Engine.antt =====
-- What the checks on the engine's resources accept, for quantities that obey their laws.
use provider_cloudnative_pg.Common.{
  Bool, false, some, ◌≡◌, ap, ◌≢◌, ◌↔◌, ok, arith, Bool-cases, inl, inr,
}
use provider_cloudnative_pg.Common.Int.{ℤ, pos, pos_part, ltb_ℤ, ltb_ℤ_iff, eqb_ℤ_iff, ◌<ℤ◌, ◌≤ℤ◌}
use provider_cloudnative_pg.Cnpg.Quantities.{Quantities, IsLawful, Resources, NameChecks}
use provider_cloudnative_pg.Cnpg.Validate.{
  Cpu, requests_cpu, limits_cpu, validate_cpu, validate_resources,
}

module _ (q : Quantities) (l : IsLawful q) where
  open q use {Quantity}
  open l use {nano}

  -- A whole number of millicores.
  abbrev pub IsMilli : Quantity → Type 0
  IsMilli a = (m : ℤ) × (nano (q.new_milli_quantity m) ≡ nano a)

  pub record IsSized (r : Resources Quantity) : Type 0 where
    pub request_positive : pos 0 <ℤ nano r.request_cpu
    pub request_milli : IsMilli r.request_cpu
    pub limit_milli : IsMilli r.limit_cpu
    pub cpu_within : nano r.request_cpu ≤ℤ nano r.limit_cpu
    pub request_memory : nano r.request_memory ≢ pos 0
    pub limit_memory : nano r.limit_memory ≢ pos 0
    pub memory_within : nano r.request_memory ≤ℤ nano r.limit_memory

positive-ne : (a : ℤ) → pos 0 <ℤ a → a ≢ pos 0
positive-ne a h e = absurd (omega (arith, ap pos_part e))

lt_le_trans : (a b : ℤ) → pos 0 <ℤ a → a ≤ℤ b → pos 0 <ℤ b
lt_le_trans a b h k = omega arith

module _ (q : Quantities) (l : IsLawful q) (names : NameChecks) where
  open q use {Quantity}
  open l use {nano}

  validate_cpu_iff :
      (name : Cpu) (a : Quantity)
      → (validate_cpu q names name a ≡ ok tt) ↔ ((pos 0 <ℤ nano a) × IsMilli q l a)
  unfolding validate_cpu
  validate_cpu_iff name a =
      let positive = ltb_ℤ_iff (pos 0) (q.sign a) in
      let exact = eqb_ℤ_iff (q.cmp (q.new_milli_quantity (q.milli_value a)) a) (pos 0) in
      (
        λ h. (
          (l.sign-pos a).0 (positive.0 (ground arith)),
          (l.milli_exact a).0 ((l.cmp-zero _ a).0 (exact.0 (ground arith))),
        ),
        λ (p, m).
            rw (
              positive.1 ((l.sign-pos a).1 p),
              exact.1 ((l.cmp-zero _ a).1 ((l.milli_exact a).1 m)),
            ),
      )

  abbrev above : Quantity → Quantity → Bool
  above a b = ltb_ℤ (pos 0) (q.cmp a b)

  above-eq-false : (a b : Quantity) → (above a b ≡ false) ↔ (nano a ≤ℤ nano b)
  above-eq-false a b =
      let test = ltb_ℤ_iff (pos 0) (q.cmp a b) in
      let law = l.cmp-pos a b in
      (
        λ h. elim (Bool-cases (ltb_ℤ (nano b) (nano a))) [
          | inl more ↦ cc (h, test.1 (law.1 ((ltb_ℤ_iff (nano b) (nano a)).0 more)))
          | inr less ↦ ground arith
        ],
        λ h. elim (Bool-cases (above a b)) [
          | inl more ↦ let bad = law.0 (test.0 more) in absurd (omega arith)
          | inr less ↦ less
        ],
      )

  is_zero-eq-false : (a : Quantity) → (q.is_zero a ≡ false) ↔ (nano a ≢ pos 0)
  is_zero-eq-false a = (
    λ h e. cc (h, (l.is_zero_iff a).1 e),
    λ n. elim (Bool-cases (q.is_zero a)) [
      | inl zero_there ↦ absurd (n ((l.is_zero_iff a).0 zero_there))
      | inr other ↦ other
    ],
  )

  -- Resources pass exactly when they are given, the CPU request is positive, CPU request and limit
  -- are whole millicores, the memory amounts are not zero, and no request exceeds its limit.
  pub validate_resources_iff :
      (r : Resources Quantity) → (validate_resources q names (some r) ≡ ok tt) ↔ IsSized q l r
  unfolding validate_resources
  validate_resources_iff r = (
    λ h.
        let request = (validate_cpu_iff requests_cpu r.request_cpu).0 (ground arith) in
        let limit = (validate_cpu_iff limits_cpu r.limit_cpu).0 (ground arith) in
        record {
          request_positive = request.0;
          request_milli = request.1;
          limit_milli = limit.1;
          cpu_within = (above-eq-false _ _).0 (ground arith);
          request_memory = (is_zero-eq-false _).0 (ground arith);
          limit_memory = (is_zero-eq-false _).0 (ground arith);
          memory_within = (above-eq-false _ _).0 (ground arith);
        },
    λ s.
        let within = (above-eq-false r.request_cpu r.limit_cpu).1 s.cpu_within in
        let limit_positive : pos 0 <ℤ nano r.limit_cpu =
          lt_le_trans (nano r.request_cpu) (nano r.limit_cpu) s.request_positive s.cpu_within in
        let request =
          (validate_cpu_iff requests_cpu r.request_cpu).1 (s.request_positive, s.request_milli) in
        let limit = (validate_cpu_iff limits_cpu r.limit_cpu).1 (limit_positive, s.limit_milli) in
        let request_cpu = (is_zero-eq-false r.request_cpu).1 (positive-ne _ s.request_positive) in
        let limit_cpu = (is_zero-eq-false r.limit_cpu).1 (positive-ne _ limit_positive) in
        let request_memory = (is_zero-eq-false r.request_memory).1 s.request_memory in
        let limit_memory = (is_zero-eq-false r.limit_memory).1 s.limit_memory in
        let memory_within = (above-eq-false r.request_memory r.limit_memory).1 s.memory_within in
        rw (
          request_cpu, request_memory, limit_cpu, limit_memory, request, limit, within,
          memory_within,
        ),
  )
