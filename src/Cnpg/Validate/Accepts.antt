-- ===== src/Cnpg/Validate/Accepts.antt =====
-- What the checks on the parameters accept.
use Prim.Native.String.{[], ◌∷◌}
use text.Mathlib.TextLemmas.{cons-ne-nil}
use provider_cloudnative_pg.Common.{
  String, true, false, not, Option, none, some, List, [], ◌∷◌, ◌≡◌, refl, ap, ◌≢◌, eq_refl,
  text_cases, gate_iff, ne_of_test, test_of_ne, ◌↔◌, ◌⊎◌, inl, inr, ◌+◌, ◌==◌, eq_iff, is_empty,
  is_nil, length, ok, arith,
}
use provider_cloudnative_pg.Common.Int.{ℤ, pos, ◌<ℤ◌, ◌≤ℤ◌, ◌+ℤ◌}
use provider_cloudnative_pg.Cnpg.Types.{CertificatesConfiguration, BootstrapInitDb, Synchronous}
use provider_cloudnative_pg.Cnpg.Validate.{
  validate_certificates, validate_init_db, is_postgres_identifier, validate_synchronous_at,
  is_unnamed,
}

-- The certificates name what they depend on.
pub record IsConsistent (c : CertificatesConfiguration) : Type 0 where
  pub server_ca : c.server_tls_secret ≢ "" → c.server_ca_secret ≢ ""
  pub no_alt_names : c.server_tls_secret ≢ "" → c.server_alt_dns_names ≡ []
  pub client_ca : c.replication_tls_secret ≢ "" → c.client_ca_secret ≢ ""

pub is_nil_iff : {A : Type 0} (xs : List A) → (is_nil xs ≡ true) ↔ (xs ≡ [])
is_nil_iff [] = (λ _. refl, λ _. refl)
is_nil_iff (x ∷ xs) = (λ h. cc, λ h. cc)

-- Certificates pass exactly when a server TLS secret comes with a server CA secret and without
-- alternative names, and a replication TLS secret with a client CA secret.
pub validate_certificates_iff :
    (c : CertificatesConfiguration) → (validate_certificates c ≡ ok tt) ↔ IsConsistent c
unfolding validate_certificates
validate_certificates_iff c =
    let alt = gate_iff c.server_tls_secret (not (is_nil c.server_alt_dns_names)) in
    let ca = gate_iff c.server_tls_secret (is_empty c.server_ca_secret) in
    let client = gate_iff c.replication_tls_secret (is_empty c.client_ca_secret) in
    (
      λ h. record {
        server_ca = λ n. ne_of_test c.server_ca_secret "" (ca.0 (ground arith) n);
        no_alt_names =
            λ n. (is_nil_iff c.server_alt_dns_names).0 (ground (arith, alt.0 (ground arith) n));
        client_ca = λ n. ne_of_test c.client_ca_secret "" (client.0 (ground arith) n);
      },
      λ k.
          let no_alt = alt.1 (λ n. rw (k.no_alt_names n)) in
          let has_ca = ca.1 (λ n. test_of_ne c.server_ca_secret "" (k.server_ca n)) in
          let has_client = client.1 (λ n. test_of_ne c.client_ca_secret "" (k.client_ca n)) in
          rw (no_alt, has_ca, has_client),
    )

-- The application database and its owner.
abbrev pub IsNamedPair : BootstrapInitDb → Type 0
IsNamedPair i =
    ((i.database ≡ "") × (i.owner ≡ ""))
    ⊎ ((is_postgres_identifier i.database ≡ true) × (is_postgres_identifier i.owner ≡ true))

identifier-ne : (s : String) → is_postgres_identifier s ≡ true → (s == "") ≡ false
unfolding is_postgres_identifier
identifier-ne [] h = cc
identifier-ne (c ∷ s) h = test_of_ne (c ∷ s) "" (cons-ne-nil c s)

is_unnamed-eq-false : (o : Option String) → o ≢ some "" → is_unnamed o ≡ false
is_unnamed-eq-false none n = refl
is_unnamed-eq-false (some s) n = test_of_ne s "" (λ e. n (ap some e))

-- The bootstrap passes exactly when database and owner are both empty or both identifiers, and a
-- secret that is given has a name.
pub validate_init_db_iff :
    (i : BootstrapInitDb) → (validate_init_db i ≡ ok tt) ↔ (IsNamedPair i × (i.secret ≢ some ""))
unfolding validate_init_db
validate_init_db_iff i = (
  λ h. (pair h, secret h),
  λ (p, n). elim p [
    | inl (d, o) ↦ ground (arith, eq_iff i.database "", eq_iff i.owner "", unnamed n)
    | inr (d, o) ↦ ground (arith, identifier-ne i.database d, identifier-ne i.owner o, unnamed n)
  ],
)
  where
    pair : validate_init_db i ≡ ok tt → IsNamedPair i
    pair h = elim (text_cases i.database "") [
      | inl e ↦ inl (e, ground (arith, eq_iff i.database "", eq_iff i.owner ""))
      | inr other ↦ inr (ground arith, ground arith)
    ]

    secret : validate_init_db i ≡ ok tt → i.secret ≢ some ""
    secret h e = ground (arith, eq_refl "")

    unnamed : i.secret ≢ some "" → is_unnamed i.secret ≡ false
    unnamed n = is_unnamed-eq-false i.secret n

-- Synchronous replication passes exactly when at least one standby is asked for and, were every
-- replica and every listed standby a candidate, one of them would be left over.
pub validate_synchronous_at_iff :
    (replicas : ℤ) (sync : Synchronous)
    → (validate_synchronous_at replicas sync ≡ ok tt) ↔ (
        (pos 1 ≤ℤ sync.number)
        × (sync.number
            <ℤ (replicas +ℤ (length sync.standby_names_pre + length sync.standby_names_post))))
unfolding validate_synchronous_at
validate_synchronous_at_iff replicas sync = ground arith
