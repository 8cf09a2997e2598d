-- ===== src/Cnpg/Tls.antt =====
-- internal/cnpg/tls.go: the pg_hba rule that refuses unencrypted connections.
use provider_cloudnative_pg.Common.{
  String, Bool, true, false, Option, none, some, List, [], ◌∷◌, ◌++◌, ◌≡◌, inl, inr, Bool-cases,
  arith, if◌then◌else◌,
}
use provider_cloudnative_pg.Cnpg.Types.{ClusterSpec}
use provider_cloudnative_pg.Cnpg.Components.{CnpgCustomSpec}

abbrev pub reject_non_tls_rule : String
reject_non_tls_rule = "hostnossl all all all reject"

abbrev pub is_required : Option Bool → Bool
is_required none = false
is_required (some b) = b

unfoldable pub apply_require_tls : ClusterSpec → CnpgCustomSpec → ClusterSpec
apply_require_tls spec custom = elim (is_required custom.require_tls) [
  | false ↦ spec
  | true ↦
      let cfg = spec.postgresql in
      record spec { postgresql = record cfg { pg_hba = (reject_non_tls_rule ∷ []) ++ cfg.pg_hba } }
]

-- PostgreSQL takes the first rule that applies to a connection; `decide` is a rule's answer, none
-- where the rule does not apply.
module _ {Connection : Type 0} (is_tls : Connection → Bool)
    (decide : String → Connection → Option Bool) where
  abbrev pub access : List String → Connection → Option Bool
  access [] c = none
  access (r ∷ rules) c = elim (decide r c) [ none ↦ access rules c | some answer ↦ some answer ]

  -- If `hostnossl all all all reject` applies to the connections without TLS and rejects them, then
  -- with TLS required every such connection is rejected whatever the user's rules say, and the
  -- user's rules decide on all others as they do alone.
  pub apply_require_tls-access :
      (spec : ClusterSpec) (custom : CnpgCustomSpec) (c : Connection)
      → decide reject_non_tls_rule c ≡ (if is_tls c then none else some false)
      → is_required custom.require_tls ≡ true
      → access (apply_require_tls spec custom).postgresql.pg_hba c
        ≡ (if is_tls c then access spec.postgresql.pg_hba c else some false)
  unfolding apply_require_tls
  apply_require_tls-access spec custom c rule on = elim (Bool-cases (is_tls c)) [
    | inl tls ↦ rw (on, apply_require_tls) (ground arith)
    | inr plain ↦ rw (on, apply_require_tls) (ground arith)
  ]
