-- ===== src/Cnpg/Extensions/Database/Unready.antt =====
-- The extensions' Database of internal/cnpg/extensions.go never reports readiness.
use provider_cloudnative_pg.Common.{
  String, not, ◌&&◌, Option, Option-cases, List, [], ◌∷◌, ◌≡◌, refl, ◌∙◌, inl, inr, Bool-cases,
  ◌==◌, Got, found, not_found, failed,
}
use provider_cloudnative_pg.Common.Int.{eqb_ℤ}
use provider_cloudnative_pg.Cnpg.Types.{Database, DatabaseObjectStatus}
use provider_cloudnative_pg.Cnpg.Components.{CnpgCustomSpec}
use provider_cloudnative_pg.Cnpg.Status.{Unready}
use provider_cloudnative_pg.Cnpg.Extensions.Rules.{extensions_database_name}
use provider_cloudnative_pg.Cnpg.Extensions.Table.{Extension, created_extensions}
use provider_cloudnative_pg.Cnpg.Extensions.Database.{
  extensions_status, status_of, database_status, first_pending, pending_one, is_applied,
}

pending_one-Unready :
    (ext : Extension) (ss : List DatabaseObjectStatus) → Unready (pending_one ext ss)
unfolding pending_one
pending_one-Unready ext [] d h = cc
pending_one-Unready ext (s ∷ ss) d h =
    elim (Bool-cases ((s.name == ext.sql_extension) && not s.applied)) [
      | inl t ↦ cc (rw (t, pending_one) at h)
      | inr f ↦ pending_one-Unready ext ss d (rw (f, pending_one) at h)
    ]

first_pending-Unready :
    (exts : List Extension) (ss : List DatabaseObjectStatus) → Unready (first_pending exts ss)
unfolding first_pending
first_pending-Unready [] ss d h = cc
first_pending-Unready (ext ∷ exts) ss d h = elim (Option-cases (pending_one ext ss)) [
  | inl free ↦ first_pending-Unready exts ss d (rw (free, first_pending) at h)
  | inr (s, held) ↦ pending_one-Unready ext ss d (held ∙ (rw (held, first_pending) at h))
]

database-Unready : (db : Database) (exts : List Extension) → Unready (database_status db exts)
unfolding database_status
database-Unready db exts d h =
    elim (Bool-cases (eqb_ℤ db.status.observed_generation db.generation)) [
      | inr other ↦ cc (rw (other, database_status) at h)
      | inl current ↦ elim (Bool-cases (is_applied db.status.applied)) [
        | inr waiting ↦ cc (rw (current, waiting, database_status) at h)
        | inl applied ↦
            first_pending-Unready exts db.status.extensions d
              (rw (current, applied, database_status) at h)
      ]
    ]

status_of-Unready :
    (get_database : String → Got Database) (instance : String) (exts : List Extension)
    → Unready (status_of get_database instance exts)
unfolding status_of
status_of-Unready get_database instance [] d h = cc
status_of-Unready get_database instance (ext ∷ exts) d h =
    go (get_database (extensions_database_name instance)) refl
  where
    go : (got : Got Database) → get_database (extensions_database_name instance) ≡ got → ⊥
    go not_found e = cc (rw (e, status_of) at h)
    go (failed e') e = cc (rw (e, status_of) at h)
    go (found db) e = database-Unready db (ext ∷ exts) d (rw (e, status_of) at h)

pub extensions_status-Unready :
    (get_database : String → Got Database) (instance : String) (custom : Option CnpgCustomSpec)
    → Unready (extensions_status get_database instance custom)
unfolding extensions_status
extensions_status-Unready get_database instance custom d h =
    status_of-Unready get_database instance (created_extensions custom) d h
