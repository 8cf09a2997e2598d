-- ===== src/Provider/Readiness/Ready.antt =====
-- `Status` of internal/provider/provider.go: when an Instance is ready.
use provider_cloudnative_pg.Common.{
  String, Bool, true, false, Option, none, some, ◌≡◌, ◌≢◌, refl, ◌↔◌, inl, inr, Bool-cases, Result,
  ok, err, Got, found, not_found, failed,
}
use provider_cloudnative_pg.Common.Int.{pos, ltb_ℤ}
use provider_cloudnative_pg.Cnpg.Types.{Cluster}
use provider_cloudnative_pg.Cnpg.Components.{CnpgCustomSpec}
use provider_cloudnative_pg.Cnpg.Status.{Status, ConnectionDetails, ready, Unready}
use provider_cloudnative_pg.Cnpg.Roles.{managed_roles_status}
use provider_cloudnative_pg.Cnpg.Roles.Unready.{managed_roles-Unready}
use provider_cloudnative_pg.Cnpg.Extensions.Database.{extensions_status}
use provider_cloudnative_pg.Cnpg.Extensions.Database.Unready.{extensions_status-Unready}
use provider_cloudnative_pg.Provider.Types.{ClusterMethods}
use provider_cloudnative_pg.Provider.Connection.{connection_details}
use provider_cloudnative_pg.Provider.Pooler
use provider_cloudnative_pg.Provider.Pooler.{Readiness, blocks, serves, pooler_blocks_ready}
use provider_cloudnative_pg.Provider.Pooler.Laws.{pooler_blocks_ready-unready}
use provider_cloudnative_pg.Provider.Readiness.{
  Reads, failed_cluster_status, is_cluster_ready, is_restoring, is_terminal, finish, with_details,
  with_extensions, with_custom, with_roles, unready_status, cluster_status, status_from, status,
}

-- What an Instance that is ready with `details` rests on: no restore at work, a Cluster that has not
-- failed and is ready, its managed roles, its extensions and its credentials in place, and a proxy, if
-- it has one, that serves.
pub data IsReady (m : ClusterMethods) (r : Reads) (details : ConnectionDetails) : Type 0 where
  all_ready :
      (pg : Cluster) (custom : CnpgCustomSpec) (direct : ConnectionDetails)
      → is_restoring r.data_source r.data_source_done ≡ false
      → r.get_cluster r.instance ≡ found pg
      → failed_cluster_status pg ≡ none
      → is_cluster_ready pg ≡ true
      → managed_roles_status pg ≡ none
      → r.custom ≡ ok custom
      → extensions_status r.get_database r.instance (some custom) ≡ none
      → connection_details m r.get_secret r.namespace pg ≡ some direct
      → pooler_blocks_ready r.get_pooler r.get_deployment r.has_proxy r.instance r.namespace direct
        ≡ ok (serves details)
      → IsReady m r details

failed_cluster-Unready : (pg : Cluster) → Unready (failed_cluster_status pg)
unfolding failed_cluster_status
failed_cluster-Unready pg d h = elim (Bool-cases (is_terminal pg.status.phase)) [
  | inl t ↦ cc (rw (t, failed_cluster_status) at h)
  | inr f ↦ cc (rw (f, failed_cluster_status) at h)
]

ok-some :
    (s : Status) (d : ConnectionDetails)
    → Path (Result Pooler.Error Status) (ok s) (ok (ready d))
    → some s ≡ some (ready d)
ok-some s d h = cc

module _ (m : ClusterMethods) (r : Reads) (details : ConnectionDetails) where
  unready-Unready : (pg : Cluster) → unready_status m r pg ≢ ready details
  unfolding unready_status
  unready-Unready pg h = elim (Bool-cases (m.is_initialized pg)) [
    | inr fresh ↦ cc (rw (fresh, unready_status) at h)
    | inl old ↦ elim (Bool-cases (ltb_ℤ (pos 0) pg.status.instances)) [
      | inl t ↦ cc (rw (old, t, unready_status) at h)
      | inr f ↦ cc (rw (old, f, unready_status) at h)
    ]
  ]

  serving : ConnectionDetails → Result Pooler.Error Readiness
  serving direct =
      pooler_blocks_ready r.get_pooler r.get_deployment r.has_proxy r.instance r.namespace direct

  finish-ready :
      (x : Result Pooler.Error Readiness)
      → x ≢ ok (blocks (ready details))
      → finish m r x ≡ ok (ready details)
      → x ≡ ok (serves details)
  unfolding finish
  finish-ready (err e) no_block h = cc
  finish-ready (ok (blocks s)) no_block h = absurd (no_block cc)
  finish-ready (ok (serves d)) no_block h = cc

  details-ready :
      (o : Option ConnectionDetails)
      → with_details m r o ≡ ok (ready details)
      → (direct : ConnectionDetails) × (o ≡ some direct) × (serving direct ≡ ok (serves details))
  unfolding with_details serving
  details-ready none h = cc
  details-ready (some direct) h = (
    direct,
    refl,
    finish-ready (serving direct)
        (pooler_blocks_ready-unready r.get_pooler r.get_deployment r.instance r.namespace direct
          r.has_proxy details)
        h,
  )

  After : Cluster → Type 0
  After pg =
      (direct : ConnectionDetails) × (connection_details m r.get_secret r.namespace pg
        ≡ some direct)
      × (serving direct ≡ ok (serves details))

  extensions-ready :
      (o : Option Status) (pg : Cluster)
      → Unready o
      → with_extensions m r o pg ≡ ok (ready details)
      → (o ≡ none) × After pg
  unfolding with_extensions After
  extensions-ready (some s) pg unready h = absurd (unready details (ok-some s details h))
  extensions-ready none pg unready h =
      (refl, details-ready (connection_details m r.get_secret r.namespace pg) h)

  custom-ready :
      (decoded : Result String CnpgCustomSpec) (pg : Cluster)
      → with_custom m r decoded pg ≡ ok (ready details)
      → (custom : CnpgCustomSpec) × (decoded ≡ ok custom)
        × (extensions_status r.get_database r.instance (some custom) ≡ none)
        × After pg
  unfolding with_custom
  custom-ready (err e) pg h = cc
  custom-ready (ok custom) pg h =
      let rest =
        extensions-ready (extensions_status r.get_database r.instance (some custom)) pg
          (extensions_status-Unready r.get_database r.instance (some custom)) h in
      (custom, refl, rest.0, rest.1)

  roles-ready :
      (o : Option Status) (pg : Cluster)
      → Unready o
      → with_roles m r o pg ≡ ok (ready details)
      → (o ≡ none) × (with_custom m r r.custom pg ≡ ok (ready details))
  unfolding with_roles
  roles-ready (some s) pg unready h = absurd (unready details (ok-some s details h))
  roles-ready none pg unready h = (refl, h)

  cluster-ready :
      (o : Option Status) (b : Bool) (pg : Cluster)
      → Unready o
      → cluster_status m r o b pg ≡ ok (ready details)
      → (o ≡ none) × (b ≡ true) × (with_roles m r (managed_roles_status pg) pg ≡ ok (ready details))
  unfolding cluster_status
  cluster-ready (some s) b pg unready h = absurd (unready details (ok-some s details h))
  cluster-ready none true pg unready h = (refl, refl, h)
  cluster-ready none false pg unready h = absurd (unready-Unready pg cc)

  from-ready :
      (got : Got Cluster)
      → is_restoring r.data_source r.data_source_done ≡ false
      → r.get_cluster r.instance ≡ got
      → status_from m r got ≡ ok (ready details)
      → IsReady m r details
  unfolding status_from After serving
  from-ready not_found idle e h = cc
  from-ready (failed e') idle e h = cc
  from-ready (found pg) idle e h =
      let c =
        cluster-ready (failed_cluster_status pg) (is_cluster_ready pg) pg
          (failed_cluster-Unready pg) h in
      let ro = roles-ready (managed_roles_status pg) pg (managed_roles-Unready pg) c.2 in
      let cu = custom-ready r.custom pg ro.1 in
      all_ready pg cu.0 cu.3.0 idle e c.0 c.1 ro.0 cu.1 cu.2 cu.3.1 cu.3.2

  -- An Instance is reported as ready with its connection details exactly when no restore is at work and
  -- the Cluster, its managed roles, its extensions, its credentials and its proxy all are.
  pub status_iff : (status m r ≡ ok (ready details)) ↔ IsReady m r details
  unfolding status status_from cluster_status with_roles with_custom with_extensions with_details
      finish
  status_iff = (forth, back)
    where
      forth : status m r ≡ ok (ready details) → IsReady m r details
      forth h = elim (Bool-cases (is_restoring r.data_source r.data_source_done)) [
        | inl t ↦ cc (rw (t, status) at h)
        | inr f ↦ from-ready (r.get_cluster r.instance) f refl (rw (f, status) at h)
      ]

      back : IsReady m r details → status m r ≡ ok (ready details)
      back (all_ready pg custom direct a b c d e f g h i) =
          rw (a, status)
            (rw (b, status_from)
              (rw (c, d, cluster_status)
                (rw (e, with_roles)
                  (rw (f, with_custom)
                    (rw (g, with_extensions) (rw (h, with_details) (rw (i, finish) refl)))))))
