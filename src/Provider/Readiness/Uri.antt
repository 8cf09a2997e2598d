-- ===== src/Provider/Readiness/Uri.antt =====
-- `Status` of internal/provider/provider.go: what a client reads from the URI of a ready Instance.
use provider_cloudnative_pg.Common.{String, Bool, true, false, some, ◌≡◌, refl, sym, subst, ok, Got}
use provider_cloudnative_pg.Common.Dict.{lookup, value}
use provider_cloudnative_pg.Common.Urls.RoundTrip.{IsRelative, read_url}
use provider_cloudnative_pg.Cnpg.Status.{ConnectionDetails, ready}
use provider_cloudnative_pg.Provider.Types.{ClusterMethods, Pooler, Deployment}
use provider_cloudnative_pg.Provider.Connection.{ssl_mode_require}
use provider_cloudnative_pg.Provider.Connection.Uri.{
  Readable, details-Readable, parts_of, postgres_uri-read,
}
use provider_cloudnative_pg.Provider.Pooler.{serves, pooler_blocks_ready, pooler_details}
use provider_cloudnative_pg.Provider.Pooler.Laws.{
  Serves, served, serves-injective, pooler_blocks_ready-Serves,
}
use provider_cloudnative_pg.Provider.Readiness.{Reads, status}
use provider_cloudnative_pg.Provider.Readiness.Ready.{IsReady, all_ready, status_iff}

-- What a client reads from the URI of the details.
IsRead : ConnectionDetails → String → Type 0
IsRead d database = read_url d.uri ≡ some (parts_of d database)

value-lookup :
    (k v : String) (d : ConnectionDetails)
    → lookup k d.additional_properties ≡ some v
    → value k d.additional_properties ≡ v
value-lookup k v d e = rw (e, value) refl

-- The details that lead to a Pooler keep the parts but the host and the port.
pooler_details-IsRead :
    (name namespace database : String) (d : ConnectionDetails)
    → value "sslmode" d.additional_properties ≡ ssl_mode_require
    → lookup "database" d.additional_properties ≡ some database
    → IsRelative database
    → IsRead (pooler_details name namespace d) database
unfolding IsRead pooler_details
pooler_details-IsRead name namespace database d encrypted same relative =
    rw (encrypted, value-lookup "database" database d same)
      (postgres_uri-read d.username d.password (pooler_details name namespace d).host
        (pooler_details name namespace d).port database relative)

module _ (get_pooler : String → Got Pooler) (get_deployment : String → Got Deployment)
    (instance namespace database : String) (direct d : ConnectionDetails)
    (readable : Readable (some direct))
    (same : lookup "database" d.additional_properties ≡ some database)
    (relative : IsRelative database) where
  pooled-IsRead : Serves get_pooler get_deployment instance namespace direct d → IsRead d database
  unfolding pooler_details Readable
  pooled-IsRead (served pooler _ _ _ _ _ e) =
      subst (λ d. lookup "database" d.additional_properties ≡ some database → IsRead d database)
        (sym e)
        (λ same.
          pooler_details-IsRead pooler.name namespace database direct readable.0 same relative)
        same

  direct-IsRead : direct ≡ d → IsRead d database
  unfolding Readable IsRead
  direct-IsRead e =
      subst (λ d. lookup "database" d.additional_properties ≡ some database → IsRead d database) e
        (λ same. readable.1 database same relative) same

  serving-IsRead :
      (has_proxy : Bool)
      → pooler_blocks_ready get_pooler get_deployment has_proxy instance namespace direct
        ≡ ok (serves d)
      → IsRead d database
  unfolding pooler_blocks_ready
  serving-IsRead true h =
      pooled-IsRead
        (pooler_blocks_ready-Serves get_pooler get_deployment instance namespace direct d h)
  serving-IsRead false h = direct-IsRead (serves-injective direct d h)

-- Of a ready Instance, with a proxy or without, a client that cuts the URI at its delimiters and decodes the
-- parts gets the user name, the password, the host with the port and the database of the details that
-- `Status` reports, whatever characters these have, if the name of the database is neither empty nor
-- begins with a slash.
pub status-read_url :
    (m : ClusterMethods) (r : Reads) (d : ConnectionDetails) (database : String)
    → status m r ≡ ok (ready d)
    → lookup "database" d.additional_properties ≡ some database
    → IsRelative database
    → read_url d.uri ≡ some (parts_of d database)
unfolding IsRead
status-read_url m r d database is_ready same relative = go ((status_iff m r d).0 is_ready)
  where
    go : IsReady m r d → IsRead d database
    go (all_ready pg custom direct _ _ _ _ _ _ _ made serving) =
        serving-IsRead r.get_pooler r.get_deployment r.instance r.namespace database direct d
          (subst Readable made (details-Readable m r.get_secret r.namespace pg)) same relative
          r.has_proxy serving
