-- ===== src/Provider/Connection.antt =====
-- internal/provider/connection.go: the connection details of a ready Cluster. The methods of
-- CloudNativePG's Cluster and the read of the Secret are parameters.

pub mod Uri
use provider_cloudnative_pg.Common.{
  String, ◌<>◌, not, ◌&&◌, ◌||◌, Option, none, some, [], ◌∷◌, ◌++◌, is_empty, Got, found,
  if◌then◌else◌,
}
use provider_cloudnative_pg.Common.Int.{pos, ltb_ℤ}
use provider_cloudnative_pg.Common.Dict.{Dict, value}
use provider_cloudnative_pg.Common.Texts.{itoa}
use provider_cloudnative_pg.Common.Urls.{url_text, join_host_port}
use provider_cloudnative_pg.Cnpg.Types.{Cluster}
use provider_cloudnative_pg.Cnpg.Status.{ConnectionDetails}
use provider_cloudnative_pg.Cnpg.Components.{provider_name}
use provider_cloudnative_pg.Provider.Types.{ClusterMethods}

abbrev pub ssl_mode_require : String
ssl_mode_require = "require"

abbrev pub host_r_property : String
host_r_property = "host-r"

abbrev pub host_ro_property : String
host_ro_property = "host-ro"

unfoldable pub service_host : String → String → String
service_host name namespace = name <> ("." <> (namespace <> ".svc"))

unfoldable pub connection_port : Dict String → String
unfolding itoa
connection_port secret =
    if is_empty (value "port" secret) then itoa (pos 5432) else value "port" secret

unfoldable pub postgres_uri : String → String → String → String → String → String → String
unfolding url_text join_host_port
postgres_uri user password host port database sslmode =
    url_text "postgresql" user password (join_host_port host port) database "sslmode" sslmode

module _ (m : ClusterMethods) where
  -- The name of the Secret and the database; `none` is the third result false.
  unfoldable pub connection_identity : Cluster → Option (String × String)
  connection_identity pg =
      if m.should_create_application_database pg
      then some (m.get_application_secret_name pg, m.get_application_database_name pg)
      else if m.get_enable_superuser_access pg
      then some (m.get_superuser_secret_name pg, "postgres")
      else none

  abbrev additional : String → Cluster → String → String → Dict String
  additional namespace pg secret_name database =
      ("database", database)
      ∷ ("secretName", secret_name)
      ∷ ("sslmode", ssl_mode_require)
      ∷ ((if m.is_read_service_enabled pg
            then (host_r_property, service_host (m.get_service_read_name pg) namespace) ∷ []
            else [])
          ++ (if m.is_read_only_service_enabled pg && not (ltb_ℤ pg.spec.instances (pos 2))
              then (host_ro_property, service_host (m.get_service_read_only_name pg) namespace) ∷ []
              else []))

  -- The details for a Secret that has a user name and a password.
  abbrev pub details_for : String → Cluster → String → String → Dict String → ConnectionDetails
  details_for namespace pg secret_name database secret =
      let host = service_host (m.get_service_read_write_name pg) namespace in
      let port = connection_port secret in
      record {
        kind = "postgresql";
        provider = provider_name;
        host = host;
        port = port;
        username = value "username" secret;
        password = value "password" secret;
        uri =
            postgres_uri (value "username" secret) (value "password" secret) host port database
              ssl_mode_require;
        additional_properties = additional namespace pg secret_name database;
      }

  details_from : String → Cluster → String → String → Got (Dict String) → Option ConnectionDetails
  unfolding connection_port postgres_uri service_host
  details_from namespace pg secret_name database (found secret) =
      if is_empty (value "username" secret) || is_empty (value "password" secret)
      then none
      else some (details_for namespace pg secret_name database secret)
  details_from namespace pg secret_name database _ = none

  -- `none` is the second result false.
  unfoldable pub connection_details :
      (String → Got (Dict String)) → String → Cluster → Option ConnectionDetails
  unfolding connection_identity details_from
  connection_details get_secret namespace pg = elim (connection_identity pg) [
    | none ↦ none
    | some (secret_name, database) ↦
        details_from namespace pg secret_name database (get_secret secret_name)
  ]
