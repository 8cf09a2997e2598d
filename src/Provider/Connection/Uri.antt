-- ===== src/Provider/Connection/Uri.antt =====
-- `connectionDetails` of internal/provider/connection.go: what a client reads from the URI.
use text.Mathlib.TextLemmas.{append-ne-nil_of_right_ne-nil, cons-append}
use provider_cloudnative_pg.Common.{
  String, ◌<>◌, Bool, true, false, Bool-cases, ◌||◌, Option, none, some, ◌≡◌, ◌≢◌, refl, sym, subst,
  ◌∙◌, inl, inr, test_of_ne, is_empty, Got, found, not_found, failed,
}
use provider_cloudnative_pg.Common.Dict.{Dict, lookup, value}
use provider_cloudnative_pg.Common.Sha256.{bytes}
use provider_cloudnative_pg.Common.Urls.{one_of, join_host_port, escape_query}
use provider_cloudnative_pg.Common.Urls.RoundTrip.{Parts, IsRelative, read_url, read_url-url_text}
use provider_cloudnative_pg.Cnpg.Types.{Cluster}
use provider_cloudnative_pg.Cnpg.Status.{ConnectionDetails}
use provider_cloudnative_pg.Provider.Types.{ClusterMethods}
use provider_cloudnative_pg.Provider.Connection.{
  connection_identity, connection_details, details_from, details_for, postgres_uri,
  ssl_mode_require,
}

join_host_port-named : (host port : String) → is_empty (join_host_port host port) ≡ false
unfolding join_host_port
join_host_port-named host port =
    test_of_ne (join_host_port host port) "" (named (one_of host b':' || one_of host b'%') refl)
  where
    named : (b : Bool) → (one_of host b':' || one_of host b'%') ≡ b → join_host_port host port ≢ ""
    named true e =
        rw (e, join_host_port) (λ h. cc (sym (cons-append "[" "" (host <> ("]:" <> port))) ∙ h))
    named false e =
        rw (e, join_host_port)
          (append-ne-nil_of_right_ne-nil host (λ h. cc (sym (cons-append ":" "" port) ∙ h)))

-- What a client reads for these details and a database.
abbrev pub parts_of : ConnectionDetails → String → Parts
parts_of d database = record {
  scheme = "postgresql";
  user = bytes d.username;
  password = bytes d.password;
  authority = bytes (join_host_port d.host d.port);
  path = bytes database;
  parameters = "sslmode=require";
}

pub postgres_uri-read :
    (user password host port database : String)
    → IsRelative database
    → read_url (postgres_uri user password host port database ssl_mode_require)
      ≡ some (record {
        scheme = "postgresql";
        user = bytes user;
        password = bytes password;
        authority = bytes (join_host_port host port);
        path = bytes database;
        parameters = "sslmode=require";
      })
unfolding postgres_uri one_of escape_query
postgres_uri-read user password host port database relative =
    read_url-url_text "postgresql" user password (join_host_port host port) database "sslmode"
      ssl_mode_require refl (join_host_port-named host port) relative

database-injective : (a b : String) → Path (Option String) (some a) (some b) → a ≡ b
database-injective a b h = cc

-- What the details of a Cluster say of themselves.
unfoldable pub Readable : Option ConnectionDetails → Type 0
Readable none = Unit
Readable (some d) =
    (value "sslmode" d.additional_properties ≡ ssl_mode_require)
    × ((database : String)
        → lookup "database" d.additional_properties ≡ some database
        → IsRelative database
        → read_url d.uri ≡ some (parts_of d database))

details_from-Readable :
    (m : ClusterMethods) (namespace : String) (pg : Cluster) (name database : String)
    (got : Got (Dict String))
    → Readable (details_from m namespace pg name database got)
unfolding Readable details_from lookup
details_from-Readable m namespace pg name database not_found = tt
details_from-Readable m namespace pg name database (failed e) = tt
details_from-Readable m namespace pg name database (found secret) =
    elim (Bool-cases (is_empty (value "username" secret) || is_empty (value "password" secret))) [
      | inl missing ↦ rw (missing, details_from) tt
      | inr there ↦
          rw (there, details_from)
            (
              refl,
              λ database' same relative.
                  let d = details_for m namespace pg name database secret in
                  let e = database-injective database database' same in
                  subst (λ x. IsRelative x → read_url d.uri ≡ some (parts_of d x)) e
                    (postgres_uri-read (value "username" secret) (value "password" secret) d.host
                      d.port database)
                    relative,
            )
    ]

pub details-Readable :
    (m : ClusterMethods) (get_secret : String → Got (Dict String)) (namespace : String)
    (pg : Cluster)
    → Readable (connection_details m get_secret namespace pg)
unfolding connection_details Readable
details-Readable m get_secret namespace pg = go (connection_identity m pg) refl
  where
    go :
        (identity : Option (String × String))
        → connection_identity m pg ≡ identity
        → Readable (connection_details m get_secret namespace pg)
    go none e = rw (e, connection_details) tt
    go (some (name, database)) e =
        rw (e, connection_details)
          (details_from-Readable m namespace pg name database (get_secret name))
