-- ===== src/Cnpg/Status.antt =====
-- The status values of the provider runtime that the program builds.
use provider_cloudnative_pg.Common.{String, Option, some, ◌≢◌}
use provider_cloudnative_pg.Common.Dict.{Dict}
use provider_cloudnative_pg.Cnpg.Types.{ClusterPhase}

-- A message, or the text of a Cluster phase followed by its reason unless that is empty.
pub data Message : Type 0 where
  text : String → Message
  phase : ClusterPhase → String → Message

pub record ConnectionDetails : Type 0 where
  pub kind : String
  pub provider : String
  pub host : String
  pub port : String
  pub username : String
  pub password : String
  pub uri : String
  pub additional_properties : Dict String

pub data Status : Type 0 where
  pending provisioning initializing restoring failed : Message → Status
  ready : ConnectionDetails → Status

-- A status that is reported, if any, is not readiness.
abbrev pub Unready : Option Status → Type 0
Unready o = (d : ConnectionDetails) → o ≢ some (ready d)
