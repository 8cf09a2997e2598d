-- ===== src/Barman/Plugin.antt =====
-- internal/cnpg/barman/plugin.go and the constants of the plugin.
use provider_cloudnative_pg.Common.{
  String, Bool, true, ◌&&◌, Option, none, some, List, [], ◌∷◌, ◌==◌, if◌then◌else◌,
}
use provider_cloudnative_pg.Common.Dict.{value}
use provider_cloudnative_pg.Cnpg.Types.{PluginConfiguration}
use provider_cloudnative_pg.Barman.Types.{BackupPluginConfiguration}

abbrev pub plugin_name : String
plugin_name = "barman-cloud.cloudnative-pg.io"

abbrev pub plugin_parameter_object_store : String
plugin_parameter_object_store = "barmanObjectName"

abbrev pub endpoint_ca_secret_suffix : String
endpoint_ca_secret_suffix = "-endpoint-ca"

abbrev pub endpoint_ca_key : String
endpoint_ca_key = "ca.crt"

abbrev pub backup_deletion_image : String
backup_deletion_image = "ghcr.io/cloudnative-pg/plugin-barman-cloud-sidecar:v0.15.0"

unfoldable pub plugin_configuration : String → BackupPluginConfiguration
plugin_configuration storage_name = record {
  name = plugin_name;
  parameters = (plugin_parameter_object_store, storage_name) ∷ [];
}

-- `IsEnabled` of CloudNativePG: a nil flag counts as enabled.
abbrev pub is_enabled : Option Bool → Bool
is_enabled none = true
is_enabled (some b) = b

unfoldable pub archive_object_store_name : List PluginConfiguration → String
archive_object_store_name [] = ""
archive_object_store_name (p ∷ plugins) =
    if (p.name == plugin_name) && is_enabled p.enabled
    then value plugin_parameter_object_store p.parameters
    else archive_object_store_name plugins
