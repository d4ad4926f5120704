-- ===== src/Driver/Schema.antt =====
-- The constants of driver.go that PluginInfo, ConfigSchema, TaskConfigSchema and Capabilities return.
use nomad_pot_driver.Base.{Bool, true, false, List, [], ◌∷◌}
use nomad_pot_driver.Text.Split.{Text, codes}
use nomad_pot_driver.Driver.Plugin.{plugin_version}

-- The calls of hclspec that the constants are made of; an object is a list of named parts.
pub data HclSpec : Type 0 where
  new_attr : Text → Text → Bool → HclSpec
  new_literal : Text → HclSpec
  new_default : HclSpec → HclSpec → HclSpec

abbrev pub HclObject : Type 0
HclObject = List (Text × HclSpec)

-- base.PluginTypeDriver
pub data PluginType : Type 0 where
  plugin_type_driver : PluginType

pub record PluginInfoResponse : Type 0 where
  pub type : PluginType
  pub plugin_api_versions : List Text
  pub plugin_version : Text
  pub name : Text

-- Capabilities: the two fields that the driver sets.
pub record Capabilities : Type 0 where
  pub send_signals : Bool
  pub exec : Bool

abbrev pub plugin_name : Text
plugin_name = codes "pot"

-- drivers.ApiVersion010 is a constant of Nomad's.
abbrev pub plugin_info : Text → PluginInfoResponse
plugin_info api_version010 = record {
  type = plugin_type_driver;
  plugin_api_versions = api_version010 ∷ [];
  plugin_version = plugin_version;
  name = plugin_name;
}

abbrev pub config_spec : HclObject
config_spec =
    (
      codes "enabled",
      new_default (new_attr (codes "enabled") (codes "bool") false) (new_literal (codes "true")),
    )
    ∷ []

-- An attribute under its own name.
abbrev attr : Text → Text → Bool → Text × HclSpec
attr name type required = (name, new_attr name type required)

abbrev pub task_config_spec : HclObject
task_config_spec =
    attr (codes "image") (codes "string") true
    ∷ attr (codes "pot") (codes "string") true
    ∷ attr (codes "tag") (codes "string") true
    ∷ attr (codes "command") (codes "string") false
    ∷ attr (codes "args") (codes "list(string)") false
    ∷ attr (codes "port_map") (codes "list(map(string))") false
    ∷ attr (codes "network_mode") (codes "string") false
    ∷ attr (codes "mount") (codes "list(string)") false
    ∷ attr (codes "copy") (codes "list(string)") false
    ∷ attr (codes "mount_read_only") (codes "list(string)") false
    ∷ attr (codes "extra_hosts") (codes "list(string)") false
    ∷ attr (codes "attributes") (codes "list(string)") false
    ∷ []

abbrev pub capabilities : Capabilities
capabilities = record { send_signals = true; exec = true }
