-- ===== src/Driver/Plugin.antt =====
-- NewPotDriver, SetConfig, Shutdown and buildFingerprint of driver.go.
use nomad_pot_driver.Base.{
  Bool, true, false, Option, none, some, List, [], ◌∷◌, if◌then◌else◌, not, ◌&&◌,
}
use nomad_pot_driver.Text.Split.{Text, codes, text_eq}
use nomad_pot_driver.Outcome.{system}
use nomad_pot_driver.Prepare.Container.{is_empty}
use nomad_pot_driver.Machine.{Act, ◌>>=◌, pure, raise, modify}
use nomad_pot_driver.Store.{new_store}
use nomad_pot_driver.Driver.State.{Driver}

abbrev pub plugin_version : Text
plugin_version = codes "v0.10.0"

-- base.Config: the encoded configuration of the plugin, and the agent's, which may be nil
pub record BaseConfig : Type 0 where
  pub plugin_config : Text
  pub agent_config : Option (Option Text)

pub data Health : Type 0 where
  healthy undetected : Health

pub data Attribute : Type 0 where
  flag : Bool → Attribute
  text : Text → Attribute

pub record Fingerprint : Type 0 where
  pub attributes : List (Text × Attribute)
  pub health : Health
  pub description : Text

unfoldable pub new_pot_driver : Driver
new_pot_driver = record {
  enabled = false;
  nomad_config = none;
  tasks = new_store;
  handles = [];
  threads = [];
  log = [];
  shut_down = false;
}

-- base.MsgPackDecode into a Config is a parameter; `none` is an error.
module _ (decode : Text → Option Bool) where
  abbrev pub decoded : Option Bool → Act Driver Bool
  decoded none = raise (system [])
  decoded (some enabled) = pure enabled

  -- An empty configuration leaves `Enabled` at its zero value.
  abbrev enabled_of : Text → Act Driver Bool
  enabled_of bytes = if is_empty bytes then pure false else decoded (decode bytes)

  abbrev agent : Option (Option Text) → Option Text → Option Text
  agent none old = old
  agent (some config) old = config

  unfoldable pub set_config : BaseConfig → Act Driver (Unit {0})
  set_config cfg = do
    enabled ← enabled_of cfg.plugin_config
    modify λ d. record d { enabled = enabled; nomad_config = agent cfg.agent_config d.nomad_config }

unfoldable pub shutdown : Act Driver (Unit {0})
shutdown = modify (λ d. record d { shut_down = true })

unfoldable pub build_fingerprint : Driver → Fingerprint
build_fingerprint d =
    if d.enabled && not (text_eq plugin_version (codes ""))
    then record {
      attributes =
          (codes "driver.pot", flag true) ∷ (codes "driver.pot.version", text plugin_version) ∷ [];
      health = healthy;
      description = codes "healthy";
    }
    else record { attributes = []; health = undetected; description = codes "disabled" }
