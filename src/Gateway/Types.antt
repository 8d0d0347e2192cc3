-- ===== src/Gateway/Types.antt =====
-- The state of `PluginGateway` in modules/plugin_system/gateway.py, and what lies outside of it.
use humanoid_agi_plugin_syst.Prelude.{ℕ, String, Option, List}
use humanoid_agi_plugin_syst.Prelude.Dict.{Dict}
use humanoid_agi_plugin_syst.Prelude.Effects.{Result}
use humanoid_agi_plugin_syst.Audit.{Log}
use humanoid_agi_plugin_syst.EventBus.{Event, EventBus}
use humanoid_agi_plugin_syst.Models.{Value, InstalledPlugin}
use humanoid_agi_plugin_syst.Gateway.Network.{Network}

pub record Message : Type 0 where
  pub plugin : String
  pub channel : String
  pub content : Value
  pub content_type : String

-- `active_sandboxes` holds the installed plugin of each sandbox.
pub record Gateway : Type 0 where
  pub plugins : Dict InstalledPlugin
  pub active_sandboxes : Dict InstalledPlugin
  pub memory_store : Dict Value
  pub config_store : Dict Value
  pub output_store : List Message
  pub event_bus : EventBus
  pub log : Log

-- A response of the gateway or of a sandbox: a dict whose status is `success`, with its data, or is
-- another, with its error.
pub data Response : Type 0 where
  success : Value → Response
  failed : String → Response

-- The callbacks of the event bus, the plugin's configuration, its files, and the network with
-- Python's own functions.
pub record Outside : Type 0 where
  pub call : ℕ → Event → Result Value
  pub config_value : String → String → Option Value
  pub read_file : String → String → Result Value
  pub write_file : String → String → String → Result (Unit {0})
  pub network : Network
