-- ===== src/Config/Manager.antt =====
-- PluginConfigManager of modules/plugin_system/config.py, over the three files in the folder of a
-- plugin. What is written there reads back as it was.
use humanoid_agi_plugin_syst.Prelude.{
  String, Bool, true, false, ◌||◌, Option, none, some, is_some, or_default, ◌==◌, if◌then◌else◌,
}
use humanoid_agi_plugin_syst.Prelude.Effects.{
  Exec, Result, and_then, return, ◌>>=◌, ◌>>◌, pure, lift, modify,
}
use humanoid_agi_plugin_syst.Prelude.Text.{has_char}
use humanoid_agi_plugin_syst.Models.{Value, obj, Fields, end, field?}
use humanoid_agi_plugin_syst.Config.Schema.{
  refuse, validate_schema_shape, apply_defaults_and_validate,
}

-- A file that is missing, that is no JSON, or that holds a value.
pub data JsonFile : Type 0 where
  absent broken : JsonFile
  holds : Value → JsonFile

pub record PluginConfig : Type 0 where
  pub schema : Fields
  pub values : Fields

-- `.plugin-config.json`, which holds what of it is an object.
pub data EffectiveFile : Type 0 where
  unwritten : EffectiveFile
  invalid : EffectiveFile
  written : PluginConfig → EffectiveFile

-- config_schema.json, config.json and .plugin-config.json.
pub record ConfigDir : Type 0 where
  pub schema_file : JsonFile
  pub config_file : JsonFile
  pub effective_file : EffectiveFile

-- `_read_json_object`, of a file that is there.
unfoldable pub read_json_object : JsonFile → Result Fields
read_json_object (holds (obj fs)) = return fs
read_json_object _ = refuse "file must contain a JSON object"

abbrev pub read_config_file : JsonFile → Result Fields
unfolding read_json_object
read_config_file absent = return end
read_config_file file = read_json_object file

unfoldable pub write_effective_config : PluginConfig → Exec ConfigDir (Unit {0})
write_effective_config config = modify (λ d. record d { effective_file = written config })

abbrev pub exists : JsonFile → Bool
exists absent = false
exists file = true

-- `prepare`, where there is a schema.
unfoldable pub prepare_with : ConfigDir → Exec ConfigDir (Option PluginConfig)
unfolding validate_schema_shape apply_defaults_and_validate read_config_file
prepare_with d = do
  schema ← lift (read_json_object d.schema_file)
  lift (validate_schema_shape schema)
  raw_config ← lift (read_config_file d.config_file)
  values ← lift (apply_defaults_and_validate schema raw_config)
  write_effective_config (record { schema = schema; values = values })
  pure (some (record { schema = schema; values = values }))

abbrev without_schema : Bool → Result (Option PluginConfig)
without_schema has_config =
    if has_config then refuse "config.json requires config_schema.json" else return none

unfoldable pub prepare : Exec ConfigDir (Option PluginConfig)
unfolding prepare_with
prepare d =
    if exists d.schema_file then prepare_with d d else (without_schema (exists d.config_file), d)

unfoldable pub read_effective_config : EffectiveFile → Result (Option PluginConfig)
read_effective_config unwritten = return none
read_effective_config invalid = refuse ".plugin-config.json is invalid"
read_effective_config (written config) = return (some config)

abbrev pub is_bad_key : String → Bool
is_bad_key key = key == "" || has_char b'.' key || has_char b'/' key || has_char b'\\' key

abbrev pub value_in : Option PluginConfig → String → Option Value
value_in none key = none
value_in (some config) key = field? config.values key

unfoldable pub read_value : String → Value → ConfigDir → Result Value
unfolding read_effective_config
read_value key default d =
    if is_bad_key key
    then refuse "invalid config key"
    else and_then (read_effective_config d.effective_file)
        (λ config. return (or_default (value_in config key) default))

unfoldable pub has_value : String → ConfigDir → Result Bool
unfolding read_effective_config
has_value key d =
    if is_bad_key key
    then refuse "invalid config key"
    else and_then (read_effective_config d.effective_file)
        (λ config. return (is_some (value_in config key)))
