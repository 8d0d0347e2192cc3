-- ===== src/Examples/Settings.antt =====
-- The theorem on modules/plugin_system/config.py at a schema with one required property and one that
-- has a default.
use humanoid_agi_plugin_syst.Prelude.{String, ◌≡◌, refl, Option, or_default}
use humanoid_agi_plugin_syst.Prelude.Effects.{return, ◌>>=◌}
use humanoid_agi_plugin_syst.Prelude.Text.{has_char}
use humanoid_agi_plugin_syst.Models.{
  Value, null, num, str, arr, obj, nil, cons, Fields, end, field, field?,
}
use humanoid_agi_plugin_syst.Config.Schema.{properties_of}
use humanoid_agi_plugin_syst.Config.Manager.{
  holds, unwritten, ConfigDir, PluginConfig, read_value, prepare, write_effective_config,
}
use humanoid_agi_plugin_syst.Config.Effective.{IsPrepared, Setting, prepare-read_value}

abbrev property : String → Fields → Value
property t rest = obj (field "type" (str t) rest)

abbrev schema : Fields
schema = field "type" (str "object") (
    field "properties"
      (obj (
        field "unit" (property "string" end)
          (field "digits" (property "integer" (field "default" (num 2) end)) end)))
      (field "required" (arr (cons (str "unit") nil)) end))

abbrev settings_dir : ConfigDir
settings_dir = record {
  schema_file = holds (obj schema);
  config_file = holds (obj (field "unit" (str "m") end));
  effective_file = unwritten;
}

abbrev settings : PluginConfig
settings = record { schema = schema; values = field "unit" (str "m") (field "digits" (num 2) end) }

prepare-read_value_example :
    (p : IsPrepared settings_dir settings) × (found : Option Value) × (read_value "digits" null
        (prepare settings_dir).1
      ≡ return (or_default found null))
    × Setting p.required p.values "digits" (field? (properties_of settings.schema) "digits") found
unfolding prepare ◌>>=◌ write_effective_config has_char
prepare-read_value_example =
    prepare-read_value settings_dir settings "digits" null refl (refl, (refl, tt)) refl
