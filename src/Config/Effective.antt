-- ===== src/Config/Effective.antt =====
-- The settings that a plugin reads after modules/plugin_system/config.py has prepared them.
use humanoid_agi_plugin_syst.Prelude.{
  String, ◌≡◌, refl, sym, Bool, true, false, Option, none, some, List, inl, inr, Bool-cases,
  Option-cases, contains, or_default, some_inj, eq_iff, ◌==◌,
}
use humanoid_agi_plugin_syst.Prelude.Effects.{
  return, return_inj, and_then-eq-return, guard-eq-return, continue-eq-return, ◌>>=◌,
}
use humanoid_agi_plugin_syst.Models.{Value, Fields, end, field, field?}
use humanoid_agi_plugin_syst.Config.Schema.{
  properties_of, fields_of, type_of, is_mismatch, pick, validate_value, required_names, has_unknown,
  apply_properties, apply_defaults_and_validate, validate_schema_shape,
}
use humanoid_agi_plugin_syst.Config.Manager.{
  PluginConfig, ConfigDir, is_bad_key, exists, written, write_effective_config,
  read_effective_config, read_json_object, read_config_file, prepare, prepare_with, read_value,
}

-- The names of an object differ.
abbrev pub IsDistinct : Fields → Type 0
IsDistinct end = Unit
IsDistinct (field name v fs) = (field? fs name ≡ none) × IsDistinct fs

-- Where a value is taken from: those that are given, or else the default; there is none if neither
-- has one and none is required.
pub data IsPicked : Option Value → Option Value → Bool → Option Value → Type 0 where
  given :
      {v : Value} {default : Option Value} {is_required : Bool}
      → IsPicked (some v) default is_required (some v)
  defaulted : {v : Value} {is_required : Bool} → IsPicked none (some v) is_required (some v)
  left_out : IsPicked none none false none

-- The setting of a name, by its property if it has one: what is picked, of the type of the property.
pub data Setting (required : List String) (values : Fields) (name : String)
    : Option Value → Option Value → Type 0 where
  undeclared : Setting required values name none none
  set_to :
      {spec v : Value}
      → IsPicked
          (field? values name)
          (field? (fields_of spec) "default")
          (contains name required)
          (some v)
      → is_mismatch (type_of spec) v ≡ false
      → Setting required values name (some spec) (some v)
  unset :
      {spec : Value}
      → IsPicked
          (field? values name)
          (field? (fields_of spec) "default")
          (contains name required)
          none
      → Setting required values name (some spec) none

pick-IsPicked :
    (found default : Option Value) (is_required : Bool) (o : Option Value)
    → pick found default is_required ≡ return o
    → IsPicked found default is_required o
pick-IsPicked (some v) default is_required o h = rw (sym (return_inj h)) given
pick-IsPicked none (some v) is_required o h = rw (sym (return_inj h)) defaulted
pick-IsPicked none none false o h = rw (sym (return_inj h)) left_out
pick-IsPicked none none true o h = cc

Setting-undeclared :
    (required : List String) (values : Fields) (name : String) (o : Option Value)
    → Setting required values name none o
    → o ≡ none
Setting-undeclared required values name o undeclared = refl

field?-cons :
    (name other : String) (v : Value) (fs : Fields)
    → (other == name) ≡ false
    → field? (field other v fs) name ≡ field? fs name
field?-cons name other v fs h = rw h refl

module _ (required : List String) (values : Fields) where
  -- The properties after the first give what the others are set to.
  skipped-Setting :
      (name other : String) (spec : Value) (properties effective : Fields)
      → field? properties other ≡ none
      → IsPicked
          (field? values other)
          (field? (fields_of spec) "default")
          (contains other required)
          none
      → Setting required values name (field? properties name) (field? effective name)
      → Setting required values name
          (field? (field other spec properties) name)
          (field? effective name)
  skipped-Setting name other spec properties effective fresh nothing h =
      elim (Bool-cases (other == name)) [
        | inr e ↦ rw e h
        | inl e ↦
            let same : other ≡ name = (eq_iff other name).0 e in
            let fresh' : field? properties name ≡ none = rw (sym same) fresh in
            let absent =
              Setting-undeclared required values name (field? effective name) (rw fresh' at h) in
            rw (e, absent, sym same) (unset nothing)
      ]

  added-Setting :
      (name other : String) (spec v : Value) (properties effective : Fields)
      → IsPicked
          (field? values other)
          (field? (fields_of spec) "default")
          (contains other required)
          (some v)
      → is_mismatch (type_of spec) v ≡ false
      → Setting required values name (field? properties name) (field? effective name)
      → Setting required values name
          (field? (field other spec properties) name)
          (field? (field other v effective) name)
  added-Setting name other spec v properties effective picked fits h =
      elim (Bool-cases (other == name)) [
        | inr e ↦ rw e h
        | inl e ↦
            let same : other ≡ name = (eq_iff other name).0 e in
            rw (e, sym same) (set_to picked fits)
      ]

  apply_properties-Setting :
      (properties effective : Fields)
      → apply_properties properties required values ≡ return effective
      → IsDistinct properties
      → (name : String)
      → Setting required values name (field? properties name) (field? effective name)
  unfolding apply_properties validate_value
  apply_properties-Setting end effective h distinct name = rw (sym (return_inj h)) undeclared
  apply_properties-Setting (field other spec properties) effective h (fresh, distinct) name =
      let (o, p, h1) =
        and_then-eq-return
          (pick (field? values other) (field? (fields_of spec) "default") (contains other required))
          _ h in
      let picked =
        pick-IsPicked (field? values other) (field? (fields_of spec) "default")
          (contains other required) o p in
      elim (Option-cases o) [
        | inl e ↦
            skipped-Setting name other spec properties effective fresh (rw e at picked)
              (apply_properties-Setting properties effective (rw e at h1) distinct name)
        | inr (v, e) ↦
            let h2 = rw e at h1 in
            let (u, valid, h3) = and_then-eq-return (validate_value v (type_of spec)) _ h2 in
            let (fits, h4) = guard-eq-return (is_mismatch (type_of spec) v) _ _ valid in
            let (rest, found, h5) =
              and_then-eq-return (apply_properties properties required values) _ h3 in
            rw (sym (return_inj h5)) (
              added-Setting name other spec v properties rest (rw e at picked) fits
                (apply_properties-Setting properties rest found distinct name))
      ]

-- What prepare was given: the values of config.json, and the names that the schema requires.
pub record IsPrepared (d : ConfigDir) (config : PluginConfig) : Type 0 where
  pub required : List String
  pub values : Fields
  pub required_so : required_names (field? config.schema "required") ≡ return required
  pub values_so : read_config_file d.config_file ≡ return values
  pub all_declared : has_unknown values (properties_of config.schema) ≡ false
  pub applied :
      apply_properties (properties_of config.schema) required values ≡ return config.values
  pub stored : (prepare d).1.effective_file ≡ written config

prepare-written :
    (d : ConfigDir) (schema raw values : Fields) {u : Unit {0}}
    → exists d.schema_file ≡ true
    → read_json_object d.schema_file ≡ return schema
    → validate_schema_shape schema ≡ return u
    → read_config_file d.config_file ≡ return raw
    → apply_defaults_and_validate schema raw ≡ return values
    → (prepare d).1.effective_file ≡ written (record { schema = schema; values = values })
unfolding prepare prepare_with write_effective_config ◌>>=◌
prepare-written d schema raw values there s1 u1 r1 v1 = rw (there, s1, u1, r1, v1) refl

prepare_with-IsPrepared :
    (d : ConfigDir) (config : PluginConfig)
    → exists d.schema_file ≡ true
    → (prepare_with d d).0 ≡ return (some config)
    → IsPrepared d config
unfolding prepare prepare_with apply_defaults_and_validate write_effective_config ◌>>=◌
prepare_with-IsPrepared d config there h =
    let (schema, s1, h1) = continue-eq-return (read_json_object d.schema_file) _ d h in
    let (u, u1, h2) = continue-eq-return (validate_schema_shape schema) _ d h1 in
    let (raw, r1, h3) = continue-eq-return (read_config_file d.config_file) _ d h2 in
    let (values, v1, h4) = continue-eq-return (apply_defaults_and_validate schema raw) _ d h3 in
    let (required, q1, h5) = and_then-eq-return (required_names (field? schema "required")) _ v1 in
    let (known, h6) = guard-eq-return (has_unknown raw (properties_of schema)) _ _ h5 in
    let same : record { schema = schema; values = values } ≡ config = some_inj (return_inj h4) in
    rw (sym same) record {
      required = required;
      values = raw;
      required_so = q1;
      values_so = r1;
      all_declared = known;
      applied = h6;
      stored = prepare-written d schema raw values there s1 u1 r1 v1;
    }

prepare-IsPrepared :
    (d : ConfigDir) (config : PluginConfig)
    → (prepare d).0 ≡ return (some config)
    → IsPrepared d config
unfolding prepare
prepare-IsPrepared d config h = elim (Bool-cases (exists d.schema_file)) [
  | inl e ↦ prepare_with-IsPrepared d config e (rw e at h)
  | inr e ↦ elim (Bool-cases (exists d.config_file)) [
    | inl f ↦ let q = rw (e, f) at h in cc
    | inr f ↦ let q = return_inj (rw (e, f) at h) in cc
  ]
]

-- After prepare has returned a configuration, reading a key that is allowed returns what the setting
-- of the key is, and the value that the caller gives where the setting is empty; the names in the
-- schema differ. The settings are of config.json and the defaults of the schema, and each name that
-- config.json sets is declared.
pub prepare-read_value :
    (d : ConfigDir) (config : PluginConfig) (key : String) (default : Value)
    → (prepare d).0 ≡ return (some config)
    → IsDistinct (properties_of config.schema)
    → is_bad_key key ≡ false
    → (p : IsPrepared d config) × (found : Option Value) × (read_value key default (prepare d).1
        ≡ return (or_default found default))
      × Setting p.required p.values key (field? (properties_of config.schema) key) found
unfolding read_value read_effective_config
prepare-read_value d config key default h distinct good =
    let p = prepare-IsPrepared d config h in
    (
      p,
      field? config.values key,
      rw (good, p.stored) refl,
      apply_properties-Setting p.required p.values (properties_of config.schema) config.values
          p.applied distinct key,
    )
