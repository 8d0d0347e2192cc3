-- ===== src/Config/Schema.antt =====
-- Schemas of settings in modules/plugin_system/config.py, a subset of JSON Schema, and the values that
-- they allow. A JSON number is a natural number here.
use humanoid_agi_plugin_syst.Prelude.{
  String, Bool, true, false, not, ◌&&◌, ◌||◌, Option, none, some, is_some, List, [], ◌∷◌, contains,
  ◌==◌, if◌then◌else◌,
}
use humanoid_agi_plugin_syst.Prelude.Effects.{
  Result, and_then, return, failure, config_error, type_error,
}
use humanoid_agi_plugin_syst.Models.{
  Value, null, bool, num, str, arr, obj, Items, nil, cons, Fields, end, field, field?,
}

abbrev pub refuse : {A : Type 0} → String → Result A
refuse message = failure config_error message

-- `schema.get("properties", {})`, where it is an object.
abbrev pub properties_of : Fields → Fields
properties_of schema = elim (field? schema "properties") [
  | some (obj properties) ↦ properties
  | _ ↦ end
]

abbrev pub fields_of : Value → Fields
fields_of (obj fs) = fs
fields_of v = end

abbrev type_names : List String
type_names = "string" ∷ "integer" ∷ "number" ∷ "boolean" ∷ "array" ∷ "object" ∷ []

-- A list or an object cannot be looked up in a set.
abbrev check_type : Option Value → Result (Unit {0})
check_type (some (str t)) =
    if contains t type_names then return tt else refuse "config property has unsupported type"
check_type (some (arr vs)) = failure type_error "unhashable type"
check_type (some (obj fs)) = failure type_error "unhashable type"
check_type _ = refuse "config property has unsupported type"

abbrev check_property : String → Value → Result (Unit {0})
check_property name (obj spec) =
    if name == ""
    then refuse "config property names must be non-empty strings"
    else check_type (field? spec "type")
check_property name v =
    if name == ""
    then refuse "config property names must be non-empty strings"
    else refuse "config property must be an object"

check_properties : Fields → Result (Unit {0})
check_properties end = return tt
check_properties (field name spec rest) =
    and_then (check_property name spec) (λ _. check_properties rest)

abbrev properties_given : Option Value → Result Fields
properties_given none = return end
properties_given (some (obj properties)) = return properties
properties_given (some v) = refuse "config_schema.json properties must be an object"

abbrev required_given : Option Value → Result (Unit {0})
required_given none = return tt
required_given (some null) = return tt
required_given (some (arr vs)) = return tt
required_given (some v) = refuse "config_schema.json required must be a list"

abbrev is_object_type : Option Value → Bool
is_object_type (some (str t)) = t == "object"
is_object_type _ = false

-- `_validate_schema_shape`.
unfoldable pub validate_schema_shape : Fields → Result (Unit {0})
unfolding check_properties
validate_schema_shape schema =
    if not (is_object_type (field? schema "type"))
    then refuse "config_schema.json root type must be object"
    else and_then (properties_given (field? schema "properties")) (λ properties.
      and_then (required_given (field? schema "required")) (λ _. check_properties properties))

-- The names of a set made of a list. A list or an object cannot be in a set; what is no text is no
-- name of a property.
names_of : Items → Result (List String)
names_of nil = return []
names_of (cons (str name) vs) = and_then (names_of vs) (λ names. return (name ∷ names))
names_of (cons (arr xs) vs) = failure type_error "unhashable type"
names_of (cons (obj fs) vs) = failure type_error "unhashable type"
names_of (cons v vs) = names_of vs

-- `set(schema.get("required", []))`, of a schema whose shape is valid. `set(None)` raises.
unfoldable pub required_names : Option Value → Result (List String)
unfolding names_of
required_names none = return []
required_names (some (arr vs)) = names_of vs
required_names (some v) = failure type_error "object is not iterable"

abbrev is_string : Value → Bool
is_string v = elim v [ str s ↦ true | _ ↦ false ]

abbrev is_number : Value → Bool
is_number v = elim v [ num n ↦ true | _ ↦ false ]

abbrev is_boolean : Value → Bool
is_boolean v = elim v [ bool b ↦ true | _ ↦ false ]

abbrev is_array : Value → Bool
is_array v = elim v [ arr vs ↦ true | _ ↦ false ]

abbrev is_object : Value → Bool
is_object v = elim v [ obj fs ↦ true | _ ↦ false ]

abbrev pub is_mismatch : String → Value → Bool
is_mismatch expected_type v =
    (expected_type == "string" && not (is_string v))
    || (expected_type == "integer" && not (is_number v))
    || (expected_type == "number" && not (is_number v))
    || (expected_type == "boolean" && not (is_boolean v))
    || (expected_type == "array" && not (is_array v))
    || (expected_type == "object" && not (is_object v))

-- `_validate_value`.
unfoldable pub validate_value : Value → String → Result (Unit {0})
validate_value v expected_type =
    if is_mismatch expected_type v then refuse "config key has the wrong type" else return tt

-- `str(spec["type"])`, which is a text in a schema whose shape is valid.
abbrev pub type_of : Value → String
type_of spec = elim (field? (fields_of spec) "type") [ some (str t) ↦ t | _ ↦ "" ]

-- `set(values) - set(properties)` is not empty.
unfoldable pub has_unknown : Fields → Fields → Bool
has_unknown end properties = false
has_unknown (field name v values) properties =
    not (is_some (field? properties name)) || has_unknown values properties

abbrev pub pick_default : Option Value → Bool → Result (Option Value)
pick_default (some v) is_required = return (some v)
pick_default none is_required =
    if is_required then refuse "missing required config key" else return none

-- The value of a property: the given one, or its default.
abbrev pub pick : Option Value → Option Value → Bool → Result (Option Value)
pick (some v) default is_required = return (some v)
pick none default is_required = pick_default default is_required

-- The loop of `_apply_defaults_and_validate`.
unfoldable pub apply_properties : Fields → List String → Fields → Result Fields
unfolding validate_value
apply_properties end required values = return end
apply_properties (field name spec properties) required values =
    and_then
      (pick (field? values name) (field? (fields_of spec) "default") (contains name required))
      (λ picked. elim picked [
        | none ↦ apply_properties properties required values
        | some v ↦ and_then (validate_value v (type_of spec)) (λ _.
            and_then (apply_properties properties required values)
              (λ effective. return (field name v effective)))
      ])

unfoldable pub apply_defaults_and_validate : Fields → Fields → Result Fields
unfolding required_names has_unknown apply_properties
apply_defaults_and_validate schema values =
    and_then (required_names (field? schema "required")) (λ required.
      if has_unknown values (properties_of schema)
      then refuse "unknown config keys"
      else apply_properties (properties_of schema) required values)
