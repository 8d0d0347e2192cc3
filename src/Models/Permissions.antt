-- ===== src/Models/Permissions.antt =====
-- Permissions of modules/plugin_system/models.py: their names, risks, and the validation of
-- declarations.
use humanoid_agi_plugin_syst.Prelude.{
  String, Bool, true, false, Option, none, some, List, [], ◌∷◌, ◌==◌, if◌then◌else◌,
}
use humanoid_agi_plugin_syst.Prelude.Effects.{Result, return, failure, value_error}
use humanoid_agi_plugin_syst.Models.Values.{Value, bool, obj, end, field}

pub data PermissionName : Type 0 where
  compute memory_read config_read network_outbound fs_read fs_write : PermissionName
  memory_write output_send : PermissionName

unfoldable pub permission_value : PermissionName → String
permission_value compute = "compute"
permission_value memory_read = "memory.read"
permission_value config_read = "config.read"
permission_value network_outbound = "network.outbound"
permission_value fs_read = "fs.read"
permission_value fs_write = "fs.write"
permission_value memory_write = "memory.write"
permission_value output_send = "output.send"

abbrev pub all_permissions : List PermissionName
all_permissions =
    compute ∷ memory_read ∷ config_read ∷ network_outbound ∷ fs_read ∷ fs_write ∷ memory_write
    ∷ output_send ∷ []

abbrev find_permission : String → List PermissionName → Option PermissionName
unfolding permission_value
find_permission k [] = none
find_permission k (p ∷ ps) =
    let rest = find_permission k ps in if permission_value p == k then some p else rest

-- `PermissionName(text)`, where `none` is the ValueError.
unfoldable pub permission_named : String → Option PermissionName
unfolding find_permission
permission_named k = find_permission k all_permissions

pub data Level : Type 0 where
  l0 l1 l2 l3 l4 : Level

unfoldable pub permission_level : PermissionName → Level
permission_level compute = l0
permission_level memory_read = l1
permission_level config_read = l1
permission_level network_outbound = l2
permission_level fs_read = l3
permission_level fs_write = l3
permission_level memory_write = l4
permission_level output_send = l4

unfoldable pub risk_label : Level → String
risk_label l0 = "low"
risk_label l1 = "low"
risk_label l2 = "medium"
risk_label l3 = "high"
risk_label l4 = "critical"

unfoldable pub permission_description : PermissionName → String
permission_description compute = "Local computation only; no external system access."
permission_description memory_read = "Read memory records exposed by the host gateway."
permission_description config_read = "Read approved plugin configuration values."
permission_description network_outbound = "Send outbound HTTP requests to approved targets."
permission_description fs_read = "Read files from the plugin sandbox data directory."
permission_description fs_write = "Write files inside the plugin sandbox data directory."
permission_description memory_write = "Modify memory records exposed by the host gateway."
permission_description output_send = "Send output messages through host-controlled channels."

pub record PermissionRisk : Type 0 where
  pub name : PermissionName
  pub level : Level
  pub risk : String
  pub description : String
  pub value : Value

-- One single-key mapping of a list of declarations, and the list.
abbrev pub Decl : Type 0
Decl = String × Value

abbrev pub Decls : Type 0
Decls = List Decl

unfoldable pub permission_risk : String → Value → Result PermissionRisk
unfolding permission_named permission_level risk_label permission_description
permission_risk permission v = elim (permission_named permission) [
  | none ↦ failure value_error "not a valid PermissionName"
  | some p ↦ return (record {
    name = p;
    level = permission_level p;
    risk = risk_label (permission_level p);
    description = permission_description p;
    value = v;
  })
]

add_risk : Result PermissionRisk → Result (List PermissionRisk) → Result (List PermissionRisk)
add_risk (return r) (return rs) = return (r ∷ rs)
add_risk (return r) (Result.raise e) = Result.raise e
add_risk (Result.raise e) rest = Result.raise e

unfoldable pub permission_risks : Decls → Result (List PermissionRisk)
unfolding add_risk permission_risk
permission_risks [] = return []
permission_risks ((k, v) ∷ ds) = add_risk (permission_risk k v) (permission_risks ds)

-- `{next(iter(item.keys())) for item in ds}`.
unfoldable pub names : Decls → List String
names [] = []
names ((k, v) ∷ ds) = k ∷ names ds

-- One item: a mapping with one key, which is the name of a permission.
abbrev decl_of : Value → Result Decl
unfolding permission_named
decl_of (obj (field k v end)) =
    if (elim (permission_named k) [ none ↦ false | some p ↦ true ])
    then return (k, v)
    else failure value_error "unknown permission"
decl_of _ = failure value_error "each permission must be a single-key mapping"

abbrev add_decl : Result Decl → Result Decls → Result Decls
add_decl (return d) (return ds) = return (d ∷ ds)
add_decl (return d) (Result.raise e) = Result.raise e
add_decl (Result.raise e) rest = Result.raise e

normalized : List Value → Result Decls
unfolding decl_of
normalized [] = return []
normalized (item ∷ items) = add_decl (decl_of item) (normalized items)

unfoldable pub validate_permission_decls : List Value → Bool → Result Decls
unfolding normalized
validate_permission_decls [] default_compute =
    if default_compute then return (("compute", bool true) ∷ []) else return []
validate_permission_decls (item ∷ items) default_compute = normalized (item ∷ items)

-- The declarations as the list of mappings that they are.
abbrev pub mappings : Decls → List Value
mappings [] = []
mappings ((k, v) ∷ ds) = obj (field k v end) ∷ mappings ds
