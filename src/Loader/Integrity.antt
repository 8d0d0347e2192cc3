-- ===== src/Loader/Integrity.antt =====
-- The check of a plugin's files in modules/plugin_system/loader.py against the record that its
-- installation wrote. A folder is the list of its files in the order of their paths.
use humanoid_agi_plugin_syst.Prelude.{
  ℕ, String, Bool, true, false, not, ◌||◌, Option, none, some, is_some, List, [], ◌∷◌, contains,
  if◌then◌else◌,
}
use humanoid_agi_plugin_syst.Prelude.Dict
use humanoid_agi_plugin_syst.Prelude.Dict.{Dict}
use humanoid_agi_plugin_syst.Prelude.Effects.{Result, return, failure, package_error}
use humanoid_agi_plugin_syst.Prelude.Text.{ends_with}
use humanoid_agi_plugin_syst.Models.{
  Value, null, num, str, obj, Fields, end, field, field?, value_eq,
}

-- The `status` of the report of a check.
pub data IntegrityStatus : Type 0 where
  skipped success : IntegrityStatus

-- A file with its path and the parts of it, its SHA-256 and its size.
pub record StoredFile : Type 0 where
  pub path : String
  pub parts : List String
  pub sha256 : String
  pub size : ℕ

abbrev integrity_excluded_dirs : List String
integrity_excluded_dirs = ".venv" ∷ "__pycache__" ∷ "data" ∷ []

abbrev integrity_excluded_files : List String
integrity_excluded_files = ".plugin-install.json" ∷ ".plugin-config.json" ∷ ".plugin-deps.json" ∷ []

abbrev is_excluded_name : String → Bool
is_excluded_name name =
    contains name integrity_excluded_files || ends_with ".pyc" name || ends_with ".pyo" name

last_part_excluded : String → List String → Bool
last_part_excluded name [] = is_excluded_name name
last_part_excluded name (part ∷ parts) = last_part_excluded part parts

-- `integrity_path_excluded`, of the parts of a path.
unfoldable pub integrity_path_excluded : List String → Bool
unfolding last_part_excluded
integrity_path_excluded [] = true
integrity_path_excluded (part ∷ parts) =
    contains part integrity_excluded_dirs || last_part_excluded part parts

abbrev pub file_value : StoredFile → Value
file_value f = obj (field "sha256" (str f.sha256) (field "size" (num f.size) end))

-- The files of `build_file_integrity_manifest`, after those that were seen.
unfoldable pub add_files : Dict Value → List StoredFile → Dict Value
unfolding integrity_path_excluded
add_files files [] = files
add_files files (f ∷ folder) =
    let without = add_files files folder in
    let added = add_files (Dict.put files f.path (file_value f)) folder in
    if integrity_path_excluded f.parts then without else added

unfoldable pub build_file_integrity : List StoredFile → Dict Value
unfolding add_files
build_file_integrity folder = add_files [] folder

-- Whether `set(expected) - set(actual)`, `set(actual) - set(expected)` and the changed paths of both
-- have members.
unfoldable pub has_missing : Fields → Dict Value → Bool
has_missing end actual = false
has_missing (field path v expected) actual =
    not (is_some (Dict.get actual path)) || has_missing expected actual

unfoldable pub has_extra : Dict Value → Fields → Bool
has_extra [] expected = false
has_extra ((path, v) ∷ actual) expected =
    not (is_some (field? expected path)) || has_extra actual expected

abbrev pub differs : Value → Option Value → Bool
differs v none = false
differs v (some w) = not (value_eq v w)

unfoldable pub has_changed : Fields → Dict Value → Bool
has_changed end actual = false
has_changed (field path v expected) actual =
    differs v (Dict.get actual path) || has_changed expected actual

abbrev pub invalid : {A : Type 0} → String → Result A
invalid message = failure package_error message

unfoldable pub compare_files : Fields → Dict Value → Result IntegrityStatus
unfolding has_missing has_extra has_changed
compare_files expected actual =
    if has_missing expected actual || has_extra actual expected || has_changed expected actual
    then invalid "plugin integrity check failed"
    else return success

abbrev pub get_or_null : Fields → String → Value
get_or_null fs key = elim (field? fs key) [ none ↦ null | some v ↦ v ]

unfoldable pub check_files : Value → List StoredFile → Result IntegrityStatus
unfolding compare_files build_file_integrity
check_files (obj expected) folder = compare_files expected (build_file_integrity folder)
check_files v folder = invalid "plugin file integrity manifest is invalid"

unfoldable pub check_manifest : Value → List StoredFile → Result IntegrityStatus
unfolding check_files
check_manifest (obj expected) folder =
    if not (value_eq (get_or_null expected "version") (num 1))
    then invalid "unsupported plugin file integrity manifest version"
    else if not (value_eq (get_or_null expected "algorithm") (str "sha256"))
    then invalid "unsupported plugin file integrity algorithm"
    else check_files (get_or_null expected "files") folder
check_manifest v folder = return skipped

-- PluginLoader.verify_integrity, of the manifest and the folder of an installed plugin: the status of
-- the report.
unfoldable pub verify_integrity : Fields → List StoredFile → Result IntegrityStatus
unfolding check_manifest
verify_integrity manifest folder = check_manifest (get_or_null manifest "file_integrity") folder

-- What `install` writes of the files into the manifest.
to_fields : Dict Value → Fields
to_fields [] = end
to_fields ((k, v) ∷ d) = field k v (to_fields d)

unfoldable pub build_file_integrity_manifest : List StoredFile → Value
unfolding build_file_integrity to_fields
build_file_integrity_manifest folder = obj (
    field "version" (num 1) (
      field "algorithm" (str "sha256")
        (field "files" (obj (to_fields (build_file_integrity folder))) end)))
