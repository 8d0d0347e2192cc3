-- ===== src/Loader/Lifecycle.antt =====
-- The operations of modules/plugin_system/loader.py that change the status or the permissions of an
-- installed plugin. The object that `_installed_or_raise` returns is the one in the dictionary, so
-- an assignment to its fields is a change of the entry, which stays also if the next step raises.
use humanoid_agi_plugin_syst.Prelude.{
  String, Bool, true, false, not, ◌&&◌, Option, none, some, List, [], ◌∷◌, ◌++◌, any, is_empty,
  or_default, ◌==◌, if◌then◌else◌,
}
use humanoid_agi_plugin_syst.Prelude.Dict
use humanoid_agi_plugin_syst.Prelude.Effects.{
  Exec, Result, return, raise, failure, package_error, attribute_error, ◌>>=◌, ◌>>◌, pure, lift,
  raise_if, gets, modify,
}
use humanoid_agi_plugin_syst.Prelude.Names.{minus}
use humanoid_agi_plugin_syst.Models.{
  Value, obj, str, field, end, value_eq, Status, enabled, disabled, quarantined, revoked,
  uninstalled, mem_status, status_eq, allowed, Decls, names, mappings, validate_permission_decls,
  InstalledPlugin, requested_permissions,
}
use humanoid_agi_plugin_syst.Loader.Review.{mark_permission_reviewed, permission_decls_for_names}
use humanoid_agi_plugin_syst.Loader.Integrity.{get_or_null}
use humanoid_agi_plugin_syst.Loader.State.{
  Loader, installed_or_raise, set_installed, persist_installed,
}

-- `status in {REVOKED, QUARANTINED, UNINSTALLED}`.
abbrev pub is_closed : Status → Bool
is_closed s = mem_status s (revoked ∷ quarantined ∷ uninstalled ∷ [])

abbrev given_or_all : Option (List Value) → InstalledPlugin → List Value
given_or_all none p = mappings p.metadata.permissions
given_or_all (some items) p = items

unfoldable pub granted_to :
    InstalledPlugin → Decls → Option String → Option String → InstalledPlugin
granted_to p granted reviewer review_reason =
    let p' = record p { granted_permissions = granted } in
    record p' {
      permission_review = mark_permission_reviewed p' reviewer review_reason;
      status = enabled;
    }

unfoldable pub grant_found :
    String
    → Option (List Value)
    → Option String
    → Option String
    → InstalledPlugin
    → Exec Loader InstalledPlugin
grant_found name permissions reviewer review_reason p = do
  granted ← lift (validate_permission_decls (given_or_all permissions p) false)
  raise_if (not (is_empty (minus (names granted) (requested_permissions p.metadata)))) package_error
      "cannot grant permissions not requested by plugin"
  raise_if (is_closed p.status) package_error "cannot grant permissions to a closed plugin"
  let p' = granted_to p granted reviewer review_reason
  set_installed name p'
  persist_installed p'
  pure p'

unfoldable pub grant_permissions :
    String → Option (List Value) → Option String → Option String → Exec Loader InstalledPlugin
grant_permissions name permissions reviewer review_reason =
    installed_or_raise name >>= grant_found name permissions reviewer review_reason

unfoldable pub grant_permission_names :
    String → List String → Option String → Option String → Exec Loader InstalledPlugin
grant_permission_names name permission_names reviewer review_reason = do
  p ← installed_or_raise name
  granted ← lift (permission_decls_for_names p.metadata.permissions permission_names)
  grant_permissions name (some (mappings granted)) reviewer review_reason

-- `transition_status` with no audit logger, as every caller in the loader and the engine has it.
unfoldable pub transition_found : String → Status → InstalledPlugin → Exec Loader InstalledPlugin
transition_found name target p = do
  raise_if (not (allowed p.status target)) package_error "illegal plugin status transition"
  let p' = record p { status = target }
  set_installed name p'
  persist_installed p'
  pure p'

unfoldable pub transition_status : String → Status → Exec Loader InstalledPlugin
transition_status name target = installed_or_raise name >>= transition_found name target

-- The public `set_status`, which is `transition_status` by another name.
unfoldable pub set_status : String → Status → Exec Loader InstalledPlugin
set_status name target = transition_status name target

unfoldable pub enable_found : String → InstalledPlugin → Exec Loader InstalledPlugin
enable_found name p = do
  raise_if (is_empty p.granted_permissions) package_error "plugin has no granted permissions"
  raise_if p.permission_review.required package_error
      "plugin requires permission review before enabling"
  raise_if (is_closed p.status) package_error "cannot enable a closed plugin"
  transition_status name enabled

unfoldable pub enable_plugin : String → Exec Loader InstalledPlugin
enable_plugin name = installed_or_raise name >>= enable_found name

unfoldable pub disable_plugin : String → Exec Loader InstalledPlugin
disable_plugin name = transition_status name disabled

unfoldable pub quarantine_plugin : String → Exec Loader InstalledPlugin
quarantine_plugin name = transition_status name quarantined

unfoldable pub finish_revoke : String → InstalledPlugin → Exec Loader InstalledPlugin
finish_revoke name p = do
  let p' = record p { granted_permissions = [] }
  set_installed name p'
  persist_installed p'
  pure p'

unfoldable pub revoke_found : String → InstalledPlugin → Exec Loader InstalledPlugin
revoke_found name p = do
  let p' = record p { granted_permissions = [] }
  set_installed name p'
  if status_eq p.status revoked
      then (persist_installed p' >> pure p')
      else do q ← transition_status name revoked; finish_revoke name q

unfoldable pub revoke_plugin : String → Exec Loader InstalledPlugin
revoke_plugin name = installed_or_raise name >>= revoke_found name

abbrev pub is_version : String → String → Value → Bool
is_version name version (obj item) =
    value_eq (get_or_null item "name") (str name)
    && value_eq (get_or_null item "version") (str version)
is_version name version v = false

-- Reading the governance file may raise.
unfoldable pub is_plugin_version_revoked : String → String → Loader → Result Bool
is_plugin_version_revoked name version s = elim s.revoked_versions [
  | raise x ↦ raise x
  | return items ↦ return (any (is_version name version) items)
]

-- `any(item.get("name") == ...)`, which raises at an item without `get`.
unfoldable pub is_listed : String → String → List Value → Result Bool
is_listed name version [] = return false
is_listed name version (obj item ∷ items) =
    let rest = is_listed name version items in
    if is_version name version (obj item) then return true else rest
is_listed name version (v ∷ items) = failure attribute_error "object has no attribute 'get'"

abbrev pub revoked_entry : String → String → Option String → Option String → Value
revoked_entry name version actor reason = obj (
    field "name" (str name) (
      field "version" (str version) (
        field "actor" (str (or_default actor "admin"))
          (field "reason" (str (or_default reason "revoked")) end))))

-- Reads the governance file, and writes it with the entry unless it has one.
unfoldable pub add_version :
    String → String → Option String → Option String → Exec Loader (Unit {0})
add_version name version actor reason = do
  governance ← gets (λ s. s.revoked_versions)
  items ← lift governance
  listed ← lift (is_listed name version items)
  let added = items ++ revoked_entry name version actor reason ∷ []
  modify (λ s. record s { revoked_versions = return (if listed then items else added) })

unfoldable pub revoke_current : String → String → Option InstalledPlugin → Exec Loader (Unit {0})
revoke_current name version none = pure tt
revoke_current name version (some p) =
    if p.metadata.version == version then (revoke_plugin name >> pure tt) else pure tt

unfoldable pub revoke_plugin_version :
    String → String → Option String → Option String → Exec Loader (Unit {0})
revoke_plugin_version name version actor reason = do
  add_version name version actor reason
  current ← gets (λ s. Dict.get s.installed_plugins name)
  revoke_current name version current
