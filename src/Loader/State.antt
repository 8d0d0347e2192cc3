-- ===== src/Loader/State.antt =====
-- The state of `PluginLoader` in modules/plugin_system/loader.py: what lies in the plugins' folder,
-- the governance file, and the two dictionaries in memory.
use humanoid_agi_plugin_syst.Prelude.{
  String, Bool, false, is_some, ◌&&◌, Option, none, some, List, [], ◌∷◌, or_default, if◌then◌else◌,
}
use humanoid_agi_plugin_syst.Prelude.Dict
use humanoid_agi_plugin_syst.Prelude.Dict.{Dict}
use humanoid_agi_plugin_syst.Prelude.Effects.{
  Exec, Result, return, failure, package_error, os_error, value_error, throw, pure, ◌>>=◌,
}
use humanoid_agi_plugin_syst.Models.{
  Value, Status, enabled, pending_approval, Decls, PluginMetadata, InstalledPlugin, Review,
  is_trusted,
}
use humanoid_agi_plugin_syst.Loader.Review.{legacy_permission_review}

-- A verified signature record of a package.
pub record Signature : Type 0 where
  pub algorithm : String
  pub hash : String
  pub signature : String

-- `.plugin-install.json`, as far as the loader reads it back. A missing or unreadable file is
-- `no_manifest`. `unknown_status` is whether it has a status that is none of the program's.
pub record Manifest : Type 0 where
  pub package_hash : Option String
  pub status : Option Status
  pub unknown_status : Bool
  pub granted_permissions : Decls
  pub permission_review : Option Review
  pub signature : Option Signature

abbrev pub no_manifest : Manifest
no_manifest = record {
  package_hash = none;
  status = none;
  unknown_status = false;
  granted_permissions = [];
  permission_review = none;
  signature = none;
}

-- A folder of a plugin: `metadata` is `none` where plugin.yaml is missing or not valid.
pub record PluginDir : Type 0 where
  pub metadata : Option PluginMetadata
  pub manifest : Manifest

-- `disk` lists the folders by path, in the order in which `discover_installed` visits them.
-- `revoked_versions` is what reading the list of the governance file comes to.
pub record Loader : Type 0 where
  pub production_mode : Bool
  pub require_signatures : Bool
  pub disk : Dict PluginDir
  pub revoked_versions : Result (List Value)
  pub loaded_plugins : Dict PluginMetadata
  pub installed_plugins : Dict InstalledPlugin

unfoldable pub default_status : PluginMetadata → Status
default_status m = if is_trusted m then enabled else pending_approval

unfoldable pub default_granted_permissions : PluginMetadata → Decls
default_granted_permissions m = if is_trusted m then m.permissions else []

-- `manifest.get("granted_permissions") or default`: an empty list counts as missing.
abbrev pub granted_or_default : Decls → PluginMetadata → Decls
granted_or_default [] m = default_granted_permissions m
granted_or_default (d ∷ ds) m = d ∷ ds

-- The record that `discover_installed` makes of one folder.
unfoldable pub read_installed : String → PluginMetadata → Manifest → InstalledPlugin
read_installed path m manifest =
    let status = or_default manifest.status (default_status m) in
    let granted = granted_or_default manifest.granted_permissions m in
    record {
      metadata = m;
      path = path;
      package_hash = manifest.package_hash;
      status = status;
      granted_permissions = granted;
      permission_review =
          or_default manifest.permission_review (legacy_permission_review m status granted);
    }

abbrev pub Found : Type 0
Found = Dict PluginMetadata × Dict InstalledPlugin

abbrev pub visit : String → PluginDir → Found → Found
visit path dir found = elim dir.metadata [
  | none ↦ found
  | some m ↦
      (Dict.put found.0 m.name m, Dict.put found.1 m.name (read_installed path m dir.manifest))
]

-- A folder whose plugin.yaml reads and whose status is no status.
abbrev pub has_bad_status : PluginDir → Bool
has_bad_status dir = is_some dir.metadata && dir.manifest.unknown_status

-- The loop ends at the first folder with a bad status, with what it has found.
unfoldable pub scan : Dict PluginDir → Found → Result (Unit {0}) × Found
scan [] found = (return tt, found)
scan ((path, dir) ∷ dirs) found =
    let rest = scan dirs (visit path dir found) in
    if has_bad_status dir then (failure value_error "not a valid PluginStatus", found) else rest

unfoldable pub discover_installed : Exec Loader (Unit {0})
discover_installed s =
    let (r, found) = scan s.disk ([], []) in
    (r, record s { loaded_plugins = found.0; installed_plugins = found.1 })

abbrev pub found_or_raise : Option InstalledPlugin → Exec Loader InstalledPlugin
found_or_raise none = throw package_error "plugin is not installed"
found_or_raise (some p) = pure p

abbrev pub found_again : String → Exec Loader InstalledPlugin
found_again name s = found_or_raise (Dict.get s.installed_plugins name) s

unfoldable pub installed_or_raise : String → Exec Loader InstalledPlugin
installed_or_raise name s = elim (Dict.get s.installed_plugins name) [
  | some p ↦ (return p, s)
  | none ↦ (discover_installed >>= λ _. found_again name) s
]

-- A change of the object that the dictionary holds under `name`.
unfoldable pub set_installed : String → InstalledPlugin → Exec Loader (Unit {0})
set_installed name p s =
    (return tt, record s { installed_plugins = Dict.put s.installed_plugins name p })

abbrev pub updated_manifest : Manifest → InstalledPlugin → Manifest
updated_manifest manifest p = record manifest {
  package_hash = p.package_hash;
  status = some p.status;
  unknown_status = false;
  granted_permissions = p.granted_permissions;
  permission_review = some p.permission_review;
}

-- Writing into a folder that is gone raises, before the dictionaries are set.
unfoldable pub persist_installed : InstalledPlugin → Exec Loader (Unit {0})
persist_installed p s = elim (Dict.get s.disk p.path) [
  | none ↦ (failure os_error "No such file or directory", s)
  | some dir ↦ (
    return tt,
    record s {
      disk = Dict.put s.disk p.path (record dir { manifest = updated_manifest dir.manifest p });
      installed_plugins = Dict.put s.installed_plugins p.metadata.name p;
      loaded_plugins = Dict.put s.loaded_plugins p.metadata.name p.metadata;
    },
  )
]
