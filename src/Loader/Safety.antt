-- ===== src/Loader/Safety.antt =====
-- Which operations of modules/plugin_system/loader.py enable a plugin whose permissions still want a
-- review: none, but a transition straight to `enabled` and an archive with its own manifest.
use humanoid_agi_plugin_syst.Prelude.{String, Bool, Option, List, [], ◌∷◌, All, ◌≢◌}
use humanoid_agi_plugin_syst.Prelude.Effects.{Result}
use humanoid_agi_plugin_syst.Models.{PluginMetadata, Value, Status, enabled, disabled, quarantined}
use humanoid_agi_plugin_syst.Policy.{ScanReport}
use humanoid_agi_plugin_syst.Loader.State.{Signature, Loader, discover_installed}
use humanoid_agi_plugin_syst.Loader.Lifecycle.{
  grant_permissions, grant_permission_names, transition_status, set_status, enable_plugin,
  disable_plugin, quarantine_plugin, revoke_plugin, revoke_plugin_version,
}
use humanoid_agi_plugin_syst.Loader.Install.{Package, Policies, install, load_from_directory}
use humanoid_agi_plugin_syst.Loader.Reviewed.{
  ReadsReviewed, AllReviewed, discover_installed-AllReviewed,
}
use humanoid_agi_plugin_syst.Loader.Steps.{
  grant_permissions-AllReviewed, grant_permission_names-AllReviewed, transition_status-AllReviewed,
  enable_plugin-AllReviewed, revoke_plugin-AllReviewed, revoke_plugin_version-AllReviewed,
  install-AllReviewed, load_from_directory-AllReviewed,
}

-- The operations that the rest of the system calls on a loader.
pub data Op : Type 0 where
  discover : Op
  grant : String → Option (List Value) → Option String → Option String → Op
  grant_names : String → List String → Option String → Option String → Op
  transition set : String → Status → Op
  enable disable quarantine revoke : String → Op
  revoke_version : String → String → Option String → Option String → Op
  add : Policies → Package → Bool → Option Signature → Option ScanReport → Op
  load : String → Result PluginMetadata → Result (Unit {0}) → Op

unfoldable pub perform : Op → Loader → Loader
perform discover s = (discover_installed s).1
perform (grant name permissions who why) s = (grant_permissions name permissions who why s).1
perform (grant_names name permissions who why) s =
    (grant_permission_names name permissions who why s).1
perform (transition name target) s = (transition_status name target s).1
perform (set name target) s = (set_status name target s).1
perform (enable name) s = (enable_plugin name s).1
perform (disable name) s = (disable_plugin name s).1
perform (quarantine name) s = (quarantine_plugin name s).1
perform (revoke name) s = (revoke_plugin name s).1
perform (revoke_version name version actor reason) s =
    (revoke_plugin_version name version actor reason s).1
perform (add policies pkg replace sig report) s = (install policies pkg replace sig report s).1
perform (load path read layout) s = (load_from_directory path read layout s).1

unfoldable pub perform_all : List Op → Loader → Loader
unfolding perform
perform_all [] s = s
perform_all (op ∷ ops) s = perform_all ops (perform op s)

-- No archive carries a manifest of its own that reads as enabled with a review outstanding, and no
-- caller moves a plugin to `enabled` past `enable_plugin`.
abbrev pub IsClean : Op → Type 0
IsClean (add policies pkg replace sig report) = ReadsReviewed pkg.shipped_manifest
IsClean (transition name target) = target ≢ enabled
IsClean (set name target) = target ≢ enabled
IsClean _ = Unit

perform-AllReviewed :
    (op : Op) (s : Loader) → IsClean op → AllReviewed s → AllReviewed (perform op s)
unfolding perform set_status disable_plugin quarantine_plugin
perform-AllReviewed discover s c h = discover_installed-AllReviewed.at s h
perform-AllReviewed (grant name permissions who why) s c h =
    (grant_permissions-AllReviewed name permissions who why).at s h
perform-AllReviewed (grant_names name permissions who why) s c h =
    (grant_permission_names-AllReviewed name permissions who why).at s h
perform-AllReviewed (transition name target) s c h =
    (transition_status-AllReviewed name target c).at s h
perform-AllReviewed (set name target) s c h = (transition_status-AllReviewed name target c).at s h
perform-AllReviewed (enable name) s c h = (enable_plugin-AllReviewed name).at s h
perform-AllReviewed (disable name) s c h =
    (transition_status-AllReviewed name disabled (λ e. cc)).at s h
perform-AllReviewed (quarantine name) s c h =
    (transition_status-AllReviewed name quarantined (λ e. cc)).at s h
perform-AllReviewed (revoke name) s c h = (revoke_plugin-AllReviewed name).at s h
perform-AllReviewed (revoke_version name version actor reason) s c h =
    (revoke_plugin_version-AllReviewed name version actor reason).at s h
perform-AllReviewed (add policies pkg replace sig report) s c h =
    (install-AllReviewed policies pkg replace sig report c).at s h
perform-AllReviewed (load path read layout) s c h =
    (load_from_directory-AllReviewed path read layout).at s h

-- Whatever operations are performed, failing or not and with restarts in between, every enabled
-- plugin, in memory and as it reads back from disk, has no review outstanding, if that held before,
-- no installed archive carries its own manifest that reads as enabled with a review outstanding, and
-- `transition_status` and `set_status` are not called with `enabled` as the target.
pub perform_all-AllReviewed :
    (ops : List Op) (s : Loader) → All IsClean ops → AllReviewed s → AllReviewed (perform_all ops s)
unfolding perform_all
perform_all-AllReviewed [] s c h = h
perform_all-AllReviewed (op ∷ ops) s c h =
    perform_all-AllReviewed ops (perform op s) c.1 (perform-AllReviewed op s c.0 h)
