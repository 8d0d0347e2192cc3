-- ===== src/Engine/Lifecycle.antt =====
-- The operations of an administrator in modules/plugin_system/engine.py: install, grants, and the
-- life cycle of a plugin.
use humanoid_agi_plugin_syst.Prelude.{
  ℕ, String, Bool, false, not, ◌&&◌, Option, none, some, List, [], ◌∷◌, or_default, ◌==◌,
  if◌then◌else◌,
}
use humanoid_agi_plugin_syst.Prelude.Dict
use humanoid_agi_plugin_syst.Prelude.Dict.{Dict}
use humanoid_agi_plugin_syst.Prelude.Effects.{
  Exec, Exception, return, raise, ◌>>=◌, ◌>>◌, pure, lift, gets, modify,
}
use humanoid_agi_plugin_syst.Audit.{Entry}
use humanoid_agi_plugin_syst.Models.{
  Value, bool, str, PluginMetadata, InstalledPlugin, granted_permission_names,
}
use humanoid_agi_plugin_syst.Policy.{ScanReport, evaluate_enable, enforce}
use humanoid_agi_plugin_syst.EventBus.{unsubscribe}
use humanoid_agi_plugin_syst.Gateway.{Gateway, register_plugin, unregister_sandbox, log_to}
use humanoid_agi_plugin_syst.Loader.{
  Signature, Package, discover_installed, install, grant_permissions, enable_plugin, disable_plugin,
  quarantine_plugin, revoke_plugin, revoke_plugin_version,
}
use humanoid_agi_plugin_syst.Engine.State.{
  Engine, with_gateway, on_loader, on_log, on_gateway, note, announce, stop_sandbox,
}

abbrev actor_details : Option String → Option String → String → String → Dict Value
actor_details actor reason default version =
    ("actor", str (or_default actor "admin"))
    ∷ ("reason", str (or_default reason default))
    ∷ ("version", str version)
    ∷ []

unfoldable pub discover : Exec Engine (Unit {0})
discover = on_loader discover_installed

abbrev failed_entry : Exception → Entry
failed_entry x = record {
  event = "plugin.install_failed";
  result = "error";
  plugin = none;
  action = "install";
  details = ("error", str x.message) ∷ [];
}

unfoldable pub add_package :
    Package → Bool → Option Signature → Option ScanReport → Exec Engine PluginMetadata
add_package pkg replace sig report e =
    let (r, e') = on_loader (install e.policy_engine pkg replace sig report) e in
    elim r [
      | raise x ↦ (raise x, with_gateway (log_to (failed_entry x)) e')
      | return m ↦
          (do
            note "plugin.installed" "success" m.name "install"
                (("version", str m.version) ∷ ("replace", bool replace) ∷ [])
            announce "plugin.installed" m.name
            pure m)
            e'
    ]

unfoldable pub grant :
    String → Option (List Value) → Option String → Option String → Exec Engine InstalledPlugin
grant name permissions reviewer review_reason = do
  p ← on_loader (grant_permissions name permissions reviewer review_reason)
  on_gateway (register_plugin p)
  note "plugin.permissions_granted" "success" name "grant_permissions" []
  announce "plugin.permissions_granted" name
  pure p

-- An administrator approved, if the review names somebody other than the system.
abbrev pub admin_approved : InstalledPlugin → Bool
admin_approved p = elim p.permission_review.reviewer [
  | none ↦ false
  | some r ↦ not (r == "") && not (r == "system")
]

-- The decisions of the policy, where there are a policy and a record of the plugin.
unfoldable pub enable_policy : String → Exec Engine (Unit {0})
enable_policy name e = elim (Dict.get e.loader.installed_plugins name) [
  | none ↦ (return tt, e)
  | some p ↦ elim e.policy_engine [
    | none ↦ (return tt, e)
    | some (policy, platform, now) ↦
        (on_log (
              evaluate_enable policy platform now p.metadata (granted_permission_names p)
                (admin_approved p) e.production_mode)
            >>= λ ds. lift (enforce ds))
          e
  ]
]

-- What every change of the status ends with.
unfoldable pub finish :
    String
    → String
    → String
    → String
    → Option String
    → Option String
    → InstalledPlugin
    → Exec Engine InstalledPlugin
finish event action default name actor reason p = do
  on_gateway (register_plugin p)
  note event "success" name action (actor_details actor reason default p.metadata.version)
  announce event name
  pure p

unfoldable pub enable : String → Option String → Option String → Exec Engine InstalledPlugin
enable name actor reason = do
  enable_policy name
  p ← on_loader (enable_plugin name)
  finish "plugin.enabled" "enable" "admin_enable" name actor reason p

unsubscribe_all : List (String × ℕ) → Gateway → Gateway
unsubscribe_all [] g = g
unsubscribe_all ((event, c) ∷ cs) g =
    unsubscribe_all cs (record g { event_bus = unsubscribe event c g.event_bus })

unfoldable pub unregister_event_listeners : String → Engine → Engine
unfolding unsubscribe_all
unregister_event_listeners name e = record e {
  gateway = unsubscribe_all (or_default (Dict.get e.listener_callbacks name) []) e.gateway;
  listener_callbacks = Dict.pop e.listener_callbacks name;
}

-- What stopping does for a plugin that has a sandbox.
abbrev pub stop_found : String → Option InstalledPlugin → Exec Engine (Unit {0})
stop_found name none = pure tt
stop_found name (some p) = do
  stop_sandbox p
  on_gateway (unregister_sandbox name)
  note "plugin.stopped" "success" name "stop" []
  announce "plugin.stopped" name

unfoldable pub stop_plugin : String → Exec Engine (Unit {0})
stop_plugin name = do
  modify (unregister_event_listeners name)
  sandbox ← gets (λ e. Dict.get e.sandboxes name)
  modify (λ e. record e { sandboxes = Dict.pop e.sandboxes name })
  stop_found name sandbox

unfoldable pub stop_each : List String → Exec Engine (Unit {0})
stop_each [] = pure tt
stop_each (name ∷ names) = stop_plugin name >> stop_each names

unfoldable pub stop_all : Exec Engine (Unit {0})
stop_all e = stop_each (Dict.keys e.sandboxes) e

unfoldable pub disable : String → Option String → Option String → Exec Engine InstalledPlugin
disable name actor reason = do
  stop_plugin name
  p ← on_loader (disable_plugin name)
  finish "plugin.disabled" "disable" "admin_disable" name actor reason p

unfoldable pub quarantine : String → Option String → Option String → Exec Engine InstalledPlugin
quarantine name actor reason = do
  stop_plugin name
  p ← on_loader (quarantine_plugin name)
  finish "plugin.quarantined" "quarantine" "admin_quarantine" name actor reason p

unfoldable pub revoke : String → Option String → Option String → Exec Engine InstalledPlugin
revoke name actor reason = do
  stop_plugin name
  p ← on_loader (revoke_plugin name)
  finish "plugin.revoked" "revoke" "admin_revoke" name actor reason p

abbrev pub is_current : String → Option InstalledPlugin → Bool
is_current version none = false
is_current version (some p) = p.metadata.version == version

abbrev register_found : Option InstalledPlugin → Gateway → Gateway
register_found none g = g
register_found (some p) g = register_plugin p g

unfoldable pub revoke_version :
    String → String → Option String → Option String → Exec Engine (Unit {0})
revoke_version name version actor reason = do
  current ← gets (λ e. Dict.get e.loader.installed_plugins name)
  if is_current version current then stop_plugin name else pure tt
  on_loader (
      revoke_plugin_version name version (some (or_default actor "admin"))
        (some (or_default reason "admin_revoke_version")))
  p ← gets (λ e. Dict.get e.loader.installed_plugins name)
  on_gateway (register_found p)
  note "plugin.version_revoked" "success" name "revoke"
      (actor_details actor reason "admin_revoke_version" version)
  announce "plugin.version_revoked" name
