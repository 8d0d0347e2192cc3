-- ===== src/Engine/State.antt =====
-- The state of `PluginEngine` in modules/plugin_system/engine.py, and the steps through which it
-- uses its loader, its gateway and its log.
use humanoid_agi_plugin_syst.Prelude.{
  ℕ, String, Bool, Option, some, List, [], ◌∷◌, ◌++◌, nat_eq, if◌then◌else◌,
}
use humanoid_agi_plugin_syst.Prelude.Dict.{Dict}
use humanoid_agi_plugin_syst.Prelude.Effects.{Exec, Result, modify}
use humanoid_agi_plugin_syst.Audit.{Log}
use humanoid_agi_plugin_syst.EventBus.{Event}
use humanoid_agi_plugin_syst.Models.{
  Value, str, obj, Fields, end, field, PluginMetadata, InstalledPlugin,
}
use humanoid_agi_plugin_syst.Gateway.{Gateway, Response, Outside, log_to}
use humanoid_agi_plugin_syst.Loader.{Loader, Policies}
use humanoid_agi_plugin_syst.Loader.Integrity.{StoredFile}

-- `PluginRuntimeState`: `permits` is what its semaphore has left.
pub record RuntimeState : Type 0 where
  pub max_concurrency : ℕ
  pub permits : ℕ
  pub consecutive_failures : ℕ

-- `runtime_states` maps a plugin to its object, as an action that runs holds the object itself and
-- not the entry. A sandbox is the installed plugin that it was made of. `published` lists the events
-- of the life cycle that were published, in order; what their listeners do is left out. `stopping`
-- is what stopping the process of a plugin comes to, which may raise, and `stop_calls` lists the
-- sandboxes whose `stop` was called, in order.
pub record Engine : Type 0 where
  pub production_mode : Bool
  pub policy_engine : Policies
  pub loader : Loader
  pub gateway : Gateway
  pub sandboxes : Dict InstalledPlugin
  pub listener_callbacks : Dict (List (String × ℕ))
  pub next_callback : ℕ
  pub objects : ℕ → RuntimeState
  pub next_object : ℕ
  pub runtime_states : Dict ℕ
  pub published : List Event
  pub stopping : InstalledPlugin → Result (Unit {0})
  pub stop_calls : List InstalledPlugin

-- What lies in the folder of a plugin: its manifest, its files, what its lock comes to where it has
-- one, and what the rules on its dependencies come to; the start of its process and its answers to an
-- action with a payload; and whether the platform's sandbox can be enforced.
pub record World : Type 0 where
  pub outside : Outside
  pub manifest_in : InstalledPlugin → Fields
  pub files_in : InstalledPlugin → List StoredFile
  pub package_lock : InstalledPlugin → Option (Result (Unit {0}))
  pub dependency_policy : InstalledPlugin → Result (Unit {0})
  pub start_sandbox : InstalledPlugin → Result Bool
  pub backend_enforces : PluginMetadata → Bool
  pub execute_with_timeout : InstalledPlugin → String → Value → Exec Gateway Response

unfoldable pub on_loader : {A : Type 0} → Exec Loader A → Exec Engine A
on_loader m e = let (r, s) = m e.loader in (r, record e { loader = s })

unfoldable pub on_log : {A : Type 0} → Exec Log A → Exec Engine A
on_log m e =
    let (r, l) = m e.gateway.log in
    let g = e.gateway in (r, record e { gateway = record g { log = l } })

abbrev pub with_gateway : (Gateway → Gateway) → Engine → Engine
with_gateway f e = record e { gateway = f e.gateway }

unfoldable pub on_gateway : (Gateway → Gateway) → Exec Engine (Unit {0})
on_gateway f = modify (with_gateway f)

unfoldable pub in_gateway : {A : Type 0} → Exec Gateway A → Exec Engine A
in_gateway m e = let (r, g) = m e.gateway in (r, record e { gateway = g })

-- `self.audit_logger.record(...)`.
unfoldable pub note : String → String → String → String → Dict Value → Exec Engine (Unit {0})
unfolding on_gateway
note event result plugin action details = on_gateway (
    log_to (record {
      event = event;
      result = result;
      plugin = some plugin;
      action = action;
      details = details;
    }))

-- `self.event_bus.publish(event, {"name": name, ...})`.
unfoldable pub announce : String → String → Exec Engine (Unit {0})
announce event name = modify (λ e. record e {
  published =
      e.published
      ++ record { name = event; payload = obj (field "name" (str name) end); source = "system" }
        ∷ [];
})

-- `sandbox.stop()`, which was called also if it raises.
unfoldable pub stop_sandbox : InstalledPlugin → Exec Engine (Unit {0})
stop_sandbox p e = (e.stopping p, record e { stop_calls = e.stop_calls ++ p ∷ [] })

unfoldable pub set_object : ℕ → RuntimeState → Engine → Engine
set_object i r e = record e { objects = λ j. if nat_eq j i then r else e.objects j }
