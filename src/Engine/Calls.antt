-- ===== src/Engine/Calls.antt =====
-- The start of plugins and the calls of their tools, memory providers and middlewares in
-- modules/plugin_system/engine.py.
use humanoid_agi_plugin_syst.Prelude.{
  ℕ, ◌+◌, String, Bool, true, false, not, ◌&&◌, Option, none, some, List, [], ◌∷◌, contains,
  if◌then◌else◌,
}
use humanoid_agi_plugin_syst.Prelude.Dict
use humanoid_agi_plugin_syst.Prelude.Dict.{Dict}
use humanoid_agi_plugin_syst.Prelude.Effects.{
  Exec, Result, return, raise, failure, key_error, lifecycle_error, middleware_error, runtime_error,
  ◌>>=◌, ◌>>◌, pure, throw, rethrow, lift, gets, modify,
}
use humanoid_agi_plugin_syst.Prelude.Names.{sorted_set}
use humanoid_agi_plugin_syst.Models.{
  Value, str, obj, Fields, end, field, enabled, status_eq, PluginMetadata, InstalledPlugin,
  is_third_party, effective_run_mode, is_sub_process, event_listener_entries, tool_entries,
  memory_provider_entries, middleware_entries,
}
use humanoid_agi_plugin_syst.Policy.{evaluate_start, enforce}
use humanoid_agi_plugin_syst.EventBus.{subscribe}
use humanoid_agi_plugin_syst.Gateway.{
  Gateway, Response, success, failed, audited_response, register_sandbox,
}
use humanoid_agi_plugin_syst.Loader.{discover_installed}
use humanoid_agi_plugin_syst.Loader.Integrity.{IntegrityStatus, verify_integrity}
use humanoid_agi_plugin_syst.Loader.Integrity
use humanoid_agi_plugin_syst.Loader.Production.{verify_production_install_policy}
use humanoid_agi_plugin_syst.Engine.State.{
  Engine, World, on_loader, on_log, on_gateway, in_gateway, note, announce, stop_sandbox,
}
use humanoid_agi_plugin_syst.Engine.Actions.{execute_plugin_action}

abbrev pub found_or_key_error : {A : Type 0} → Option A → Exec Engine A
found_or_key_error none = throw key_error "plugin not found"
found_or_key_error (some a) = pure a

-- The metadata of the plugin, looked up again after a fresh discovery.
unfoldable pub find_plugin : String → Exec Engine PluginMetadata
find_plugin name e = elim (Dict.get e.loader.loaded_plugins name) [
  | some m ↦ (return m, e)
  | none ↦
      (do
        on_loader discover_installed
        m ← gets (λ s. Dict.get s.loader.loaded_plugins name)
        found_or_key_error m)
        e
]

unfoldable pub validate_production_start_policy : InstalledPlugin → Result (Unit {0})
validate_production_start_policy p =
    if not (is_third_party p.metadata)
    then return tt
    else if not (is_sub_process (effective_run_mode p.metadata))
    then failure lifecycle_error "production mode requires sub_process"
    else if p.permission_review.required
    then failure lifecycle_error "production mode requires permission review before starting"
    else return tt

abbrev status_value : IntegrityStatus → String
status_value Integrity.skipped = "skipped"
status_value Integrity.success = "success"

-- A check of the files, whose result is written to the log either way.
unfoldable pub checked : String → String → String → Result IntegrityStatus → Exec Engine (Unit {0})
checked event action name (raise x) =
    note event "error" name action (("error", str x.message) ∷ []) >> rethrow x
checked event action name (return status) =
    note event (status_value status) name action (("status", str (status_value status)) ∷ [])

subscribe_all : List String → ℕ → Gateway → Gateway
subscribe_all [] c g = g
subscribe_all (event ∷ events) c g =
    subscribe_all events c (record g { event_bus = subscribe event c g.event_bus })

with_callback : ℕ → List String → List (String × ℕ)
with_callback c [] = []
with_callback c (event ∷ events) = (event, c) ∷ with_callback c events

-- Only the names of the entries are events. One new callback stands for those of the plugin.
unfoldable pub register_event_listeners : String → PluginMetadata → Engine → Engine
unfolding subscribe_all with_callback
register_event_listeners name m e =
    let events = Dict.keys (event_listener_entries m) in
    record e {
      gateway = subscribe_all events e.next_callback e.gateway;
      listener_callbacks =
          Dict.put e.listener_callbacks name (with_callback e.next_callback events);
      next_callback = e.next_callback + 1;
    }

abbrev pub start_result : Result Bool → Result (Unit {0})
start_result (raise x) = raise x
start_result (return true) = return tt
start_result (return false) = failure runtime_error "failed to start plugin"

unfoldable pub run_sandbox :
    String → InstalledPlugin → Result (Unit {0}) → Exec Engine InstalledPlugin
run_sandbox name p (raise x) =
    stop_sandbox p
    >> note "plugin.start_failed" "error" name "start" (("error", str x.message) ∷ [])
    >> rethrow x
run_sandbox name p (return u) = do
  modify (λ e. record e { sandboxes = Dict.put e.sandboxes name p })
  on_gateway (register_sandbox p)
  modify (register_event_listeners name p.metadata)
  note "plugin.started" "success" name "start" []
  announce "plugin.started" name
  pure p

module _ (world : World) where
  unfoldable pub sandbox_backend_can_enforce : Bool → InstalledPlugin → Bool
  sandbox_backend_can_enforce production p =
      if not
        (production && is_third_party p.metadata && is_sub_process (effective_run_mode p.metadata))
      then true
      else world.backend_enforces p.metadata

  unfoldable pub production_checks : String → InstalledPlugin → Bool → Exec Engine (Unit {0})
  production_checks name p false = pure tt
  production_checks name p true = do
    lift (validate_production_start_policy p)
    production ← gets (λ e. e.loader.production_mode)
    checked "plugin.production_policy" "verify_production_policy" name (
        verify_production_install_policy production p (world.manifest_in p) (world.package_lock p)
          (world.dependency_policy p))

  unfoldable pub start_policy : InstalledPlugin → Exec Engine (Unit {0})
  start_policy p e = elim e.policy_engine [
    | none ↦ (return tt, e)
    | some (policy, platform, now) ↦
        (on_log (
              evaluate_start policy platform now p.metadata e.production_mode
                (sandbox_backend_can_enforce e.production_mode p) false)
            >>= λ ds. lift (enforce ds))
          e
  ]

  unfoldable pub start_found : String → InstalledPlugin → Exec Engine InstalledPlugin
  start_found name p = do
    production ← gets (λ e. e.production_mode)
    production_checks name p production
    start_policy p
    checked "plugin.integrity_check" "verify_integrity" name
        (verify_integrity (world.manifest_in p) (world.files_in p))
    run_sandbox name p (start_result (world.start_sandbox p))

  unfoldable pub start_record : String → Option InstalledPlugin → Exec Engine InstalledPlugin
  start_record name none = throw key_error "plugin install record not found"
  start_record name (some p) = if status_eq p.status enabled then start_found name p else (do
    note "plugin.start_denied" "error" name "start" []
    throw lifecycle_error "plugin is not enabled")

  unfoldable pub start_plugin : String → Exec Engine InstalledPlugin
  start_plugin name = do
    find_plugin name
    p ← gets (λ e. Dict.get e.loader.installed_plugins name)
    start_record name p

  -- The sandbox of a plugin, started where there is none.
  unfoldable pub sandbox_of : String → Exec Engine InstalledPlugin
  sandbox_of name e = elim (Dict.get e.sandboxes name) [
    | some p ↦ (return p, e)
    | none ↦ start_plugin name e
  ]

  abbrev answered : String → String → String → Response → Exec Gateway Response
  answered event name action response g =
      (return response, audited_response world.outside event name action response g)

  -- `PluginGateway.call_plugin_tool`.
  unfoldable pub call_plugin_tool : String → String → Value → Exec Gateway Response
  call_plugin_tool name tool args g = elim (Dict.get g.active_sandboxes name) [
    | none ↦ answered "plugin.tool_call" name tool (failed "plugin is not active") g
    | some p ↦
        if not (contains tool (Dict.keys (tool_entries p.metadata)))
        then answered "plugin.tool_call" name tool (failed "tool is not declared by plugin") g
        else (world.execute_with_timeout p "execute_tool"
                (obj (field "tool_name" (str tool) (field "args" args end)))
              >>= answered "plugin.tool_call" name tool)
            g
  ]

  unfoldable pub call_tool : String → String → Value → Exec Engine Response
  call_tool name tool args = do
    sandbox_of name
    execute_plugin_action name "tool" tool (in_gateway (call_plugin_tool name tool args))

  abbrev result_text : Response → String
  result_text (success v) = "success"
  result_text (failed e) = "error"

  unfoldable pub provider_call :
      String → String → String → Value → InstalledPlugin → Exec Engine Response
  provider_call name provider operation payload p =
      if not (contains provider (Dict.keys (memory_provider_entries p.metadata)))
      then (do
        note "plugin.memory_provider_call" "error" name provider (("operation", str operation) ∷ [])
        pure (failed "memory provider is not declared by plugin"))
      else (do
        response ← execute_plugin_action name "memory_provider" provider (
            in_gateway (
              world.execute_with_timeout p "call_memory_provider" (
                obj (
                  field "provider_name" (str provider)
                    (field "operation" (str operation) (field "payload" payload end))))))
        note "plugin.memory_provider_call" (result_text response) name provider
            (("operation", str operation) ∷ [])
        pure response)

  unfoldable pub call_memory_provider : String → String → String → Value → Exec Engine Response
  call_memory_provider name provider operation payload =
      sandbox_of name >>= provider_call name provider operation payload

  -- What one middleware makes of the context: only an object may be handed on.
  abbrev next_context : Response → Exec Engine Fields
  next_context (failed e) = throw middleware_error e
  next_context (success (obj fields)) = pure fields
  next_context (success v) = throw middleware_error "middleware must return a dict"

  unfoldable pub run_middleware : String → InstalledPlugin → String → Fields → Exec Engine Fields
  run_middleware name p middleware current = do
    response ← execute_plugin_action name "middleware" middleware (
        in_gateway (
          world.execute_with_timeout p "run_middleware"
            (obj (field "middleware_name" (str middleware) (field "context" (obj current) end)))))
    note "plugin.middleware_call" (result_text response) name middleware []
    next_context response

  unfoldable pub run_plugin : String → InstalledPlugin → List String → Fields → Exec Engine Fields
  run_plugin name p [] current = pure current
  run_plugin name p (w ∷ ws) current = run_middleware name p w current >>= run_plugin name p ws

  -- The middlewares of each plugin that declares any, the plugins and their middlewares by name.
  abbrev run_entries : String → List String → Fields → Exec Engine Fields
  run_entries name [] current = pure current
  run_entries name (w ∷ ws) current =
      sandbox_of name >>= λ p. run_plugin name p (sorted_set (w ∷ ws)) current

  abbrev middlewares_of : Engine → String → List String
  middlewares_of e name = elim (Dict.get e.loader.loaded_plugins name) [
    | none ↦ []
    | some m ↦ Dict.keys (middleware_entries m)
  ]

  -- The entries are those that the plugins had at the start.
  unfoldable pub run_named : Engine → List String → Fields → Exec Engine Fields
  run_named before [] current = pure current
  run_named before (name ∷ names) current =
      run_entries name (middlewares_of before name) current >>= run_named before names

  unfoldable pub run_middlewares : Fields → Exec Engine Fields
  run_middlewares context e = run_named e (sorted_set (Dict.keys e.loader.loaded_plugins)) context e
