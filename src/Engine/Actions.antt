-- ===== src/Engine/Actions.antt =====
-- The limits on the actions of plugins in modules/plugin_system/engine.py: the status, the permits,
-- and the circuit breaker.
use humanoid_agi_plugin_syst.Prelude.{
  ℕ, ◌+◌, ◌-◌, String, Bool, false, not, ◌||◌, Option, none, some, [], ◌∷◌, leb, ltb, nat_eq,
  if◌then◌else◌,
}
use humanoid_agi_plugin_syst.Prelude.Dict
use humanoid_agi_plugin_syst.Prelude.Dict.{Dict}
use humanoid_agi_plugin_syst.Prelude.Effects.{
  Exec, Result, return, raise, failure, value_error, ◌>>=◌, ◌>>◌, pure, gets, modify,
}
use humanoid_agi_plugin_syst.Models.{str, enabled, status_eq, PluginMetadata, InstalledPlugin}
use humanoid_agi_plugin_syst.Gateway.{Response, success, failed}
use humanoid_agi_plugin_syst.Engine.State.{RuntimeState, Engine, note, set_object}
use humanoid_agi_plugin_syst.Engine.Lifecycle.{disable}

abbrev pub concurrency_of : Option PluginMetadata → ℕ
concurrency_of none = 1
concurrency_of (some m) = m.runtime.max_concurrency

-- The state at hand serves if its limit is still that of the plugin.
abbrev pub serves : Engine → Option PluginMetadata → ℕ → Bool
serves e none i = false
serves e (some m) i = nat_eq (e.objects i).max_concurrency m.runtime.max_concurrency

abbrev pub new_state : ℕ → RuntimeState
new_state max = record { max_concurrency = max; permits = max; consecutive_failures = 0 }

unfoldable pub fresh_state : String → Option PluginMetadata → Exec Engine ℕ
unfolding set_object
fresh_state name m e =
    let i = e.next_object in
    let e' = set_object i (new_state (concurrency_of m)) e in
    (return i, record e' { next_object = i + 1; runtime_states = Dict.put e.runtime_states name i })

-- `_runtime_state_for`, which returns the number of the object.
unfoldable pub runtime_state_for : String → Exec Engine ℕ
runtime_state_for name e =
    let m = Dict.get e.loader.loaded_plugins name in
    elim (Dict.get e.runtime_states name) [
      | none ↦ fresh_state name m e
      | some i ↦ if serves e m i then (return i, e) else fresh_state name m e
    ]

unfoldable pub set_failures : ℕ → ℕ → Engine → Engine
unfolding set_object
set_failures i n e = set_object i (record (e.objects i) { consecutive_failures = n }) e

unfoldable pub record_plugin_success : String → String → String → Exec Engine (Unit {0})
record_plugin_success name action_type action = do
  i ← runtime_state_for name
  modify (set_failures i 0)
  note "plugin.runtime_success" "success" name action (("action_type", str action_type) ∷ [])

abbrev pub threshold_of : Option PluginMetadata → ℕ
threshold_of none = 3
threshold_of (some m) = m.runtime.failure_threshold

abbrev pub has_breaker : Option PluginMetadata → Bool
has_breaker none = false
has_breaker (some m) = m.runtime.disable_on_failure_threshold

-- Disables the plugin once its failures in a row have reached the threshold.
unfoldable pub trip : String → String → String → ℕ → Option PluginMetadata → Exec Engine (Unit {0})
trip name action_type action failures m =
    if not (has_breaker m) || ltb failures (threshold_of m) then pure tt else (do
      disable name none none
      note "plugin.circuit_opened" "error" name action (("action_type", str action_type) ∷ []))

unfoldable pub record_plugin_failure : String → String → String → String → Exec Engine (Unit {0})
record_plugin_failure name action_type action error = do
  i ← runtime_state_for name
  modify (λ e. set_failures i ((e.objects i).consecutive_failures + 1) e)
  m ← gets (λ e. Dict.get e.loader.loaded_plugins name)
  note "plugin.runtime_failure" "error" name action
      (("action_type", str action_type) ∷ ("error", str error) ∷ [])
  failures ← gets (λ e. (e.objects i).consecutive_failures)
  trip name action_type action failures m

abbrev pub is_enabled : Option InstalledPlugin → Bool
is_enabled none = false
is_enabled (some p) = status_eq p.status enabled

unfoldable pub set_permits : ℕ → ℕ → Engine → Engine
unfolding set_object
set_permits i n e = set_object i (record (e.objects i) { permits = n }) e

-- A bounded semaphore raises where it is released too often.
unfoldable pub release : ℕ → Engine → Result (Unit {0}) × Engine
release i e =
    if leb (e.objects i).max_concurrency (e.objects i).permits
    then (failure value_error "Semaphore released too many times", e)
    else (return tt, set_permits i ((e.objects i).permits + 1) e)

unfoldable pub record_outcome : String → String → String → Response → Exec Engine Response
record_outcome name action_type action (success v) =
    record_plugin_success name action_type action >> pure (success v)
record_outcome name action_type action (failed error) =
    record_plugin_failure name action_type action error >> pure (failed error)

-- `try: body finally: semaphore.release()`.
unfoldable pub releasing : ℕ → Exec Engine Response → Exec Engine Response
releasing i body e =
    let (r, e') = body e in
    let (released, e'') = release i e' in
    elim released [ return u ↦ (r, e'') | raise x ↦ (raise x, e'') ]

unfoldable pub with_permit :
    String → String → String → Exec Engine Response → ℕ → Exec Engine Response
with_permit name action_type action runner i e =
    if nat_eq (e.objects i).permits 0
    then (do
      note "plugin.concurrency_rejected" "error" name action (("action_type", str action_type) ∷ [])
      pure (failed "plugin concurrency limit exceeded"))
        e
    else releasing i (runner >>= record_outcome name action_type action)
        (set_permits i ((e.objects i).permits - 1) e)

-- `_execute_plugin_action`: the runner is the call of the sandbox, whose answers other than a dict
-- count as failed.
unfoldable pub execute_plugin_action :
    String → String → String → Exec Engine Response → Exec Engine Response
execute_plugin_action name action_type action runner = do
  p ← gets (λ e. Dict.get e.loader.installed_plugins name)
  if is_enabled p
      then (runtime_state_for name >>= with_permit name action_type action runner)
      else (do
        note "plugin.action_denied" "error" name action (("action_type", str action_type) ∷ [])
        pure (failed "plugin is not enabled"))
