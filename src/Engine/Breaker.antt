-- ===== src/Engine/Breaker.antt =====
-- The circuit breaker of modules/plugin_system/engine.py: when it disables a plugin.
use humanoid_agi_plugin_syst.Prelude.{
  ℕ, ◌+◌, String, ◌≡◌, refl, Bool, true, false, not, ◌&&◌, ◌||◌, nat_eq, Option, none, some, arith,
  leb, ltb, inl, inr, Bool-cases, Option-cases, if◌then◌else◌,
}
use humanoid_agi_plugin_syst.Prelude.Dict
use humanoid_agi_plugin_syst.Prelude.Effects.{return, pure, modify, ◌>>=◌}
use humanoid_agi_plugin_syst.Models.{disabled, allowed, PluginMetadata, InstalledPlugin}
use humanoid_agi_plugin_syst.Loader.{disable_plugin}
use humanoid_agi_plugin_syst.Loader.Transitions.{Holds, Moved, transition_status-Moved}
use humanoid_agi_plugin_syst.Engine.State.{
  Engine, on_loader, on_gateway, note, announce, stop_sandbox, set_object,
}
use humanoid_agi_plugin_syst.Engine.Lifecycle.{
  unregister_event_listeners, stop_plugin, finish, disable,
}
use humanoid_agi_plugin_syst.Engine.Actions.{
  runtime_state_for, set_failures, threshold_of, has_breaker, trip, record_plugin_failure,
}

-- Stopping the process of the plugin's sandbox, if it has one, does not raise.
abbrev pub Stops : String → Engine → Type 0
Stops name e = (q : InstalledPlugin) → Dict.get e.sandboxes name ≡ some q → e.stopping q ≡ return tt

stop_plugin-loader :
    (name : String) (e : Engine)
    → Stops name e
    → (e' : Engine) × (stop_plugin name e ≡ (return tt, e')) × (e'.loader ≡ e.loader)
unfolding stop_plugin unregister_event_listeners stop_sandbox on_gateway note announce modify ◌>>=◌
stop_plugin-loader name e stops = elim (Option-cases (Dict.get e.sandboxes name)) [
  | inl q ↦ rw q (_, refl, refl)
  | inr (p, q) ↦ rw (q, stops p q) (_, refl, refl)
]

-- Disabling a plugin that the loader holds with its folder, whose status may become disabled and
-- whose process, if it runs, stops without an exception, returns it disabled, and the loader holds it
-- as disabled, in memory and on disk.
pub disable-Moved :
    (name : String) (actor reason : Option String) (e : Engine) (p : InstalledPlugin)
    → Holds e.loader name p
    → allowed p.status disabled ≡ true
    → Stops name e
    → ((disable name actor reason e).0 ≡ return (record p { status = disabled }))
      × Moved (disable name actor reason e).1.loader name p disabled
unfolding disable on_loader finish on_gateway note announce modify disable_plugin ◌>>=◌
disable-Moved name actor reason e p h ok stops =
    let (e', stopped, same) = stop_plugin-loader name e stops in
    let (returned, moved) = transition_status-Moved name p e.loader h disabled ok in
    rw (stopped, same, returned) (refl, moved)

-- The failures in a row have reached the threshold of a plugin that has a circuit breaker.
abbrev pub reached : PluginMetadata → ℕ → Bool
reached m failures =
    m.runtime.disable_on_failure_threshold && leb m.runtime.failure_threshold failures

nat_eq_refl : (n : ℕ) → nat_eq n n ≡ true
nat_eq_refl n = ground arith

trip-opens :
    (name action_type action : String) (failures : ℕ) (m : PluginMetadata) (e : Engine)
    (p : InstalledPlugin)
    → reached m failures ≡ true
    → Holds e.loader name p
    → allowed p.status disabled ≡ true
    → Stops name e
    → ((trip name action_type action failures (some m) e).0 ≡ return tt)
      × Moved (trip name action_type action failures (some m) e).1.loader name p disabled
unfolding trip note on_gateway modify ◌>>=◌
trip-opens name action_type action failures m e p full h ok stops =
    let test : (not (has_breaker (some m)) || ltb failures (threshold_of (some m))) ≡ false =
      ground (arith, full) in
    let (returned, moved) = disable-Moved name none none e p h ok stops in
    rw (test, returned) (refl, moved)

trip-waits :
    (name action_type action : String) (failures : ℕ) (m : PluginMetadata) (e : Engine)
    → reached m failures ≡ false
    → trip name action_type action failures (some m) e ≡ (return tt, e)
unfolding trip pure
trip-waits name action_type action failures m e below =
    let test : (not (has_breaker (some m)) || ltb failures (threshold_of (some m))) ≡ true =
      ground (arith, below) in
    rw test refl

trip_outcome :
    (name action_type action : String) (failures : ℕ) (m : PluginMetadata) (e : Engine)
    (p : InstalledPlugin)
    → Holds e.loader name p
    → allowed p.status disabled ≡ true
    → Stops name e
    → ((trip name action_type action failures (some m) e).0 ≡ return tt)
      × (if reached m failures
          then Moved (trip name action_type action failures (some m) e).1.loader name p disabled
          else (trip name action_type action failures (some m) e).1.loader ≡ e.loader)
trip_outcome name action_type action failures m e p h ok stops =
    elim (Bool-cases (reached m failures)) [
      | inl full ↦ rw full (trip-opens name action_type action failures m e p full h ok stops)
      | inr below ↦ rw (below, trip-waits name action_type action failures m e below) (refl, refl)
    ]

-- A state of the plugin that is at hand and has the plugin's limit.
pub record AtHand (e : Engine) (name : String) (m : PluginMetadata) (i : ℕ) : Type 0 where
  pub metadata : Dict.get e.loader.loaded_plugins name ≡ some m
  pub found : Dict.get e.runtime_states name ≡ some i
  pub limit : (e.objects i).max_concurrency ≡ m.runtime.max_concurrency

runtime_state_for-AtHand :
    (name : String) (m : PluginMetadata) (i : ℕ) (e : Engine)
    → AtHand e name m i
    → runtime_state_for name e ≡ (return i, e)
unfolding runtime_state_for
runtime_state_for-AtHand name m i e h =
    let test : nat_eq (e.objects i).max_concurrency m.runtime.max_concurrency ≡ true =
      rw h.limit (nat_eq_refl _) in
    rw (h.found, runtime_state_for, h.metadata, test) refl

-- For a plugin whose runtime state is at hand, which the loader holds with its folder, whose status
-- may become disabled and whose process, if it runs, stops without an exception, recording a failure returns; if the failure brings the count to the
-- threshold of a circuit breaker, the plugin is disabled, in memory and on disk, and otherwise the
-- loader is as it was.
pub record_plugin_failure-breaker :
    (name action_type action error : String) (e : Engine) (m : PluginMetadata) (i : ℕ)
    (p : InstalledPlugin)
    → AtHand e name m i
    → Holds e.loader name p
    → allowed p.status disabled ≡ true
    → Stops name e
    → ((record_plugin_failure name action_type action error e).0 ≡ return tt)
      × (if reached m ((e.objects i).consecutive_failures + 1)
          then Moved
              (record_plugin_failure name action_type action error e).1.loader
              name
              p
              disabled
          else (record_plugin_failure name action_type action error e).1.loader ≡ e.loader)
unfolding record_plugin_failure note on_gateway modify set_failures set_object ◌>>=◌
record_plugin_failure-breaker name action_type action error e m i p at_hand h ok stops =
    rw (runtime_state_for-AtHand name m i e at_hand, at_hand.metadata, nat_eq_refl i)
      (trip_outcome name action_type action _ m _ p h ok stops)
