-- ===== src/Engine/Permits.antt =====
-- Which permits the semaphores of modules/plugin_system/engine.py have left, and the steps of the
-- engine that leave them alone.
use humanoid_agi_plugin_syst.Prelude.{
  ℕ, ◌≤◌, ◌<◌, String, ◌≡◌, sym, true, not, ◌||◌, ltb, Option, none, some, arith, nat_eq, inl, inr,
  Bool-cases, Option-cases,
}
use humanoid_agi_plugin_syst.Prelude.Dict
use humanoid_agi_plugin_syst.Prelude.Dict.{Dict}
use humanoid_agi_plugin_syst.Prelude.Effects.{Exec, Keeps, keeps_rules, modify}
use humanoid_agi_plugin_syst.Models.{Value, PluginMetadata, InstalledPlugin}
use humanoid_agi_plugin_syst.Gateway.{Gateway, Response, success, failed}
use humanoid_agi_plugin_syst.Loader.{Loader}
use humanoid_agi_plugin_syst.Engine.State.{
  Engine, on_loader, on_gateway, note, announce, stop_sandbox, set_object,
}
use humanoid_agi_plugin_syst.Engine.Lifecycle.{
  unregister_event_listeners, finish, stop_found, stop_plugin, disable,
}
use humanoid_agi_plugin_syst.Engine.Actions.{
  serves, fresh_state, runtime_state_for, set_failures, record_plugin_success, threshold_of,
  has_breaker, trip, record_plugin_failure, record_outcome,
}

pub nat_eq→eq : (j i : ℕ) → nat_eq j i ≡ true → j ≡ i
nat_eq→eq j i h = ground arith

-- The first `n` objects have these permits and these limits.
pub record Held (n : ℕ) (permits limit : ℕ → ℕ) (e : Engine) : Type 0 where
  pub known : n ≤ e.next_object
  pub left : (j : ℕ) → j < n → (e.objects j).permits ≡ permits j
  pub limits : (j : ℕ) → j < n → (e.objects j).max_concurrency ≡ limit j

module _ {n : ℕ} {permits limit : ℕ → ℕ} where
  on_loader-Held : {A : Type 0} (m : Exec Loader A) → Keeps (Held n permits limit) (on_loader m)
  unfolding on_loader
  on_loader-Held m = record {
    at = λ e h. record { known = h.known; left = h.left; limits = h.limits };
  }

  on_gateway-Held : (f : Gateway → Gateway) → Keeps (Held n permits limit) (on_gateway f)
  unfolding on_gateway modify
  on_gateway-Held f = record {
    at = λ e h. record { known = h.known; left = h.left; limits = h.limits };
  }

  note-Held :
      (event result plugin action : String) (d : Dict Value)
      → Keeps (Held n permits limit) (note event result plugin action d)
  unfolding note
  note-Held event result plugin action d = on_gateway-Held _

  announce-Held : (event plugin : String) → Keeps (Held n permits limit) (announce event plugin)
  unfolding announce modify
  announce-Held event plugin = record {
    at = λ e h. record { known = h.known; left = h.left; limits = h.limits };
  }

  stop_sandbox-Held : (p : InstalledPlugin) → Keeps (Held n permits limit) (stop_sandbox p)
  unfolding stop_sandbox
  stop_sandbox-Held p = record {
    at = λ e h. record { known = h.known; left = h.left; limits = h.limits };
  }

  ruleset held_rules =
      (keeps_rules, on_loader-Held, on_gateway-Held, note-Held, announce-Held, stop_sandbox-Held)

  unregister-Held :
      (name : String) → Keeps (Held n permits limit) (modify (unregister_event_listeners name))
  unfolding modify unregister_event_listeners
  unregister-Held name = record {
    at = λ e h. record { known = h.known; left = h.left; limits = h.limits };
  }

  pop_sandbox-Held :
      (name : String)
      → Keeps
          (Held n permits limit)
          (modify (λ e. record e { sandboxes = Dict.pop e.sandboxes name }))
  unfolding modify
  pop_sandbox-Held name = record {
    at = λ e h. record { known = h.known; left = h.left; limits = h.limits };
  }

  stop_found-Held :
      (name : String) (p : Option InstalledPlugin)
      → Keeps (Held n permits limit) (stop_found name p)
  stop_found-Held name none = search held_rules
  stop_found-Held name (some p) = search held_rules depth 12

  stop_plugin-Held : (name : String) → Keeps (Held n permits limit) (stop_plugin name)
  unfolding stop_plugin
  stop_plugin-Held name =
      search (held_rules, unregister-Held, pop_sandbox-Held, stop_found-Held) depth 12

  finish-Held :
      (event action default name : String) (actor reason : Option String) (p : InstalledPlugin)
      → Keeps (Held n permits limit) (finish event action default name actor reason p)
  unfolding finish
  finish-Held event action default name actor reason p = search held_rules depth 12

  disable-Held :
      (name : String) (actor reason : Option String)
      → Keeps (Held n permits limit) (disable name actor reason)
  unfolding disable
  disable-Held name actor reason = search (held_rules, stop_plugin-Held, finish-Held) depth 12

  trip-Held :
      (name action_type action : String) (failures : ℕ) (m : Option PluginMetadata)
      → Keeps (Held n permits limit) (trip name action_type action failures m)
  unfolding trip
  trip-Held name action_type action failures m =
      elim (Bool-cases (not (has_breaker m) || ltb failures (threshold_of m))) [
        | inl e ↦ rw e (search held_rules)
        | inr e ↦ rw e (search (held_rules, disable-Held))
      ]

  fresh_state-Held :
      (name : String) (m : Option PluginMetadata)
      → Keeps (Held n permits limit) (fresh_state name m)
  unfolding fresh_state set_object
  fresh_state-Held name m = record {
    at = λ e h. record {
      known = omega (arith, h.known);
      left = λ j l. ground (arith, h.known, h.left j l);
      limits = λ j l. ground (arith, h.known, h.limits j l);
    };
  }

  pub runtime_state_for-Held :
      (name : String) → Keeps (Held n permits limit) (runtime_state_for name)
  unfolding runtime_state_for
  runtime_state_for-Held name = record {
    at = λ e h. elim (Option-cases (Dict.get e.runtime_states name)) [
      | inl a ↦ rw (a, runtime_state_for) ((fresh_state-Held name _).at e h)
      | inr (i, a) ↦ elim (Bool-cases (serves e (Dict.get e.loader.loaded_plugins name) i)) [
        | inl b ↦ rw (a, b, runtime_state_for) h
        | inr b ↦ rw (a, b, runtime_state_for) ((fresh_state-Held name _).at e h)
      ]
    ];
  }

  set_failures-Held :
      (i : ℕ) (f : Engine → ℕ) → Keeps (Held n permits limit) (modify (λ e. set_failures i (f e) e))
  unfolding modify set_failures set_object
  set_failures-Held i f = record {
    at = λ e h. record {
      known = h.known;
      left = λ j l. elim (Bool-cases (nat_eq j i)) [
        | inl q ↦ let same = nat_eq→eq j i q in rw (q, sym same) (h.left j l)
        | inr q ↦ rw q (h.left j l)
      ];
      limits = λ j l. elim (Bool-cases (nat_eq j i)) [
        | inl q ↦ let same = nat_eq→eq j i q in rw (q, sym same) (h.limits j l)
        | inr q ↦ rw q (h.limits j l)
      ];
    };
  }

  reset-Held : (i : ℕ) → Keeps (Held n permits limit) (modify (set_failures i 0))
  reset-Held i = set_failures-Held i (λ _. 0)

  record_plugin_success-Held :
      (name action_type action : String)
      → Keeps (Held n permits limit) (record_plugin_success name action_type action)
  unfolding record_plugin_success
  record_plugin_success-Held name action_type action =
      search (held_rules, runtime_state_for-Held, reset-Held) depth 12

  record_plugin_failure-Held :
      (name action_type action error : String)
      → Keeps (Held n permits limit) (record_plugin_failure name action_type action error)
  unfolding record_plugin_failure
  record_plugin_failure-Held name action_type action error =
      search (held_rules, runtime_state_for-Held, set_failures-Held, trip-Held) depth 20

  pub record_outcome-Held :
      (name action_type action : String) (response : Response)
      → Keeps (Held n permits limit) (record_outcome name action_type action response)
  unfolding record_outcome
  record_outcome-Held name action_type action (success v) =
      search (held_rules, record_plugin_success-Held)
  record_outcome-Held name action_type action (failed x) =
      search (held_rules, record_plugin_failure-Held)
