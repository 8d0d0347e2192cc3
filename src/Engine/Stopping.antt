-- ===== src/Engine/Stopping.antt =====
-- What is left of the sandbox of a plugin that modules/plugin_system/engine.py disables, quarantines
-- or revokes.
use mathlib.Core.List.{append-nil}
use humanoid_agi_plugin_syst.Prelude.{
  String, ◌≡◌, refl, sym, ap, ◌∙◌, ◌++◌, List, [], ◌∷◌, some_inj, Option-cases, Option, none, some,
  inl, inr, eq_refl,
}
use humanoid_agi_plugin_syst.Prelude.Dict
use humanoid_agi_plugin_syst.Prelude.Dict.{Dict, get-pop}
use humanoid_agi_plugin_syst.Prelude.Effects.{
  Exec, Exception, return, raise, Keeps, keeps_rules, Result-cases, modify, ◌>>=◌,
}
use humanoid_agi_plugin_syst.Models.{Value, InstalledPlugin}
use humanoid_agi_plugin_syst.Gateway.{register_plugin, unregister_sandbox}
use humanoid_agi_plugin_syst.Loader.{Loader}
use humanoid_agi_plugin_syst.Engine.State.{
  Engine, on_loader, on_gateway, note, announce, stop_sandbox,
}
use humanoid_agi_plugin_syst.Engine.Lifecycle.{
  unregister_event_listeners, finish, stop_plugin, disable, quarantine, revoke,
}

-- What became of the sandbox of a plugin between two states: the engine has none, its `stop` was
-- called once if there was one, and where that returned, the gateway has none either.
abbrev pub at_most_one : Option InstalledPlugin → List InstalledPlugin
at_most_one none = []
at_most_one (some p) = p ∷ []

pub record IsStopped (name : String) (before after : Engine) : Type 0 where
  pub no_sandbox : Dict.get after.sandboxes name ≡ none
  pub stop_called :
      after.stop_calls ≡ before.stop_calls ++ at_most_one (Dict.get before.sandboxes name)
  pub unregistered :
      (p : InstalledPlugin)
      → Dict.get before.sandboxes name ≡ some p
      → before.stopping p ≡ return tt
      → Dict.get after.gateway.active_sandboxes name ≡ none

module _ (name : String) (e : Engine) where
  on_loader-IsStopped : {A : Type 0} (m : Exec Loader A) → Keeps (IsStopped name e) (on_loader m)
  unfolding on_loader
  on_loader-IsStopped m = record {
    at = λ s h. record {
      no_sandbox = h.no_sandbox;
      stop_called = h.stop_called;
      unregistered = h.unregistered;
    };
  }

  register-IsStopped :
      (p : InstalledPlugin) → Keeps (IsStopped name e) (on_gateway (register_plugin p))
  unfolding on_gateway modify register_plugin
  register-IsStopped p = record {
    at = λ s h. record {
      no_sandbox = h.no_sandbox;
      stop_called = h.stop_called;
      unregistered = h.unregistered;
    };
  }

  note-IsStopped :
      (event result plugin action : String) (d : Dict Value)
      → Keeps (IsStopped name e) (note event result plugin action d)
  unfolding note on_gateway modify
  note-IsStopped event result plugin action d = record {
    at = λ s h. record {
      no_sandbox = h.no_sandbox;
      stop_called = h.stop_called;
      unregistered = h.unregistered;
    };
  }

  announce-IsStopped : (event plugin : String) → Keeps (IsStopped name e) (announce event plugin)
  unfolding announce modify
  announce-IsStopped event plugin = record {
    at = λ s h. record {
      no_sandbox = h.no_sandbox;
      stop_called = h.stop_called;
      unregistered = h.unregistered;
    };
  }

  ruleset stopped_rules =
      (keeps_rules, on_loader-IsStopped, register-IsStopped, note-IsStopped, announce-IsStopped)

  finish-IsStopped :
      (event action default : String) (actor reason : Option String) (p : InstalledPlugin)
      → Keeps (IsStopped name e) (finish event action default name actor reason p)
  unfolding finish
  finish-IsStopped event action default actor reason p = search stopped_rules depth 12

  ruleset closing_rules = (stopped_rules, finish-IsStopped)

  get-pop_self : (d : Dict InstalledPlugin) → Dict.get (Dict.pop d name) name ≡ none
  get-pop_self d = rw (get-pop d name name, eq_refl name) refl

  stop_plugin_stops : IsStopped name e (stop_plugin name e).1
  unfolding stop_plugin unregister_event_listeners stop_sandbox unregister_sandbox on_gateway note
      announce modify ◌>>=◌
  stop_plugin_stops = elim (Option-cases (Dict.get e.sandboxes name)) [
    | inl q ↦ rw q (record {
      no_sandbox = get-pop_self e.sandboxes;
      stop_called = rw q (sym (append-nil e.stop_calls));
      unregistered = λ p found. let same : none ≡ some p = sym q ∙ found in cc;
    })
    | inr (p, q) ↦ elim (Result-cases (e.stopping p)) [
      | inl (u, ok) ↦
          rw (q, ok)
            (record {
              no_sandbox = get-pop_self e.sandboxes;
              stop_called = rw q refl;
              unregistered = λ r found done. get-pop_self _;
            })
      | inr (x, failed) ↦
          rw (q, failed)
            (record {
              no_sandbox = get-pop_self e.sandboxes;
              stop_called = rw q refl;
              unregistered = λ r found done. other_end p r x q found failed done;
            })
    ]
  ]
    where
      other_end :
          {P : Type 0} (p r : InstalledPlugin) (x : Exception)
          → Dict.get e.sandboxes name ≡ some p
          → Dict.get e.sandboxes name ≡ some r
          → e.stopping p ≡ raise x
          → e.stopping r ≡ return tt
          → P
      other_end p r x q found failed done =
          let same : p ≡ r = some_inj (sym q ∙ found) in
          let both : raise x ≡ return tt = sym failed ∙ ap e.stopping same ∙ done in cc

  -- What follows the stop, if it returns, keeps what the stop has brought about.
  after_stop :
      {B : Type 0} (f : Unit {0} → Exec Engine B)
      → ((a : Unit {0}) → Keeps (IsStopped name e) (f a))
      → IsStopped name e ((stop_plugin name >>= f) e).1
  unfolding ◌>>=◌
  after_stop f hf = elim (Result-cases (stop_plugin name e).0) [
    | inl (a, h) ↦ rw h ((hf a).at _ stop_plugin_stops)
    | inr (x, h) ↦ rw h stop_plugin_stops
  ]

  -- However disabling, quarantining or revoking a plugin ends, with a result or an exception, the
  -- engine has no sandbox of the plugin afterwards, `stop` was called on the sandbox that it had, once
  -- and on no other, and if stopping that process returned, the gateway has no active sandbox of the
  -- plugin.
  pub close-IsStopped :
      (actor reason : Option String)
      → IsStopped name e (disable name actor reason e).1
        × IsStopped name e (quarantine name actor reason e).1
        × IsStopped name e (revoke name actor reason e).1
  unfolding disable quarantine revoke
  close-IsStopped actor reason = (
    after_stop _ (λ _. search closing_rules),
    after_stop _ (λ _. search closing_rules),
    after_stop _ (λ _. search closing_rules),
  )
