-- ===== src/Policy/Access.antt =====
-- What the enable and start decisions of modules/plugin_system/policy.py refuse.
use humanoid_agi_plugin_syst.Prelude.{
  ℕ, String, ◌≡◌, ◌↔◌, sym, ap, ◌∙◌, Bool, true, false, not, ◌&&◌, ◌||◌, List, ◌++◌, arith, any,
  is_empty,
}
use humanoid_agi_plugin_syst.Prelude.Effects.{return}
use humanoid_agi_plugin_syst.Prelude.Names.{inter}
use humanoid_agi_plugin_syst.Prelude.Text.{has_char}
use humanoid_agi_plugin_syst.Audit.{Log}
use humanoid_agi_plugin_syst.Models.{
  PluginMetadata, requested_permissions, is_third_party, is_in_process, effective_run_mode,
}
use humanoid_agi_plugin_syst.Policy.Types.{
  PolicyDecision, PluginPolicy, Platform, linux, win32, other,
}
use humanoid_agi_plugin_syst.Policy.Engine.{
  is_fail, or_pass, base_metadata_decisions, enable_decisions, start_decisions, audit_decisions,
  enforce, evaluate_enable, evaluate_start,
}
use humanoid_agi_plugin_syst.Policy.Install.{
  any-append, any-when, any-or_pass, enforce_iff, failures,
}

abbrev pub prerelease_barred : PluginPolicy → PluginMetadata → Bool
prerelease_barred policy m = not policy.allow_prerelease && has_char b'-' m.version

abbrev pub in_process_barred : PluginPolicy → PluginMetadata → Bool → Bool
in_process_barred policy m production =
    production
    && is_third_party m
    && (not policy.third_party_allow_in_process && is_in_process (effective_run_mode m))

abbrev pub denied : PluginPolicy → PluginMetadata → Bool
denied policy m = not (is_empty (inter (requested_permissions m) policy.deny_permissions))

abbrev pub risky : PluginPolicy → PluginMetadata → List String → Bool
risky policy m granted =
    not (is_empty (inter (requested_permissions m ++ granted) policy.require_admin_approval))

module _ (policy : PluginPolicy) (platform : Platform) (now : ℕ) (m : PluginMetadata)
    (log : Log) where
  enable_fails :
      (granted : List String) (approved production : Bool)
      → any is_fail (enable_decisions policy platform m granted approved production) ≡ (
          (prerelease_barred policy m
            || (production
                && is_third_party m
                && ((not policy.third_party_allow_in_process
                      && is_in_process (effective_run_mode m))
                    || false)))
          || (denied policy m || (risky policy m granted && not approved)))
  unfolding enable_decisions base_metadata_decisions
  enable_fails granted approved production = simp failures

  -- Enabling is refused exactly if the version is a barred pre-release, the plugin would run in the
  -- host where it may not, it asks for a denied permission, or it has a permission that wants an
  -- administrator's approval and there is none.
  pub evaluate_enable-enforced :
      (granted : List String) (approved production : Bool) (ds : List PolicyDecision)
      → (evaluate_enable policy platform now m granted approved production log).0 ≡ return ds
      → (enforce ds ≡ return tt) ↔ (
          (prerelease_barred policy m
            || in_process_barred policy m production
            || denied policy m
            || (risky policy m granted && not approved))
          ≡ false)
  unfolding evaluate_enable audit_decisions
  evaluate_enable-enforced granted approved production ds h =
      let same : or_pass m "enable" (enable_decisions policy platform m granted approved production)
          ≡ ds =
        cc in
      let failing =
        ap (any is_fail) (sym same)
        ∙ any-or_pass m "enable" (enable_decisions policy platform m granted approved production)
        ∙ enable_fails granted approved production in
      (λ e. ground (arith, (enforce_iff ds).0 e), λ e. (enforce_iff ds).1 (ground arith))

  abbrev pub platform_barred : Bool → Bool
  platform_barred production =
      production
      && is_third_party m
      && (policy.linux_required_for_third_party_production && elim platform [
        | linux ↦ false
        | win32 ↦ not policy.windows_third_party_production_allowed
        | other ↦ true
      ])

  start_fails :
      (production enforced anchored : Bool)
      → any is_fail (start_decisions policy platform m production enforced anchored) ≡ (
          prerelease_barred policy m
          || in_process_barred policy m production
          || platform_barred production
          || (production
              && is_third_party m
              && (policy.third_party_require_sandbox && not enforced)))
  unfolding start_decisions base_metadata_decisions
  start_fails production enforced anchored = simp (any-append, any-when) (ground arith)

  -- Starting is refused exactly if the version is a barred pre-release, or a third-party plugin in
  -- production would run in the host where it may not, on a platform that is not allowed, or without
  -- an enforced sandbox where the policy asks for one; a missing audit checkpoint refuses nothing.
  pub evaluate_start-enforced :
      (production enforced anchored : Bool) (ds : List PolicyDecision)
      → (evaluate_start policy platform now m production enforced anchored log).0 ≡ return ds
      → (enforce ds ≡ return tt) ↔ (
          (prerelease_barred policy m
            || in_process_barred policy m production
            || platform_barred production
            || (production
                && is_third_party m
                && (policy.third_party_require_sandbox && not enforced)))
          ≡ false)
  unfolding evaluate_start audit_decisions
  evaluate_start-enforced production enforced anchored ds h =
      let same : or_pass m "start" (start_decisions policy platform m production enforced anchored)
          ≡ ds =
        cc in
      let failing =
        ap (any is_fail) (sym same)
        ∙ any-or_pass m "start" (start_decisions policy platform m production enforced anchored)
        ∙ start_fails production enforced anchored in
      (λ e. sym failing ∙ (enforce_iff ds).0 e, λ e. (enforce_iff ds).1 (failing ∙ e))
