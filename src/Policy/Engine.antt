-- ===== src/Policy/Engine.antt =====
-- `PolicyEngine` of modules/plugin_system/policy.py. Its state is the audit log that it writes to.
use humanoid_agi_plugin_syst.Prelude.{
  ℕ, String, Bool, true, false, not, ◌&&◌, Option, none, some, List, [], ◌∷◌, ◌++◌, any, is_empty,
  if◌then◌else◌,
}
use humanoid_agi_plugin_syst.Prelude.Effects.{
  Exec, Result, return, failure, policy_error, ◌>>=◌, pure,
}
use humanoid_agi_plugin_syst.Prelude.Names.{inter}
use humanoid_agi_plugin_syst.Prelude.Text.{has_char}
use humanoid_agi_plugin_syst.Audit.{Entry, Log}
use humanoid_agi_plugin_syst.Models.{
  PluginMetadata, requested_permissions, is_third_party, is_in_process, effective_run_mode, str,
}
use humanoid_agi_plugin_syst.Policy.Types.{
  Verdict, pass, warn, fail, PolicyDecision, decision_value, PluginPolicy, Platform, linux, win32,
  other, ScanReport, validate_scan_report,
}

-- `_fail`.
abbrev pub fail_for : PluginMetadata → String → String → PolicyDecision
fail_for m action reason = record {
  status = fail;
  reason = reason;
  action = action;
  plugin = some m.name;
  severity = "high";
  production_blocking = true;
}

-- `if test: decisions.append(d)`.
abbrev pub when : Bool → PolicyDecision → List PolicyDecision
when true d = d ∷ []
when false d = []

abbrev pub is_fail : PolicyDecision → Bool
is_fail d = elim d.status [ pass ↦ false | warn ↦ false | fail ↦ true ]

abbrev pub is_warn : PolicyDecision → Bool
is_warn d = elim d.status [ pass ↦ false | warn ↦ true | fail ↦ false ]

-- What `_source_has_file` finds in the source.
pub record SourceFiles : Type 0 where
  pub has_lock : Bool
  pub has_sbom : Bool

module _ (policy : PluginPolicy) where
  unfoldable pub platform_decisions : Platform → PluginMetadata → List PolicyDecision
  platform_decisions linux m = []
  platform_decisions win32 m =
      when (not policy.windows_third_party_production_allowed)
        (fail_for m "metadata" "Windows third-party production is not allowed by policy")
  platform_decisions other m =
      fail_for m "metadata" "Linux is required for third-party production" ∷ []

  unfoldable pub base_metadata_decisions :
      Platform → PluginMetadata → Bool → Bool → List PolicyDecision
  unfolding platform_decisions
  base_metadata_decisions platform m production_mode include_platform =
      when (not policy.allow_prerelease && has_char b'-' m.version)
        (fail_for m "metadata" "pre-release versions are not allowed by policy")
      ++ (if production_mode && is_third_party m
          then when
              (not policy.third_party_allow_in_process && is_in_process (effective_run_mode m))
              (fail_for m "metadata" "third-party production plugins cannot run in-process")
            ++ (if include_platform && policy.linux_required_for_third_party_production
                then platform_decisions platform m
                else [])
          else [])

  unfoldable pub scan_decisions : ℕ → PluginMetadata → Option ScanReport → List PolicyDecision
  scan_decisions now m none =
      fail_for m "install" "third-party production install requires passing scan report" ∷ []
  scan_decisions now m (some r) =
      let d = validate_scan_report now (some r) 24 in
      elim d.status [ pass ↦ [] | _ ↦ fail_for m "install" d.reason ∷ [] ]

  -- What `evaluate_install` gathers before it audits it.
  unfoldable pub install_decisions :
      Platform
      → ℕ
      → PluginMetadata
      → SourceFiles
      → Bool
      → Bool
      → Option ScanReport
      → List PolicyDecision
  install_decisions platform now m files production_mode signed scan_report =
      base_metadata_decisions platform m production_mode false
      ++ (if production_mode && is_third_party m
          then when (policy.third_party_require_signature && not signed)
              (fail_for m "install" "third-party production install requires signature")
            ++ (when (policy.third_party_require_lockfile && not files.has_lock)
                  (fail_for m "install" "third-party production install requires manifest.lock")
                ++ (when (policy.third_party_require_sbom && not files.has_sbom)
                      (fail_for m "install" "third-party production install requires SBOM")
                    ++ (if policy.third_party_require_scan_pass
                        then scan_decisions now m scan_report
                        else [])))
          else [])

  unfoldable pub enable_decisions :
      Platform → PluginMetadata → List String → Bool → Bool → List PolicyDecision
  enable_decisions platform m granted admin_approved production_mode =
      base_metadata_decisions platform m production_mode false
      ++ (when (not (is_empty (inter (requested_permissions m) policy.deny_permissions)))
            (fail_for m "enable" "permissions denied by organization policy")
          ++ when
              (not (
                  is_empty
                    (inter (requested_permissions m ++ granted) policy.require_admin_approval))
                && not admin_approved)
              (fail_for m "enable" "admin approval required for permissions"))

  unfoldable pub start_decisions :
      Platform → PluginMetadata → Bool → Bool → Bool → List PolicyDecision
  start_decisions platform m production_mode sandbox_enforced audit_checkpoint_configured =
      base_metadata_decisions platform m production_mode true
      ++ (if production_mode && is_third_party m
          then when (policy.third_party_require_sandbox && not sandbox_enforced)
              (fail_for m "start" "third-party production start requires enforced sandbox")
            ++ when (policy.require_audit_checkpoint && not audit_checkpoint_configured) (record {
              status = warn;
              reason = "audit checkpoint anchor is not configured";
              action = "start";
              plugin = some m.name;
              severity = "high";
              production_blocking = false;
            })
          else [])

abbrev outcome : Verdict → String
outcome pass = "success"
outcome fail = "error"
outcome warn = "skipped"

abbrev pub decision_entry : PluginMetadata → PolicyDecision → Entry
decision_entry m d = record {
  event = "plugin.policy_decision";
  result = outcome d.status;
  plugin = some m.name;
  action = d.action;
  details = decision_value d ++ ("version", str m.version) ∷ [];
}

unfoldable pub log_decisions : PluginMetadata → List PolicyDecision → Log → Log
log_decisions m [] log = log
log_decisions m (d ∷ ds) log = log_decisions m ds (log ++ decision_entry m d ∷ [])

abbrev pub or_pass : PluginMetadata → String → List PolicyDecision → List PolicyDecision
or_pass m action [] =
    record {
      status = pass;
      reason = "policy passed";
      action = action;
      plugin = some m.name;
      severity = "info";
      production_blocking = false;
    }
    ∷ []
or_pass m action (d ∷ ds) = d ∷ ds

unfoldable pub audit_decisions :
    List PolicyDecision → PluginMetadata → String → Exec Log (List PolicyDecision)
unfolding log_decisions
audit_decisions ds m action log =
    (return (or_pass m action ds), log_decisions m (or_pass m action ds) log)

unfoldable pub enforce : List PolicyDecision → Result (Unit {0})
enforce ds = if any is_fail ds then failure policy_error "policy failed" else return tt

module _ (policy : PluginPolicy) (platform : Platform) (now : ℕ) where
  unfoldable pub evaluate_install :
      PluginMetadata
      → SourceFiles
      → Bool
      → Bool
      → Option ScanReport
      → Exec Log (List PolicyDecision)
  evaluate_install m files production_mode signed scan_report =
      audit_decisions
        (install_decisions policy platform now m files production_mode signed scan_report) m
        "install"

  unfoldable pub evaluate_enable :
      PluginMetadata → List String → Bool → Bool → Exec Log (List PolicyDecision)
  evaluate_enable m granted admin_approved production_mode =
      audit_decisions (enable_decisions policy platform m granted admin_approved production_mode) m
        "enable"

  unfoldable pub evaluate_start :
      PluginMetadata → Bool → Bool → Bool → Exec Log (List PolicyDecision)
  evaluate_start m production_mode sandbox_enforced audit_checkpoint_configured =
      audit_decisions
        (start_decisions policy platform m production_mode sandbox_enforced
          audit_checkpoint_configured)
        m "start"

  -- `check_source`: the verdict and the decisions.
  unfoldable pub check_source :
      PluginMetadata
      → SourceFiles
      → Bool
      → Bool
      → Option ScanReport
      → Exec Log (Verdict × List PolicyDecision)
  check_source m files production_mode signed scan_report = do
    installs ← evaluate_install m files production_mode signed scan_report
    enables ← evaluate_enable m (requested_permissions m) false production_mode
    let ds = installs ++ enables
    pure (if any is_fail ds then fail else if any is_warn ds then warn else pass, ds)
