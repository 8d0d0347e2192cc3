-- ===== src/Examples/Rules.antt =====
-- The theorems on modules/plugin_system/policy.py at small inputs.
use humanoid_agi_plugin_syst.Prelude.{
  List, ◌≡◌, ◌↔◌, refl, not, ◌&&◌, ◌||◌, true, false, some, [], ◌∷◌,
}
use humanoid_agi_plugin_syst.Prelude.Effects.{return}
use humanoid_agi_plugin_syst.Models.{is_third_party}
use humanoid_agi_plugin_syst.Policy.{
  ScanReport, linux, default_policy, pass, SourceFiles, PolicyDecision, install_decisions,
  enable_decisions, start_decisions, or_pass, audit_decisions, evaluate_install, evaluate_enable,
  evaluate_start, enforce, validate_scan_report,
}
use humanoid_agi_plugin_syst.Policy.Install.{
  ReportPasses, InstallAllowed, validate_scan_report-pass, evaluate_install-enforced,
}
use humanoid_agi_plugin_syst.Policy.Access.{
  prerelease_barred, in_process_barred, denied, risky, platform_barred, evaluate_enable-enforced,
  evaluate_start-enforced,
}
use humanoid_agi_plugin_syst.Examples.Samples.{calc}

abbrev pub report : ScanReport
report = record {
  scanner_name = "scan";
  scanner_version = "2";
  generated_at = some 100;
  policy_decision = "pass";
}

validate_scan_report-pass_example :
    ((validate_scan_report 200 (some report) 24).status ≡ pass) ↔ ReportPasses 200 24 report
validate_scan_report-pass_example = validate_scan_report-pass 200 24 report

abbrev pub files : SourceFiles
files = record { has_lock = true; has_sbom = true }

abbrev installs : List PolicyDecision
installs =
    or_pass calc "install"
      (install_decisions default_policy linux 200 calc files true true (some report))

installing :
    (evaluate_install default_policy linux 200 calc files true true (some report) []).0
    ≡ return installs
unfolding evaluate_install audit_decisions
installing = refl

evaluate_install-enforced_example :
    (enforce installs ≡ return tt)
    ↔ InstallAllowed default_policy 200 calc files true true (some report)
evaluate_install-enforced_example =
    evaluate_install-enforced default_policy linux 200 calc files true true (some report) []
      installs installing

abbrev enables : List PolicyDecision
enables =
    or_pass calc "enable"
      (enable_decisions default_policy linux calc ("memory.read" ∷ []) false true)

enabling :
    (evaluate_enable default_policy linux 200 calc ("memory.read" ∷ []) false true []).0
    ≡ return enables
unfolding evaluate_enable audit_decisions
enabling = refl

evaluate_enable-enforced_example : (enforce enables ≡ return tt) ↔ (
    (prerelease_barred default_policy calc
      || in_process_barred default_policy calc true
      || denied default_policy calc
      || (risky default_policy calc ("memory.read" ∷ []) && not false))
    ≡ false)
evaluate_enable-enforced_example =
    evaluate_enable-enforced default_policy linux 200 calc [] ("memory.read" ∷ []) false true
      enables enabling

abbrev begins : List PolicyDecision
begins = or_pass calc "start" (start_decisions default_policy linux calc true true false)

beginning : (evaluate_start default_policy linux 200 calc true true false []).0 ≡ return begins
unfolding evaluate_start audit_decisions
beginning = refl

evaluate_start-enforced_example : (enforce begins ≡ return tt) ↔ (
    (prerelease_barred default_policy calc
      || in_process_barred default_policy calc true
      || platform_barred default_policy linux 200 calc [] true
      || (true && is_third_party calc && (default_policy.third_party_require_sandbox && not true)))
    ≡ false)
evaluate_start-enforced_example =
    evaluate_start-enforced default_policy linux 200 calc [] true true false begins beginning
