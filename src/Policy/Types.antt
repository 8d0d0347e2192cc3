-- ===== src/Policy/Types.antt =====
-- `PluginPolicy`, `PolicyDecision` and `validate_scan_report` of modules/plugin_system/policy.py.
use humanoid_agi_plugin_syst.Prelude.{
  ℕ, ◌-◌, ◌*◌, String, Bool, true, false, not, ◌||◌, Option, none, some, List, [], ◌∷◌, ltb, ◌==◌,
  if◌then◌else◌,
}
use humanoid_agi_plugin_syst.Prelude.Dict.{Dict}
use humanoid_agi_plugin_syst.Prelude.Text.{strip}
use humanoid_agi_plugin_syst.Models.{Value, str, null, bool}

pub data Verdict : Type 0 where
  pass warn fail : Verdict

pub record PolicyDecision : Type 0 where
  pub status : Verdict
  pub reason : String
  pub action : String
  pub plugin : Option String
  pub severity : String
  pub production_blocking : Bool

abbrev pub verdict_value : Verdict → String
verdict_value pass = "pass"
verdict_value warn = "warn"
verdict_value fail = "fail"

abbrev optional_text : Option String → Value
optional_text none = null
optional_text (some s) = str s

-- `decision.to_dict()`, less its `details`, which stay empty.
unfoldable pub decision_value : PolicyDecision → Dict Value
decision_value d =
    ("status", str (verdict_value d.status))
    ∷ ("reason", str d.reason)
    ∷ ("action", str d.action)
    ∷ ("plugin", optional_text d.plugin)
    ∷ ("severity", str d.severity)
    ∷ ("production_blocking", bool d.production_blocking)
    ∷ []

-- The fields that the program reads.
pub record PluginPolicy : Type 0 where
  pub deny_permissions : List String
  pub require_admin_approval : List String
  pub third_party_require_signature : Bool
  pub third_party_require_sandbox : Bool
  pub third_party_allow_in_process : Bool
  pub third_party_require_sbom : Bool
  pub third_party_require_lockfile : Bool
  pub third_party_require_scan_pass : Bool
  pub allow_prerelease : Bool
  pub linux_required_for_third_party_production : Bool
  pub windows_third_party_production_allowed : Bool
  pub require_audit_checkpoint : Bool

abbrev pub default_policy : PluginPolicy
default_policy = record {
  deny_permissions = [];
  require_admin_approval = "network.outbound" ∷ "fs.write" ∷ "memory.write" ∷ "output.send" ∷ [];
  third_party_require_signature = true;
  third_party_require_sandbox = true;
  third_party_allow_in_process = false;
  third_party_require_sbom = true;
  third_party_require_lockfile = true;
  third_party_require_scan_pass = true;
  allow_prerelease = false;
  linux_required_for_third_party_production = true;
  windows_third_party_production_allowed = false;
  require_audit_checkpoint = true;
}

-- `sys.platform`.
pub data Platform : Type 0 where
  linux win32 other : Platform

-- A report that is not empty; `generated_at` is in seconds, and `none` if it is no ISO date.
pub record ScanReport : Type 0 where
  pub scanner_name : String
  pub scanner_version : String
  pub generated_at : Option ℕ
  pub policy_decision : String

abbrev scan_result : Verdict → String → String → Bool → PolicyDecision
scan_result status reason severity blocking = record {
  status = status;
  reason = reason;
  action = "scan";
  plugin = none;
  severity = severity;
  production_blocking = blocking;
}

abbrev scan_failed : String → PolicyDecision
scan_failed reason = scan_result fail reason "high" true

abbrev check_age : ℕ → ℕ → Option ℕ → PolicyDecision
check_age now max_age_hours none = scan_failed "scan report generated_at is invalid"
check_age now max_age_hours (some timestamp) =
    if ltb (max_age_hours * 3600) (now - timestamp)
    then scan_failed "scan report is expired"
    else scan_result pass "scan report passed" "info" false

abbrev check_report : ℕ → ℕ → ScanReport → PolicyDecision
check_report now max_age_hours r =
    let name = strip r.scanner_name in
    if name == "" || name == "unknown" || strip r.scanner_version == ""
    then scan_failed "scan report has unknown scanner identity"
    else if not (strip r.policy_decision == "pass")
    then scan_failed "scan policy did not pass"
    else check_age now max_age_hours r.generated_at

-- The difference of times stops at 0, which is no age that expires.
unfoldable pub validate_scan_report : ℕ → Option ScanReport → ℕ → PolicyDecision
validate_scan_report now none max_age_hours = scan_failed "scan report is missing"
validate_scan_report now (some r) max_age_hours = check_report now max_age_hours r
