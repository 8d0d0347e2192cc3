-- ===== src/Policy/Install.antt =====
-- What the install decisions of modules/plugin_system/policy.py let through.
use humanoid_agi_plugin_syst.Prelude.{
  ℕ, ◌-◌, ◌*◌, ◌≤◌, String, ◌≡◌, ◌≢◌, ◌↔◌, refl, ap, sym, ◌∙◌, Bool, true, false, not, ◌&&◌, ◌||◌,
  Option, none, some, List, [], ◌∷◌, ◌++◌, arith, any, eq_iff, if◌then◌else◌, Bool-cases,
  Option-cases, inl, inr,
}
use humanoid_agi_plugin_syst.Prelude.Effects.{return}
use humanoid_agi_plugin_syst.Prelude.Text.{has_char, strip}
use humanoid_agi_plugin_syst.Audit.{Log}
use humanoid_agi_plugin_syst.Models.{
  PluginMetadata, is_third_party, is_in_process, effective_run_mode,
}
use humanoid_agi_plugin_syst.Policy.Types.{
  pass, PolicyDecision, PluginPolicy, Platform, ScanReport, validate_scan_report,
}
use humanoid_agi_plugin_syst.Policy.Engine.{
  is_fail, when, fail_for, or_pass, scan_decisions, SourceFiles, base_metadata_decisions,
  install_decisions, audit_decisions, enforce, evaluate_install,
}

pub any-append :
    (p : PolicyDecision → Bool) (xs ys : List PolicyDecision)
    → any p (xs ++ ys) ≡ (any p xs || any p ys)
any-append p [] ys = refl
any-append p (x ∷ xs) ys = ground (arith, any-append p xs ys)

pub any-or_pass :
    (m : PluginMetadata) (action : String) (ds : List PolicyDecision)
    → any is_fail (or_pass m action ds) ≡ any is_fail ds
any-or_pass m action [] = refl
any-or_pass m action (d ∷ ds) = refl

-- The report names its scanner and version, its own decision is `pass`, and its date is in reach.
pub record ReportPasses (now max_age_hours : ℕ) (r : ScanReport) : Type 0 where
  pub named : strip r.scanner_name ≢ ""
  pub known : strip r.scanner_name ≢ "unknown"
  pub versioned : strip r.scanner_version ≢ ""
  pub decided : strip r.policy_decision ≡ "pass"
  pub dated : (t : ℕ) × (r.generated_at ≡ some t) × (now - t ≤ max_age_hours * 3600)

-- A scan report passes exactly if it names its scanner and version, its own decision is `pass`,
-- and its date is valid and at most `max_age_hours` old.
pub validate_scan_report-pass :
    (now max_age_hours : ℕ) (r : ScanReport)
    → ((validate_scan_report now (some r) max_age_hours).status ≡ pass)
      ↔ ReportPasses now max_age_hours r
validate_scan_report-pass now hours r = (passes, accepted)
  where
    dated_of :
        (validate_scan_report now (some r) hours).status ≡ pass
        → (t : ℕ) × (r.generated_at ≡ some t) × (now - t ≤ hours * 3600)
    dated_of h = elim (Option-cases r.generated_at) [
      | inl e ↦ unfold validate_scan_report in ground arith
      | inr (t, e) ↦ (t, e, unfold validate_scan_report in ground arith)
    ]

    passes : (validate_scan_report now (some r) hours).status ≡ pass → ReportPasses now hours r
    passes h = record {
      named = λ e. unfold validate_scan_report in ground (arith, eq_iff (strip r.scanner_name) "");
      known = λ e.
          unfold validate_scan_report in ground (arith, eq_iff (strip r.scanner_name) "unknown");
      versioned =
          λ e. unfold validate_scan_report in ground (arith, eq_iff (strip r.scanner_version) "");
      decided =
          unfold validate_scan_report in ground (arith, eq_iff (strip r.policy_decision) "pass");
      dated = dated_of h;
    }

    accepted : ReportPasses now hours r → (validate_scan_report now (some r) hours).status ≡ pass
    accepted p =
        unfold validate_scan_report in
        ground (
          arith,
          p.dated.1,
          p.dated.2,
          eq_iff (strip r.scanner_name) "",
          eq_iff (strip r.scanner_name) "unknown",
          eq_iff (strip r.scanner_version) "",
          eq_iff (strip r.policy_decision) "pass",
        )

-- What the policy asks of every plugin, and of a third-party plugin in production.
pub record InstallAllowed (policy : PluginPolicy) (now : ℕ) (m : PluginMetadata)
    (files : SourceFiles) (production signed : Bool) (report : Option ScanReport) : Type 0 where
  pub released : has_char b'-' m.version ≡ true → policy.allow_prerelease ≡ true
  pub isolated :
      production && is_third_party m ≡ true
      → is_in_process (effective_run_mode m) ≡ true
      → policy.third_party_allow_in_process ≡ true
  pub has_signature :
      production && is_third_party m ≡ true
      → policy.third_party_require_signature ≡ true
      → signed ≡ true
  pub locked :
      production && is_third_party m ≡ true
      → policy.third_party_require_lockfile ≡ true
      → files.has_lock ≡ true
  pub listed :
      production && is_third_party m ≡ true
      → policy.third_party_require_sbom ≡ true
      → files.has_sbom ≡ true
  pub scanned :
      production && is_third_party m ≡ true
      → policy.third_party_require_scan_pass ≡ true
      → (r : ScanReport) × (report ≡ some r) × ((validate_scan_report now report 24).status ≡ pass)

pub enforce_iff : (ds : List PolicyDecision) → (enforce ds ≡ return tt) ↔ (any is_fail ds ≡ false)
unfolding enforce
enforce_iff ds = elim (Bool-cases (any is_fail ds)) [
  | inl e ↦ ((λ h. ground arith), λ h. ground arith)
  | inr e ↦ ((λ h. e), λ h. rw e)
]

abbrev scan_fails : ℕ → Option ScanReport → Bool
scan_fails now none = true
scan_fails now (some r) = elim (validate_scan_report now (some r) 24).status [
  | pass ↦ false
  | _ ↦ true
]

pub any-when :
    (b : Bool) (m : PluginMetadata) (action reason : String)
    → any is_fail (when b (fail_for m action reason)) ≡ b
any-when true m action reason = refl
any-when false m action reason = refl

pub any-if :
    (b : Bool) (ds : List PolicyDecision)
    → any is_fail (if b then ds else []) ≡ (b && any is_fail ds)
any-if true ds = refl
any-if false ds = refl

any-scan_decisions :
    (policy : PluginPolicy) (now : ℕ) (m : PluginMetadata) (report : Option ScanReport)
    → any is_fail (scan_decisions policy now m report) ≡ scan_fails now report
unfolding scan_decisions
any-scan_decisions policy now m none = refl
any-scan_decisions policy now m (some r) = ground arith

pub ruleset failures = (any-append, any-when, any-if)

-- Whether one of the install decisions is a failure.
install_fails :
    (policy : PluginPolicy) (platform : Platform) (now : ℕ) (m : PluginMetadata)
    (files : SourceFiles) (production signed : Bool) (report : Option ScanReport)
    → any is_fail (install_decisions policy platform now m files production signed report) ≡ (
        ((not policy.allow_prerelease && has_char b'-' m.version)
          || (production
              && is_third_party m
              && ((not policy.third_party_allow_in_process && is_in_process (effective_run_mode m))
                  || false)))
        || (production
            && is_third_party m
            && ((policy.third_party_require_signature && not signed)
                || ((policy.third_party_require_lockfile && not files.has_lock)
                    || ((policy.third_party_require_sbom && not files.has_sbom)
                        || (policy.third_party_require_scan_pass && scan_fails now report))))))
unfolding install_decisions base_metadata_decisions
install_fails policy platform now m files production signed report =
    simp (failures, any-scan_decisions)

guard : (a b : Bool) → (a ≡ true → b ≡ true) → (a && not b) ≡ false
guard a b h = ground arith

guard_not : (a b : Bool) → (b ≡ true → a ≡ true) → (not a && b) ≡ false
guard_not a b h = ground arith

module _ (policy : PluginPolicy) (platform : Platform) (now : ℕ) (m : PluginMetadata)
    (files : SourceFiles) (production signed : Bool) (report : Option ScanReport) where
  abbrev decisions : List PolicyDecision
  decisions = install_decisions policy platform now m files production signed report

  scanned_of :
      scan_fails now report ≡ false
      → (r : ScanReport) × (report ≡ some r) × ((validate_scan_report now report 24).status ≡ pass)
  scanned_of h = elim (Option-cases report) [
    | inl e ↦ ground arith
    | inr (r, e) ↦ (r, e, ground arith)
  ]

  allowed_of :
      any is_fail decisions ≡ false → InstallAllowed policy now m files production signed report
  allowed_of h =
      let e = sym (install_fails policy platform now m files production signed report) ∙ h in
      record {
        released = λ a. ground arith;
        isolated = λ a b. ground arith;
        has_signature = λ a b. ground arith;
        locked = λ a b. ground arith;
        listed = λ a b. ground arith;
        scanned = λ a b. scanned_of (ground arith);
      }

  unscanned :
      (policy.third_party_require_scan_pass ≡ true
        → (r : ScanReport) × (report ≡ some r)
          × ((validate_scan_report now report 24).status ≡ pass))
      → (policy.third_party_require_scan_pass && scan_fails now report) ≡ false
  unscanned h = elim (Bool-cases policy.third_party_require_scan_pass) [
    | inl needed ↦ ground (arith, (h needed).1, (h needed).2)
    | inr free ↦ rw free
  ]

  fails_of :
      InstallAllowed policy now m files production signed report → any is_fail decisions ≡ false
  fails_of a =
      install_fails policy platform now m files production signed report
      ∙ elim (Bool-cases (production && is_third_party m)) [
        | inl gated ↦ rw (
          gated,
          guard_not policy.allow_prerelease (has_char b'-' m.version) a.released,
          guard_not policy.third_party_allow_in_process _ (a.isolated gated),
          guard policy.third_party_require_signature signed (a.has_signature gated),
          guard policy.third_party_require_lockfile files.has_lock (a.locked gated),
          guard policy.third_party_require_sbom files.has_sbom (a.listed gated),
          unscanned (a.scanned gated),
        )
        | inr open_gate ↦
            rw (open_gate, guard_not policy.allow_prerelease (has_char b'-' m.version) a.released)
      ]

  -- The evaluation of an install is enforced without an error exactly if the plugin is allowed by
  -- the policy: no pre-release, and, for a third-party plugin in production, no in-process run, a
  -- signature, a lock, an SBOM and a passing scan report, each where the policy asks for it.
  pub evaluate_install-enforced :
      (log : Log) (ds : List PolicyDecision)
      → (evaluate_install policy platform now m files production signed report log).0 ≡ return ds
      → (enforce ds ≡ return tt) ↔ InstallAllowed policy now m files production signed report
  unfolding evaluate_install audit_decisions
  evaluate_install-enforced log ds h =
      let same : or_pass m "install" decisions ≡ ds = cc in
      let failing : any is_fail ds ≡ any is_fail decisions =
        ap (any is_fail) (sym same) ∙ any-or_pass m "install" decisions in
      (
        λ e. allowed_of (sym failing ∙ (enforce_iff ds).0 e),
        λ a. (enforce_iff ds).1 (failing ∙ fails_of a),
      )
