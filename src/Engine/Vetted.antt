-- ===== src/Engine/Vetted.antt =====
-- Which third-party plugins modules/plugin_system/engine.py starts in production.
use humanoid_agi_plugin_syst.Prelude.{
  String, ◌≡◌, refl, Bool, true, false, not, Option, none, some, inl, inr, arith, Bool-cases,
  Option-cases, not-false,
}
use humanoid_agi_plugin_syst.Prelude.Dict
use humanoid_agi_plugin_syst.Prelude.Effects.{
  and_then-eq-return, guard-eq-return, return, Exec, Returns-bind, Keeps, Keeps-bind, keeps_rules,
  Returns-throw, continue-eq-return, ◌>>=◌,
}
use humanoid_agi_plugin_syst.Models.{
  Value, null, bool, num, str, arr, obj, Fields, value_eq, truthy, enabled, status_eq,
  PluginMetadata, InstalledPlugin, is_trusted, is_third_party, effective_run_mode, is_sub_process,
}
use humanoid_agi_plugin_syst.Loader.{Loader, discover_installed}
use humanoid_agi_plugin_syst.Loader.Integrity.{IntegrityStatus, get_or_null}
use humanoid_agi_plugin_syst.Loader.Production.{
  is_hash_of, validate_package_lock_policy, check_signature_record,
  verify_production_install_policy,
}
use humanoid_agi_plugin_syst.Engine.State.{Engine, World, on_loader}
use humanoid_agi_plugin_syst.Engine.Calls.{
  find_plugin, found_or_key_error, validate_production_start_policy, production_checks, start_found,
  start_record, start_plugin,
}
use humanoid_agi_plugin_syst.Engine.Starting.{checked-Returns, start_plugin-MayRun}

-- The signature record in the manifest: an object that names the algorithm, has the hash of the
-- installed package, and a signature.
pub record IsSigned (manifest : Fields) (package_hash : Option String) : Type 0 where
  pub signature : Fields
  pub recorded : get_or_null manifest "signature" ≡ obj signature
  pub algorithm : value_eq (get_or_null signature "algorithm") (str "Ed25519-SHA256") ≡ true
  pub hash : is_hash_of (get_or_null signature "hash") package_hash ≡ true
  pub signed : truthy (get_or_null signature "signature") ≡ true

-- What holds of a third-party plugin that starts in production.
pub record IsVetted (world : World) (p : InstalledPlugin) : Type 0 where
  pub isolated : is_sub_process (effective_run_mode p.metadata) ≡ true
  pub reviewed : p.permission_review.required ≡ false
  pub dependencies : world.dependency_policy p ≡ return tt
  pub signature : IsSigned (world.manifest_in p) p.package_hash

check_signature_record-IsSigned :
    (manifest : Fields) (v : Value) (h : Option String) (report : IntegrityStatus)
    → get_or_null manifest "signature" ≡ v
    → check_signature_record v h ≡ return report
    → IsSigned manifest h
unfolding check_signature_record
check_signature_record-IsSigned manifest (obj fs) h report e r =
    let (named, r1) =
      guard-eq-return (not (value_eq (get_or_null fs "algorithm") (str "Ed25519-SHA256"))) _ _ r in
    let (hashed, r2) = guard-eq-return (not (is_hash_of (get_or_null fs "hash") h)) _ _ r1 in
    let (signed, _) = guard-eq-return (not (truthy (get_or_null fs "signature"))) _ _ r2 in
    record {
      signature = fs;
      recorded = e;
      algorithm = not-false _ named;
      hash = not-false _ hashed;
      signed = not-false _ signed;
    }
check_signature_record-IsSigned manifest null h report e r = cc
check_signature_record-IsSigned manifest (bool b) h report e r = cc
check_signature_record-IsSigned manifest (num n) h report e r = cc
check_signature_record-IsSigned manifest (str s) h report e r = cc
check_signature_record-IsSigned manifest (arr vs) h report e r = cc

validate_production_start_policy-pass :
    (p : InstalledPlugin)
    → is_third_party p.metadata ≡ true
    → validate_production_start_policy p ≡ return tt
    → (is_sub_process (effective_run_mode p.metadata) ≡ true)
      × (p.permission_review.required ≡ false)
unfolding validate_production_start_policy
validate_production_start_policy-pass p third h = (ground arith, ground arith)

trusted-third_party :
    (p : InstalledPlugin) → is_third_party p.metadata ≡ true → is_trusted p.metadata ≡ false
unfolding is_third_party is_trusted
trusted-third_party p third = ground arith

module _ (world : World) where
  install_policy-pass :
      (production : Bool) (p : InstalledPlugin) (report : IntegrityStatus)
      → is_third_party p.metadata ≡ true
      → is_sub_process (effective_run_mode p.metadata) ≡ true
      → verify_production_install_policy production p
          (world.manifest_in p)
          (world.package_lock p)
          (world.dependency_policy p)
        ≡ return report
      → (world.dependency_policy p ≡ return tt) × IsSigned (world.manifest_in p) p.package_hash
  unfolding verify_production_install_policy
  install_policy-pass production p report third isolated h =
      let h' = rw (trusted-third_party p third, isolated) at h in
      let (_, locked, h1) =
        and_then-eq-return
          (validate_package_lock_policy production p.metadata (world.package_lock p)) _ h' in
      let (_, allowed, h2) = and_then-eq-return (world.dependency_policy p) _ h1 in
      (
        allowed,
        check_signature_record-IsSigned (world.manifest_in p) _ p.package_hash report refl h2,
      )

  production_checks-IsVetted :
      (name : String) (p : InstalledPlugin) (s : Engine) {u : Unit {0}}
      → is_third_party p.metadata ≡ true
      → (production_checks world name p true s).0 ≡ return u
      → IsVetted world p
  unfolding production_checks ◌>>=◌
  production_checks-IsVetted name p s {u} third h =
      let (_, policy, h1) = continue-eq-return (validate_production_start_policy p) _ s h in
      let (isolated, reviewed) = validate_production_start_policy-pass p third policy in
      let (report, accepted) = (checked-Returns _ _ name _).holds s u h1 in
      let (dependencies, signature) =
        install_policy-pass s.loader.production_mode p report third isolated accepted in
      record {
        isolated = isolated;
        reviewed = reviewed;
        dependencies = dependencies;
        signature = signature;
      }

  checks_on-IsVetted :
      (name : String) (p : InstalledPlugin) (s : Engine) (production : Bool) {u : Unit {0}}
      → production ≡ true
      → is_third_party p.metadata ≡ true
      → (production_checks world name p production s).0 ≡ return u
      → IsVetted world p
  checks_on-IsVetted name p s true on third h = production_checks-IsVetted name p s third h
  checks_on-IsVetted name p s false on third h = cc

  start_found-IsVetted :
      (name : String) (p : InstalledPlugin) (s : Engine) {q : InstalledPlugin}
      → s.production_mode ≡ true
      → is_third_party p.metadata ≡ true
      → (start_found world name p s).0 ≡ return q
      → IsVetted world p
  unfolding start_found ◌>>=◌
  start_found-IsVetted name p s production third h =
      let (_, checks, _) =
        continue-eq-return (production_checks world name p s.production_mode s).0 _ _ h in
      checks_on-IsVetted name p s s.production_mode production third checks

  start_record-IsVetted :
      (name : String) (p q : InstalledPlugin) (s : Engine)
      → s.production_mode ≡ true
      → is_third_party p.metadata ≡ true
      → (start_record world name (some p) s).0 ≡ return q
      → IsVetted world p
  unfolding start_record
  start_record-IsVetted name p q s production third h =
      elim (Bool-cases (status_eq p.status enabled)) [
        | inl on ↦ start_found-IsVetted name p s production third (rw on at h)
        | inr off ↦
            (Returns-bind {Q = λ _. IsVetted world p} _ _ (λ _. Returns-throw _ _)).holds s q
              (rw off at h)
      ]

  on_loader-mode :
      {A : Type 0} (mode : Bool) (m : Exec Loader A)
      → Keeps (λ s. s.production_mode ≡ mode) (on_loader m)
  unfolding on_loader
  on_loader-mode mode m = record { at = λ s h. h }

  found_or_key_error-mode :
      (mode : Bool) (m : Option PluginMetadata)
      → Keeps (λ s. s.production_mode ≡ mode) (found_or_key_error m)
  found_or_key_error-mode mode none = search keeps_rules
  found_or_key_error-mode mode (some m) = search keeps_rules

  find_plugin-mode :
      (name : String) (mode : Bool) → Keeps (λ s. s.production_mode ≡ mode) (find_plugin name)
  unfolding find_plugin
  find_plugin-mode name mode = record {
    at = λ e h. elim (Option-cases (Dict.get e.loader.loaded_plugins name)) [
      | inr (m, q) ↦ rw (q, find_plugin) h
      | inl q ↦
          rw (q, find_plugin)
            ((Keeps-bind (on_loader discover_installed) _ (on_loader-mode mode discover_installed)
                (λ _. Keeps-bind _ _ (search keeps_rules) (found_or_key_error-mode mode))).at
              e h)
    ];
  }

-- A third-party plugin that is started in production runs in a process of its own, has no review of
-- its permissions outstanding and dependencies that the rules allow, and its manifest has a signature
-- record with the right algorithm, the hash of the installed package, and a signature.
pub start_plugin-IsVetted :
    (world : World) (name : String) (e : Engine) (p : InstalledPlugin)
    → e.production_mode ≡ true
    → is_third_party p.metadata ≡ true
    → (start_plugin world name e).0 ≡ return p
    → IsVetted world p
unfolding start_plugin ◌>>=◌
start_plugin-IsVetted world name e p production third h =
    let (_, _, rest) = continue-eq-return (find_plugin name e).0 _ (find_plugin name e).1 h in
    vetted (find_plugin name e).1 ((find_plugin-mode world name true).at e production)
      (start_plugin-MayRun world name e p h).held rest
  where
    vetted :
        (s : Engine)
        → s.production_mode ≡ true
        → Dict.get s.loader.installed_plugins name ≡ some p
        → (start_record world name (Dict.get s.loader.installed_plugins name) s).0 ≡ return p
        → IsVetted world p
    vetted s on held r = start_record-IsVetted world name p p s on third (rw held at r)
