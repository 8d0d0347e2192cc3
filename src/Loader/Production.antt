-- ===== src/Loader/Production.antt =====
-- What modules/plugin_system/loader.py asks of an installed plugin before it runs in production.
use humanoid_agi_plugin_syst.Prelude.{
  String, Bool, false, not, ◌&&◌, Option, none, some, ◌==◌, if◌then◌else◌,
}
use humanoid_agi_plugin_syst.Prelude.Effects.{Result, and_then, return, failure, package_error}
use humanoid_agi_plugin_syst.Models.{
  Value, str, obj, Fields, value_eq, truthy, PluginMetadata, InstalledPlugin, is_trusted,
  is_third_party, effective_run_mode, is_sub_process,
}
use humanoid_agi_plugin_syst.Loader.Integrity.{IntegrityStatus, skipped, success, get_or_null}

-- `_validate_package_lock_policy`: `lock` is `none` where there is no lock file, and otherwise what
-- reading and verifying it comes to.
unfoldable pub validate_package_lock_policy :
    Bool → PluginMetadata → Option (Result (Unit {0})) → Result (Unit {0})
validate_package_lock_policy production m none =
    if production && is_third_party m
    then failure package_error "production mode requires a package lock"
    else return tt
validate_package_lock_policy production m (some verified) = verified

-- `not package_hash or signature.get("hash") != package_hash`, the other way round.
abbrev pub is_hash_of : Value → Option String → Bool
is_hash_of v none = false
is_hash_of v (some h) = not (h == "") && value_eq v (str h)

unfoldable pub check_signature_record : Value → Option String → Result IntegrityStatus
check_signature_record (obj signature) package_hash =
    if not (value_eq (get_or_null signature "algorithm") (str "Ed25519-SHA256"))
    then failure package_error "production mode requires Ed25519-SHA256 signatures"
    else if not (is_hash_of (get_or_null signature "hash") package_hash)
    then failure package_error "production plugin signature hash does not match installed package"
    else if not (truthy (get_or_null signature "signature"))
    then failure package_error "production plugin signature payload is missing signature"
    else return success
check_signature_record v package_hash =
    failure package_error "production mode requires a signature record"

-- PluginLoader.verify_production_install_policy, of the plugin, its manifest, its lock, and what the
-- rules on dependencies come to: the status of the report.
unfoldable pub verify_production_install_policy :
    Bool
    → InstalledPlugin
    → Fields
    → Option (Result (Unit {0}))
    → Result (Unit {0})
    → Result IntegrityStatus
unfolding validate_package_lock_policy check_signature_record
verify_production_install_policy production p manifest lock dependencies =
    if is_trusted p.metadata
    then return skipped
    else if not (is_sub_process (effective_run_mode p.metadata))
    then failure package_error "production mode requires third-party plugin to run in sub_process"
    else and_then (validate_package_lock_policy production p.metadata lock) (λ _.
      and_then dependencies
        (λ _. check_signature_record (get_or_null manifest "signature") p.package_hash))
