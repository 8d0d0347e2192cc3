-- ===== src/Loader/Install.antt =====
-- `install` of modules/plugin_system/loader.py, with its checks of the version, the signature and
-- the organization's policy, and `load_from_directory`. What the archive or the folder holds and the
-- work on its files are a parameter.
use humanoid_agi_plugin_syst.Prelude.{
  false, ℕ, ◌*◌, String, Bool, not, ◌&&◌, ◌||◌, Option, none, some, [], is_some, ltb, ◌==◌,
  if◌then◌else◌,
}
use humanoid_agi_plugin_syst.Prelude.Dict
use humanoid_agi_plugin_syst.Prelude.Effects.{
  Exec, Result, return, raise, failure, package_error, ◌>>=◌, ◌>>◌, lift, raise_if, gets, modify,
  pure,
}
use humanoid_agi_plugin_syst.Policy.{
  PluginPolicy, Platform, ScanReport, SourceFiles, evaluate_install, enforce,
}
use humanoid_agi_plugin_syst.Models.{
  Status, revoked, pending_approval, status_eq, Decls, PluginMetadata, InstalledPlugin, Review,
  effective_run_mode, is_sub_process, is_trusted, is_third_party,
}
use humanoid_agi_plugin_syst.Loader.State.{
  Signature, Manifest, Loader, default_status, default_granted_permissions,
}
use humanoid_agi_plugin_syst.Loader.Review.{
  new_install_permission_review, preserve_granted_permissions, permission_review_for_upgrade,
}
use humanoid_agi_plugin_syst.Loader.Lifecycle.{is_plugin_version_revoked}

abbrev pub max_plugin_archive_bytes : ℕ
max_plugin_archive_bytes = 64 * (1024 * 1024)

-- What the steps of an installation that only read or move files find and do.
pub record Package : Type 0 where
  pub is_file : Bool
  pub bytes : ℕ
  pub hash : String
  pub unpack_and_validate : Result PluginMetadata
  pub files : SourceFiles
  pub lock_policy : Bool → PluginMetadata → Result (Unit {0})
  pub dependency_policy : Bool → PluginMetadata → Result (Unit {0})
  pub shipped_manifest : Manifest
  pub replace_tree : Result (Unit {0})
  pub prepare_environment : PluginMetadata → Result (Unit {0})

abbrev algorithm_checks : Bool → Signature → String → Result (Unit {0})
algorithm_checks production sig hash =
    if not (sig.algorithm == "Ed25519-SHA256" || sig.algorithm == "HMAC-SHA256")
    then failure package_error "unsupported plugin signature algorithm"
    else if production && sig.algorithm == "HMAC-SHA256"
    then failure package_error
        "production mode requires Ed25519-SHA256 signatures for third-party plugins"
    else if not (sig.hash == hash)
    then failure package_error "plugin signature hash does not match package"
    else if sig.signature == ""
    then failure package_error "plugin signature payload is missing signature"
    else return tt

abbrev signature_checks : Bool → Bool → Option Signature → String → Result (Unit {0})
signature_checks production required none hash =
    if required
    then failure package_error "third-party plugin requires a verified signature"
    else return tt
signature_checks production required (some sig) hash = algorithm_checks production sig hash

unfoldable pub validate_signature_policy :
    Loader → PluginMetadata → Option Signature → String → Result (Unit {0})
validate_signature_policy s m sig hash =
    if is_trusted m
    then return tt
    else if s.production_mode && not (is_sub_process (effective_run_mode m))
    then failure package_error "production mode requires third-party plugin to run in sub_process"
    else signature_checks s.production_mode s.require_signatures sig hash

-- The status, permissions and review of the plugin that is installed now, given the one before it.
unfoldable pub install_status : PluginMetadata → Option InstalledPlugin → Status
install_status m none = default_status m
install_status m (some previous) =
    if (permission_review_for_upgrade previous m).required
      && not (status_eq previous.status revoked)
    then pending_approval
    else previous.status

unfoldable pub install_granted : PluginMetadata → Option InstalledPlugin → Decls
install_granted m none = default_granted_permissions m
install_granted m (some previous) = preserve_granted_permissions previous m

unfoldable pub install_review : PluginMetadata → Option InstalledPlugin → Review
install_review m none = new_install_permission_review m
install_review m (some previous) = permission_review_for_upgrade previous m

-- The policy engine of the loader, if it has one: the policy, the platform and the time. The audit
-- entries of its evaluation go to its own logger, which the caller holds.
abbrev pub Policies : Type 0
Policies = Option (PluginPolicy × Platform × ℕ)

abbrev policy_check :
    Policies → PluginMetadata → SourceFiles → Bool → Bool → Option ScanReport → Result (Unit {0})
policy_check none m files production signed report = return tt
policy_check (some (policy, platform, now)) m files production signed report =
    elim (evaluate_install policy platform now m files production signed report ([])).0 [
      | return ds ↦ enforce ds
      | raise e ↦ raise e
    ]

abbrev pub path_of : PluginMetadata → String
path_of m = m.name

unfoldable pub write_install :
    Package
    → Option Signature
    → PluginMetadata
    → Option InstalledPlugin
    → Exec Loader PluginMetadata
write_install pkg sig m previous s =
    let p : InstalledPlugin = record {
      metadata = m;
      path = path_of m;
      package_hash = some pkg.hash;
      status = install_status m previous;
      granted_permissions = install_granted m previous;
      permission_review = install_review m previous;
    } in
    let manifest : Manifest = record {
      package_hash = some pkg.hash;
      unknown_status = false;
      status = some p.status;
      granted_permissions = p.granted_permissions;
      permission_review = some p.permission_review;
      signature = sig;
    } in
    (
      return m,
      record s {
        disk = Dict.put s.disk (path_of m) (record { metadata = some m; manifest = manifest });
        loaded_plugins = Dict.put s.loaded_plugins m.name m;
        installed_plugins = Dict.put s.installed_plugins m.name p;
      },
    )

-- The new tree of files stands in place of the old one. Its manifest is the one that the archive
-- itself carried, which the unpacking does not refuse.
unfoldable pub place_tree : Package → PluginMetadata → Exec Loader (Unit {0})
place_tree pkg m s = elim pkg.replace_tree [
  | raise e ↦ (raise e, s)
  | return u ↦ (
    return u,
    record s {
      disk =
          Dict.put s.disk (path_of m)
            (record { metadata = some m; manifest = pkg.shipped_manifest });
    },
  )
]

unfoldable pub install :
    Policies → Package → Bool → Option Signature → Option ScanReport → Exec Loader PluginMetadata
install policies pkg replace sig report = do
  raise_if (not pkg.is_file) package_error "package not found"
  raise_if (ltb max_plugin_archive_bytes pkg.bytes) package_error
      "plugin archive exceeds size limit"
  m ← lift pkg.unpack_and_validate
  governance ← gets (is_plugin_version_revoked m.name m.version)
  is_revoked ← lift governance
  raise_if is_revoked package_error "plugin version is revoked"
  signature_ok ← gets (λ s. validate_signature_policy s m sig pkg.hash)
  lift signature_ok
  production ← gets (λ s. s.production_mode)
  lift (pkg.lock_policy production m)
  lift (pkg.dependency_policy production m)
  lift (policy_check policies m pkg.files production (is_some sig) report)
  previous ← gets (λ s. Dict.get s.installed_plugins m.name)
  raise_if (is_some previous && not replace) package_error "plugin already installed"
  place_tree pkg m
  lift (pkg.prepare_environment m)
  write_install pkg sig m previous

-- `read` is the metadata of a folder that is there, or what finding it raises; `layout` is the check
-- of the folder. Nothing is written to disk.
unfoldable pub load_from_directory :
    String → Result PluginMetadata → Result (Unit {0}) → Exec Loader PluginMetadata
load_from_directory path read layout = do
  m ← lift read
  production ← gets (λ s. s.production_mode)
  raise_if (production && is_third_party m) package_error
      "production mode requires a signed package install for third-party plugin"
  lift layout
  modify (λ s. record s {
    loaded_plugins = Dict.put s.loaded_plugins m.name m;
    installed_plugins = Dict.put s.installed_plugins m.name (record {
      metadata = m;
      path = path;
      package_hash = none;
      status = default_status m;
      granted_permissions = default_granted_permissions m;
      permission_review = new_install_permission_review m;
    });
  })
  pure m
