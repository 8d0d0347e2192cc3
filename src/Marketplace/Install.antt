-- ===== src/Marketplace/Install.antt =====
-- `install` of PluginRegistryClient in modules/plugin_system/marketplace.py: from the index of a
-- registry to the plugins' folder.
use humanoid_agi_plugin_syst.Prelude.{
  ℕ, String, Bool, true, false, not, ◌&&◌, ◌||◌, Option, none, some, List, length, contains, nat_eq,
  ◌==◌, if◌then◌else◌,
}
use humanoid_agi_plugin_syst.Prelude.Dict
use humanoid_agi_plugin_syst.Prelude.Dict.{Dict}
use humanoid_agi_plugin_syst.Prelude.Effects.{
  Exec, Result, and_then, return, ◌>>=◌, ◌>>◌, pure, lift, gets, modify,
}
use humanoid_agi_plugin_syst.Models.{
  Value, str, Fields, field?, truthy, PluginMetadata, InstalledPlugin,
}
use humanoid_agi_plugin_syst.Policy.{Platform, ScanReport, default_policy}
use humanoid_agi_plugin_syst.Loader.{
  Signature, Loader, Package, Policies, discover_installed, install, max_plugin_archive_bytes,
}
use humanoid_agi_plugin_syst.Signing.Store.{StoreFile, signature_algorithm}
use humanoid_agi_plugin_syst.Signing.Packages.{given, is_str, text_at}
use humanoid_agi_plugin_syst.Marketplace.Versions.{SemverKey, key_lt, semver_sort_key}
use humanoid_agi_plugin_syst.Marketplace.Entries.{RegistryEntry, refuse, is_seen, key_of_entry}
use humanoid_agi_plugin_syst.Marketplace.Sources.{
  RegistryIndex, RegistrySource, find, resolve_artifact_reference,
}
use humanoid_agi_plugin_syst.Marketplace.Client.{
  Host, Client, max_signature_bytes, as_registry_error, materialize_artifact,
  verify_signature_bytes, load_index,
}

-- The arguments of `install`.
pub record Request : Type 0 where
  pub name : String
  pub version : Option String
  pub public_key : Option String
  pub trust_store : Option StoreFile
  pub require_signature : Bool
  pub index_public_key : Option String
  pub index_trust_store : Option StoreFile
  pub require_index_signature : Bool
  pub allow_downgrade : Bool
  pub allow_same_version_reinstall : Bool
  pub production_mode : Bool
  pub scan_report : Option ScanReport

-- What is known of an entry after its artifacts were checked.
pub record Checked : Type 0 where
  pub index : RegistryIndex
  pub entry : RegistryEntry
  pub bytes : List ℕ
  pub signature : Option Fields

-- What is written into the manifest of the plugin under "registry", of the entry and the index.
pub record Provenance : Type 0 where
  pub index : String
  pub index_signature : Option Fields
  pub entry : RegistryEntry
  pub package_sha256 : String

-- The plugins' folder, as the loader finds it, with the provenance of the plugins.
pub record Plugins : Type 0 where
  pub loader : Loader
  pub provenance : Dict Provenance

abbrev pub or_else {ℓ} : {A : Type ℓ} → Option A → Option A → Option A
or_else none b = b
or_else (some a) b = some a

abbrev pub effective_require_signature : Request → Bool
effective_require_signature r = r.require_signature || r.production_mode

abbrev pub publisher_fits : Option String → Fields → Bool
publisher_fits none payload = true
publisher_fits (some publisher) payload =
    publisher == "" || is_str (field? payload "publisher") publisher

abbrev pub key_eq : SemverKey → SemverKey → Bool
key_eq a b =
    nat_eq a.major b.major
    && nat_eq a.minor b.minor
    && nat_eq a.patch b.patch
    && nat_eq a.release b.release
    && a.suffix == b.suffix

abbrev pub same_hash : Option String → String → Bool
same_hash none hash = false
same_hash (some h) hash = h == hash

abbrev pub rollback_checks :
    Request → InstalledPlugin → String → SemverKey → SemverKey → Result (Unit {0})
unfolding key_lt
rollback_checks r installed hash current requested =
    if key_lt requested current && not r.allow_downgrade
    then refuse "registry install would downgrade the plugin"
    else if key_eq requested current
        && not (same_hash installed.package_hash hash)
        && not r.allow_same_version_reinstall
    then refuse "registry install would replace the same version with different content"
    else return tt

module _ (host : Host) where
  abbrev pub signature_checks :
      Request → RegistryIndex → RegistryEntry → Fields → Result (Option Fields)
  signature_checks r index entry payload =
      if not (publisher_fits entry.publisher payload)
      then refuse "registry publisher does not match package signature"
      else if r.production_mode && not (is_str (field? payload "algorithm") signature_algorithm)
      then refuse "production registry install requires Ed25519-SHA256 package signatures"
      else if contains (text_at host.crypto payload "key_id") index.revoked_keys
      then refuse "registry publisher key is revoked"
      else return (some payload)

  unfoldable pub signature_from :
      Request
      → RegistryIndex
      → RegistryEntry
      → List ℕ
      → RegistrySource
      → String
      → Result (Option Fields)
  unfolding resolve_artifact_reference materialize_artifact verify_signature_bytes
  signature_from r index entry bytes source reference =
      and_then (resolve_artifact_reference host.python host.paths reference source ".sig") (λ ref.
        and_then (materialize_artifact host ref max_signature_bytes) (λ signature_bytes.
          and_then
            (as_registry_error (
              verify_signature_bytes host (host.sha256 bytes) signature_bytes r.public_key
                r.trust_store))
            (signature_checks r index entry)))

  abbrev pub signature_at :
      Request
      → RegistryIndex
      → RegistryEntry
      → List ℕ
      → RegistrySource
      → Option String
      → Result (Option Fields)
  unfolding signature_from
  signature_at r index entry bytes source none = refuse "registry entry is missing signature"
  signature_at r index entry bytes source (some reference) =
      if reference == ""
      then refuse "registry entry is missing signature"
      else signature_from r index entry bytes source reference

  unfoldable pub check_signature :
      Request → RegistryIndex → RegistryEntry → List ℕ → RegistrySource → Result (Option Fields)
  unfolding signature_at
  check_signature r index entry bytes source =
      if effective_require_signature r
      then signature_at r index entry bytes source entry.signature
      else return none

  -- The package of an entry, of the hash and with the name and version that the entry gives.
  unfoldable pub check_package : RegistryEntry → RegistrySource → Result (List ℕ)
  unfolding resolve_artifact_reference materialize_artifact
  check_package entry source =
      and_then (resolve_artifact_reference host.python host.paths entry.package_ref source ".zip")
        (λ ref. and_then (materialize_artifact host ref max_plugin_archive_bytes) (λ bytes.
          if not (host.sha256 bytes == entry.sha256)
          then refuse "registry package sha256 mismatch"
          else and_then (host.package_metadata bytes) (λ m.
            if not (m.name == entry.name) || not (m.version == entry.version)
            then refuse "registry entry does not match package metadata"
            else return bytes)))

  -- What `install` does before it turns to the plugins' folder.
  unfoldable pub check_registry : Client → Request → Result Checked
  unfolding load_index find is_seen check_package check_signature
  check_registry client r =
      and_then
        (load_index host client (given r.index_public_key r.public_key)
          (or_else r.index_trust_store r.trust_store)
          (r.require_index_signature || r.production_mode))
        (λ (index, source).
          and_then (find host.python.digit index.entries r.name r.version) (λ entry.
            if is_seen (key_of_entry entry) index.revoked_plugin_versions
            then refuse "registry plugin version is revoked"
            else and_then (check_package entry source) (λ bytes.
              and_then (check_signature r index entry bytes source) (λ signature.
                return (record {
                  index = index;
                  entry = entry;
                  bytes = bytes;
                  signature = signature;
                })))))

  -- `_assert_registry_install_not_rollback`, of the plugin that is installed under the name.
  unfoldable pub assert_not_rollback :
      Request → RegistryEntry → String → Option InstalledPlugin → Result (Unit {0})
  unfolding rollback_checks semver_sort_key
  assert_not_rollback r entry hash none = return tt
  assert_not_rollback r entry hash (some installed) =
      and_then (semver_sort_key host.python.digit installed.metadata.version) (λ current.
        and_then (semver_sort_key host.python.digit entry.version)
          (λ requested. rollback_checks r installed hash current requested))

  -- The loader that `install` makes, which reads the plugins' folder.
  abbrev pub new_loader : Request → Exec Loader (Unit {0})
  new_loader r loader = discover_installed (record loader {
    production_mode = r.production_mode;
    require_signatures = effective_require_signature r || r.production_mode;
  })

  abbrev text_or_empty : Option Value → String
  text_or_empty none = ""
  text_or_empty (some (str s)) = s
  text_or_empty (some v) = if truthy v then host.crypto.text_of v else ""

  abbrev pub signature_of : Option Fields → Option Signature
  signature_of none = none
  signature_of (some payload) = some (record {
    algorithm = text_or_empty (field? payload "algorithm");
    hash = text_or_empty (field? payload "hash");
    signature = text_or_empty (field? payload "signature");
  })

  -- The loader's default policy in production.
  abbrev pub policies_of : Request → Platform → ℕ → Policies
  policies_of r platform now =
      if r.production_mode then some (default_policy, platform, now) else none

  -- The archive in the cache.
  abbrev pub cached : List ℕ → Package
  cached bytes = record (host.package_of bytes) {
    is_file = true;
    bytes = length bytes;
    hash = host.sha256 bytes;
  }

  abbrev pub in_loader {ℓ} : {A : Type ℓ} → (Result A × Loader) → Plugins → Result A × Plugins
  in_loader (r, loader) s = (r, record s { loader = loader })

  unfoldable pub install_checked : Request → Platform → ℕ → Checked → Exec Plugins PluginMetadata
  unfolding assert_not_rollback install
  install_checked r platform now c = do
    (λ s. in_loader (new_loader r s.loader) s)
    installed ← gets (λ s. Dict.get s.loader.installed_plugins c.entry.name)
    lift (assert_not_rollback r c.entry (host.sha256 c.bytes) installed)
    m ← (λ s.
        in_loader
          (install (policies_of r platform now) (cached c.bytes) true (signature_of c.signature)
            r.scan_report s.loader)
          s)
    modify (λ s. record s {
      provenance = Dict.put s.provenance m.name (record {
        index = c.index.source;
        index_signature = c.index.signature;
        entry = c.entry;
        package_sha256 = host.sha256 c.bytes;
      });
    })
    pure m

  -- PluginRegistryClient.install.
  unfoldable pub install_from_registry :
      Client → Request → Platform → ℕ → Exec Plugins PluginMetadata
  unfolding check_registry install_checked
  install_from_registry client r platform now = do
    c ← lift (check_registry client r)
    install_checked r platform now c
