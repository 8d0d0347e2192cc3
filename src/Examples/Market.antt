-- ===== src/Examples/Market.antt =====
-- The theorems on modules/plugin_system/marketplace.py at a registry with one plugin in one folder.
use humanoid_agi_plugin_syst.Prelude.{
  ℕ, ◌-◌, ◌≤◌, String, ◌≡◌, refl, true, false, ◌==◌, Option, none, some, List, [], ◌∷◌, leb, length,
  if◌then◌else◌,
}
use humanoid_agi_plugin_syst.Prelude.Dict
use humanoid_agi_plugin_syst.Prelude.Effects.{Result, return, ◌>>=◌}
use humanoid_agi_plugin_syst.Models.{
  Value, num, str, arr, obj, nil, cons, Fields, end, field, is_trusted, effective_run_mode,
  is_third_party,
}
use humanoid_agi_plugin_syst.Policy.{
  linux, install_decisions, base_metadata_decisions, scan_decisions, validate_scan_report,
  audit_decisions, evaluate_install, enforce,
}
use humanoid_agi_plugin_syst.Loader.{
  Package, no_manifest, discover_installed, scan, is_plugin_version_revoked,
  validate_signature_policy, place_tree, write_install,
}
use humanoid_agi_plugin_syst.Prelude.Text.{
  strip, char_count, any_code, has_char, ends_with, collapse,
}
use humanoid_agi_plugin_syst.Signing.Store.{normalize_publisher, trusted_public_key}
use humanoid_agi_plugin_syst.Signing.Packages.{signed_fields}
use humanoid_agi_plugin_syst.Marketplace.Versions.{is_plugin_name, is_semver, semver_sort_key}
use humanoid_agi_plugin_syst.Marketplace.Entries.{
  Python, RegistryEntry, parse_entry, parse_index_payload, parse_revoked_keys,
  parse_revoked_plugin_versions,
}
use humanoid_agi_plugin_syst.Marketplace.Sources.{Paths, find, read_limited}
use humanoid_agi_plugin_syst.Marketplace.Client.{Host, Client}
use humanoid_agi_plugin_syst.Marketplace.Install.{
  Request, Checked, Plugins, new_loader, check_registry, install_from_registry,
}
use humanoid_agi_plugin_syst.Marketplace.Reading.{Limited, read_limited-Limited}
use humanoid_agi_plugin_syst.Marketplace.Distinct.{IsDistinct, parse_index_payload-IsDistinct}
use humanoid_agi_plugin_syst.Marketplace.Newest.{IsNewest, find-IsNewest}
use humanoid_agi_plugin_syst.Marketplace.Trusted.{IsTrusted, install_from_registry-IsTrusted}
use humanoid_agi_plugin_syst.Marketplace.Rollback.{MayReplace, install_from_registry-MayReplace}
use humanoid_agi_plugin_syst.Examples.Samples.{calc, page}
use humanoid_agi_plugin_syst.Examples.Rules.{report, files}
use humanoid_agi_plugin_syst.Examples.Keys.{toy, with_key}

abbrev ascii_digit : ℕ → Option ℕ
ascii_digit c = if leb b'0' c then (if leb c b'9' then some (c - b'0') else none) else none

abbrev digest : String
digest = "0123456789abcdef0123456789abcdef0123456789abcdef0123456789abcdef"

abbrev calc_entry : Fields
calc_entry = field "name" (str "calc") (
    field "version" (str "1.0.0") (
      field "description" (str "adds") (
        field "package" (str "calc.zip") (
          field "sha256" (str digest)
            (field "signature" (str "calc.sig") (field "publisher" (str "ann") end))))))

abbrev index_fields : Fields
index_fields = field "version" (num 1) (field "plugins" (arr (cons (obj calc_entry) nil)) end)

abbrev python : Python
python = record {
  digit = ascii_digit;
  lower = λ s. s;
  urlparse = λ s. return (record page { scheme = ""; netloc = ""; path = s });
  urljoin = λ base s. s;
}

abbrev paths : Paths
paths = record {
  is_absolute = λ s. false;
  join = λ base s. s;
  resolve = λ s. s;
  parents = λ s. "reg" ∷ [];
}

abbrev calc_package : Package
calc_package = record {
  is_file = true;
  bytes = 1;
  hash = digest;
  unpack_and_validate = return calc;
  files = files;
  lock_policy = λ production m. return tt;
  dependency_policy = λ production m. return tt;
  shipped_manifest = no_manifest;
  replace_tree = return tt;
  prepare_environment = λ m. return tt;
}

-- The index is the file of the byte 1; every other file is a signature.
abbrev json_of : List ℕ → Option Value
json_of (ℕ.suc ℕ.zero ∷ bytes) = some (obj index_fields)
json_of bytes = some (obj (signed_fields digest "k1" "ann" digest))

abbrev host : Host
host = record {
  python = python;
  paths = paths;
  crypto = toy;
  sha256 = λ bytes. digest;
  json = json_of;
  unquote = λ s. s;
  exists = λ s. true;
  is_dir = λ s. false;
  child = λ s t. t;
  parent = λ s. "reg";
  file = λ s. if s == "index.json" then some (1 ∷ []) else some (2 ∷ []);
  urlopen = λ s. return (λ call size. []);
  package_metadata = λ bytes. return calc;
  package_of = λ bytes. calc_package;
}

abbrev client : Client
client = record { index = "index.json"; index_signature = none }

abbrev request : Request
request = record {
  name = "calc";
  version = none;
  public_key = none;
  trust_store = some with_key;
  require_signature = true;
  index_public_key = none;
  index_trust_store = none;
  require_index_signature = false;
  allow_downgrade = false;
  allow_same_version_reinstall = false;
  production_mode = true;
  scan_report = some report;
}

abbrev no_plugins : Plugins
no_plugins = record {
  loader = record {
    production_mode = true;
    require_signatures = true;
    disk = [];
    revoked_versions = return [];
    loaded_plugins = [];
    installed_plugins = [];
  };
  provenance = [];
}

read_limited-Limited_example :
    (r : Result (List ℕ)) × (read_limited (λ call size. 7 ∷ []) 3 2 ≡ some r)
    × Limited (λ call size. 7 ∷ []) 2 r
read_limited-Limited_example = read_limited-Limited (λ call size. 7 ∷ []) 2

abbrev first_entry : RegistryEntry
first_entry = record {
  name = "calc";
  version = "1.0.0";
  description = "adds";
  package_ref = "calc.zip";
  sha256 = digest;
  signature = some "calc.sig";
  publisher = some "ann";
}

abbrev parsed : List RegistryEntry
parsed = first_entry ∷ []

parse_index_payload-IsDistinct_example : IsDistinct parsed × (length parsed ≤ 1000)
unfolding parse_index_payload parse_entry strip char_count any_code is_plugin_name is_semver
    has_char ends_with normalize_publisher
parse_index_payload-IsDistinct_example =
    parse_index_payload-IsDistinct python index_fields parsed refl

find-IsNewest_example : IsNewest ascii_digit parsed "calc" none first_entry
unfolding find semver_sort_key
find-IsNewest_example = find-IsNewest ascii_digit parsed "calc" none first_entry refl

installing : (install_from_registry host client request linux 200 no_plugins).0 ≡ return calc
unfolding install_from_registry ◌>>=◌ normalize_publisher char_count has_char strip collapse
    trusted_public_key Dict.get Dict.put parse_index_payload parse_entry any_code is_plugin_name
    is_semver ends_with parse_revoked_keys parse_revoked_plugin_versions discover_installed scan
    is_plugin_version_revoked evaluate_install audit_decisions enforce validate_signature_policy
    place_tree write_install is_trusted effective_run_mode install_decisions base_metadata_decisions
    is_third_party scan_decisions validate_scan_report
installing = refl

install_from_registry-IsTrusted_example :
    (c : Checked) × (check_registry host client request ≡ return c)
    × IsTrusted host request with_key c
install_from_registry-IsTrusted_example =
    install_from_registry-IsTrusted host client request linux 200 with_key no_plugins calc refl refl
      refl installing

install_from_registry-MayReplace_example :
    (c : Checked) × (check_registry host client request ≡ return c)
    × MayReplace ascii_digit c.entry digest
        (Dict.get (new_loader host request no_plugins.loader).1.installed_plugins c.entry.name)
install_from_registry-MayReplace_example =
    install_from_registry-MayReplace host client request linux 200 no_plugins calc refl refl
      installing
