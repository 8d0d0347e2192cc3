-- ===== src/Marketplace/Entries.antt =====
-- The index of a registry in modules/plugin_system/marketplace.py: its entries and its lists of
-- revoked keys and versions, parsed from a JSON object.
use humanoid_agi_plugin_syst.Prelude.{
  ℕ, String, Bool, false, not, ◌&&◌, ◌||◌, Option, none, some, List, [], ◌∷◌, ltb, leb, nat_eq,
  ◌==◌, if◌then◌else◌,
}
use humanoid_agi_plugin_syst.Prelude.Effects.{Result, and_then, return, failure, registry_error}
use humanoid_agi_plugin_syst.Prelude.Text.{strip, char_count, has_char, any_code, ends_with}
use humanoid_agi_plugin_syst.Models.{
  Value, null, num, str, arr, obj, Items, nil, cons, Fields, field?, value_eq,
}
use humanoid_agi_plugin_syst.Gateway.Network.{Url}
use humanoid_agi_plugin_syst.Signing.Store.{normalize_publisher}
use humanoid_agi_plugin_syst.Marketplace.Versions.{is_plugin_name, is_semver}

-- `package_ref` is the field `package`.
pub record RegistryEntry : Type 0 where
  pub name : String
  pub version : String
  pub description : String
  pub package_ref : String
  pub sha256 : String
  pub signature : Option String
  pub publisher : Option String

-- Python's own functions: the digits of Unicode, `str.lower`, `urlparse` and `urljoin`.
pub record Python : Type 0 where
  pub digit : ℕ → Option ℕ
  pub lower : String → String
  pub urlparse : String → Result Url
  pub urljoin : String → String → String

abbrev pub refuse : {A : Type 0} → String → Result A
refuse message = failure registry_error message

abbrev is_control : ℕ → Bool
is_control c = ltb c 32

-- `_required_string`.
abbrev required_text : ℕ → String → Result String
required_text max_length value =
    if value == ""
    then refuse "registry entry field is required"
    else if ltb max_length (char_count value)
    then refuse "registry entry field is too long"
    else if any_code is_control value
    then refuse "registry entry field contains control characters"
    else return value

unfoldable pub required_string : Fields → String → ℕ → Result String
required_string raw key max_length = elim (field? raw key) [
  | some (str value) ↦ required_text max_length (strip value)
  | _ ↦ refuse "registry entry field must be a string"
]

-- `raw.get(key)`, where a missing field is `null`.
abbrev pub get_or_null : Fields → String → Value
get_or_null raw key = elim (field? raw key) [ none ↦ null | some v ↦ v ]

abbrev is_hex : ℕ → Bool
is_hex c = (leb b'0' c && leb c b'9') || (leb b'a' c && leb c b'f')

abbrev is_digest : String → Bool
is_digest s = nat_eq (char_count s) 64 && not (any_code (λ c. not (is_hex c)) s)

unfoldable pub count : Items → ℕ
count nil = 0
count (cons v vs) = ℕ.suc (count vs)

abbrev pub same_key : (String × String) → (String × String) → Bool
same_key a b = a.0 == b.0 && a.1 == b.1

-- `key in seen`.
unfoldable pub is_seen : String × String → List (String × String) → Bool
is_seen key [] = false
is_seen key (other ∷ seen) = same_key other key || is_seen key seen

abbrev pub key_of_entry : RegistryEntry → String × String
key_of_entry e = (e.name, e.version)

revoked_key : Value → Result String
revoked_key (str item) =
    let key_id = strip item in
    if key_id == ""
    then refuse "registry revoked key entries must be strings"
    else if ltb 128 (char_count key_id) || any_code is_control key_id
    then refuse "registry revoked key entry is invalid"
    else return key_id
revoked_key v = refuse "registry revoked key entries must be strings"

revoked_keys_of : Items → Result (List String)
unfolding revoked_key
revoked_keys_of nil = return []
revoked_keys_of (cons v vs) =
    and_then (revoked_key v) (λ key. and_then (revoked_keys_of vs) (λ keys. return (key ∷ keys)))

-- A missing field is an empty list, and so is `null`.
unfoldable pub parse_revoked_keys : Fields → Result (List String)
unfolding revoked_keys_of
parse_revoked_keys payload = elim (field? payload "revoked_keys") [
  | none ↦ return []
  | some null ↦ return []
  | some (arr items) ↦ revoked_keys_of items
  | some _ ↦ refuse "registry revoked_keys must be a list"
]

module _ (py : Python) where
  unfoldable pub validate_artifact_reference_shape : String → String → Result (Unit {0})
  validate_artifact_reference_shape reference expected_suffix =
      and_then (py.urlparse reference) (λ parsed.
        if parsed.has_credentials || not (parsed.fragment == "")
        then refuse "registry reference must not contain credentials or fragments"
        else if any_code is_control reference
        then refuse "registry reference contains control characters"
        else if has_char b'?' reference
        then refuse "registry reference must not contain a query string"
        else if not (ends_with expected_suffix (py.lower parsed.path))
        then refuse "registry reference must end with the expected suffix"
        else return tt)

  optional_signature : Value → Result (Option String)
  unfolding validate_artifact_reference_shape
  optional_signature null = return none
  optional_signature (str s) =
      and_then (validate_artifact_reference_shape (strip s) ".sig") (λ _. return (some (strip s)))
  optional_signature v = refuse "registry entry signature must be a string"

  optional_publisher : Value → Result (Option String)
  optional_publisher null = return none
  optional_publisher (str s) = and_then (normalize_publisher s) (λ name. return (some name))
  optional_publisher v = refuse "registry entry publisher must be a string"

  abbrev checked_name : String → Result String
  checked_name name =
      if is_plugin_name name then return name else refuse "invalid registry plugin name"

  abbrev checked_version : String → Result String
  checked_version version =
      if is_semver py.digit version
      then return version
      else refuse "invalid registry plugin version"

  abbrev checked_digest : String → Result String
  checked_digest digest =
      if is_digest digest then return digest else refuse "invalid registry sha256"

  unfoldable pub parse_entry : Fields → Result RegistryEntry
  unfolding required_string validate_artifact_reference_shape optional_signature optional_publisher
  parse_entry raw = and_then (required_string raw "name" 256) (λ n.
      and_then (checked_name n) (λ name. and_then (required_string raw "version" 256) (λ v.
        and_then (checked_version v) (λ version.
          and_then (required_string raw "description" 512) (λ description.
            and_then (required_string raw "package" 2048) (λ package_ref.
              and_then (validate_artifact_reference_shape package_ref ".zip") (λ _.
                and_then (required_string raw "sha256" 256) (λ d.
                  and_then (checked_digest d) (λ digest.
                    and_then (optional_signature (get_or_null raw "signature")) (λ signature.
                      and_then (optional_publisher (get_or_null raw "publisher")) (λ publisher.
                        return (record {
                          name = name;
                          version = version;
                          description = description;
                          package_ref = package_ref;
                          sha256 = digest;
                          signature = signature;
                          publisher = publisher;
                        }))))))))))))

  abbrev pub entry_of : Value → Result RegistryEntry
  entry_of (obj raw) = parse_entry raw
  entry_of v = refuse "registry entry must be an object"

  -- The loop of `_parse_index_payload`, with the keys seen so far.
  unfoldable pub parse_entries : Items → List (String × String) → Result (List RegistryEntry)
  unfolding is_seen
  parse_entries nil seen = return []
  parse_entries (cons v vs) seen = and_then (entry_of v) (λ entry.
      if is_seen (key_of_entry entry) seen
      then refuse "duplicate registry entry"
      else and_then (parse_entries vs (key_of_entry entry ∷ seen))
          (λ entries. return (entry ∷ entries)))

  unfoldable pub plugins_of : Value → Result (List RegistryEntry)
  unfolding parse_entries count
  plugins_of (arr raw_entries) =
      if ltb 1000 (count raw_entries)
      then refuse "registry index contains too many plugins"
      else parse_entries raw_entries []
  plugins_of v = refuse "registry index plugins must be a list"

  unfoldable pub parse_index_payload : Fields → Result (List RegistryEntry)
  unfolding value_eq plugins_of
  parse_index_payload payload =
      if not (value_eq (get_or_null payload "version") (num 1))
      then refuse "unsupported registry index version"
      else plugins_of (get_or_null payload "plugins")

  abbrev revoked_version : Value → Result (String × String)
  revoked_version (obj item) = and_then (required_string item "name" 256) (λ n.
      and_then (required_string item "version" 256) (λ v.
        and_then (checked_name n)
          (λ name. and_then (checked_version v) (λ version. return (name, version)))))
  revoked_version v = refuse "registry revoked plugin entry must be an object"

  revoked_versions_of : Items → Result (List (String × String))
  revoked_versions_of nil = return []
  revoked_versions_of (cons v vs) =
      and_then (revoked_version v)
        (λ key. and_then (revoked_versions_of vs) (λ keys. return (key ∷ keys)))

  unfoldable pub parse_revoked_plugin_versions : Fields → Result (List (String × String))
  unfolding revoked_versions_of
  parse_revoked_plugin_versions payload = elim (field? payload "revoked_plugin_versions") [
    | none ↦ return []
    | some null ↦ return []
    | some (arr items) ↦ revoked_versions_of items
    | some _ ↦ refuse "registry revoked_plugin_versions must be a list"
  ]
