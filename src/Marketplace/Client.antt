-- ===== src/Marketplace/Client.antt =====
-- What PluginRegistryClient of modules/plugin_system/marketplace.py reads: the index, its signature,
-- and artifacts. What is copied into the cache is read back from there as it is.
use Prim.Native.String.{◌++◌ as append}
use humanoid_agi_plugin_syst.Prelude.{
  ℕ, ◌+◌, ◌*◌, String, Bool, true, false, not, ◌&&◌, ◌||◌, Option, none, some, List, ltb, length,
  contains, or_default, ◌==◌, if◌then◌else◌,
}
use humanoid_agi_plugin_syst.Prelude.Effects.{
  Result, and_then, return, raise, failure, registry_error, signature_error, ErrorType,
}
use humanoid_agi_plugin_syst.Models.{Value, obj, Fields, field?, PluginMetadata}
use humanoid_agi_plugin_syst.Gateway.Network.{Url}
use humanoid_agi_plugin_syst.Loader.{Package}
use humanoid_agi_plugin_syst.Signing.Store.{StoreFile, signature_algorithm}
use humanoid_agi_plugin_syst.Signing.Packages.{Crypto, is_str, verify_signature}
use humanoid_agi_plugin_syst.Marketplace.Entries.{
  Python, refuse, parse_index_payload, parse_revoked_keys, parse_revoked_plugin_versions,
}
use humanoid_agi_plugin_syst.Marketplace.Sources.{
  RegistryIndex, RegistrySource, ResolvedReference, local, remote, Paths,
  resolve_artifact_reference, read_limited,
}

-- The host: Python's functions, the paths, SHA-256 of bytes in hexadecimal, JSON in UTF-8, files by
-- path, responses by URL with the bytes of each call of `read`, and what an archive holds.
pub record Host : Type 0 where
  pub python : Python
  pub paths : Paths
  pub crypto : Crypto
  pub sha256 : List ℕ → String
  pub json : List ℕ → Option Value
  pub unquote : String → String
  pub exists : String → Bool
  pub is_dir : String → Bool
  pub child : String → String → String
  pub parent : String → String
  pub file : String → Option (List ℕ)
  pub urlopen : String → Result (ℕ → ℕ → List ℕ)
  pub package_metadata : List ℕ → Result PluginMetadata
  pub package_of : List ℕ → Package

-- PluginRegistryClient.
pub record Client : Type 0 where
  pub index : String
  pub index_signature : Option String

abbrev pub max_registry_index_bytes : ℕ
max_registry_index_bytes = 2 * 1024 * 1024

abbrev pub max_signature_bytes : ℕ
max_signature_bytes = 128 * 1024

-- The bytes, the object and the source of an index.
abbrev pub IndexPayload : Type 0
IndexPayload = List ℕ × Fields × RegistrySource

abbrev pub is_signature_error : ErrorType → Bool
is_signature_error signature_error = true
is_signature_error t = false

-- `except PluginSignatureError as exc: raise PluginRegistryError(str(exc))`.
abbrev pub as_registry_error : {A : Type 0} → Result A → Result A
as_registry_error (return a) = return a
as_registry_error (raise e) =
    if is_signature_error e.type then failure registry_error e.message else raise e

module _ (host : Host) where
  abbrev fields_or_refuse : Option Value → Result Fields
  fields_or_refuse (some (obj payload)) = return payload
  fields_or_refuse _ = refuse "invalid registry index JSON"

  unfoldable pub decode_index : List ℕ → Result Fields
  decode_index bytes = fields_or_refuse (host.json bytes)

  -- `_read_remote_bytes`, with as much fuel as `_read_limited` takes.
  unfoldable pub read_remote_bytes : String → ℕ → Result (List ℕ)
  unfolding read_limited
  read_remote_bytes url max_bytes = and_then (host.urlopen url) (λ read.
      or_default (read_limited read (max_bytes + 1) max_bytes)
        (refuse "registry response exceeds size limit"))

  abbrev sized : ℕ → Option (List ℕ) → Result (List ℕ)
  sized max_bytes none = refuse "registry artifact not found"
  sized max_bytes (some bytes) =
      if ltb max_bytes (length bytes)
      then refuse "registry artifact exceeds size limit"
      else return bytes

  -- `_materialize_artifact` and `_read_signature_artifact`.
  unfoldable pub materialize_artifact : ResolvedReference → ℕ → Result (List ℕ)
  unfolding read_remote_bytes
  materialize_artifact (remote url) max_bytes = read_remote_bytes url max_bytes
  materialize_artifact (local path) max_bytes =
      sized max_bytes (host.file (host.paths.resolve path))

  abbrev read_local_index : String → Result IndexPayload
  unfolding decode_index
  read_local_index path =
      let index_path = if host.is_dir path then host.child path "index.json" else path in
      and_then (sized max_registry_index_bytes (host.file index_path)) (λ bytes.
        and_then (decode_index bytes) (λ payload. return (
          bytes,
          payload,
          record {
            original = index_path;
            remote_base = none;
            local_base = some (host.parent index_path);
          },
        )))

  abbrev read_remote_index : String → Result IndexPayload
  unfolding decode_index read_remote_bytes
  read_remote_index url = and_then (read_remote_bytes url max_registry_index_bytes) (λ bytes.
      and_then (decode_index bytes) (λ payload.
        return
          (bytes, payload, record { original = url; remote_base = some url; local_base = none })))

  abbrev read_url_index : String → Url → Result IndexPayload
  unfolding read_local_index read_remote_index
  read_url_index index parsed =
      if parsed.scheme == "file"
      then read_local_index (host.paths.resolve (host.unquote parsed.path))
      else if not (parsed.scheme == "http" || parsed.scheme == "https")
      then refuse "unsupported registry index scheme"
      else if parsed.has_credentials || not (parsed.fragment == "")
      then refuse "registry index URL must not contain credentials or fragments"
      else read_remote_index index

  abbrev looks_like_remote_url : Url → Bool
  looks_like_remote_url parsed =
      parsed.scheme == "http" || parsed.scheme == "https" || parsed.scheme == "file"

  unfoldable pub read_index_payload : String → Result IndexPayload
  unfolding read_local_index read_url_index
  read_index_payload index =
      if host.exists index
      then read_local_index (host.paths.resolve index)
      else and_then (host.python.urlparse index) (λ parsed.
        if not (looks_like_remote_url parsed)
        then read_local_index (host.paths.resolve index)
        else read_url_index index parsed)

  abbrev is_inside : String → String → Bool
  is_inside base target = target == base || contains base (host.paths.parents target)

  abbrev local_signature_ref : String → RegistrySource → Result (Option ResolvedReference)
  unfolding resolve_artifact_reference
  local_signature_ref reference source = and_then (host.python.urlparse reference) (λ parsed.
      if parsed.scheme == "file"
      then return (some (local (host.paths.resolve (host.unquote parsed.path))))
      else if host.paths.is_absolute reference
      then return (some (local (host.paths.resolve reference)))
      else and_then (resolve_artifact_reference host.python host.paths reference source ".sig")
          (λ ref. return (some ref)))

  abbrev given_signature_ref :
      String → RegistrySource → Option String → Result (Option ResolvedReference)
  unfolding local_signature_ref resolve_artifact_reference
  given_signature_ref reference source (some folder) = local_signature_ref reference source
  given_signature_ref reference source none =
      and_then (resolve_artifact_reference host.python host.paths reference source ".sig")
        (λ ref. return (some ref))

  -- The signature beside a local index.
  abbrev auto_signature_ref : RegistrySource → Option String → Result (Option ResolvedReference)
  auto_signature_ref source none = return none
  auto_signature_ref source (some folder) =
      let candidate = append source.original ".sig" in
      if not (host.exists candidate)
      then return none
      else if not (is_inside (host.paths.resolve folder) (host.paths.resolve candidate))
      then refuse "local registry index signature escapes registry directory"
      else return (some (local (host.paths.resolve candidate)))

  unfoldable pub index_signature_ref :
      Client → RegistrySource → Bool → Result (Option ResolvedReference)
  unfolding given_signature_ref
  index_signature_ref client source include_auto = elim client.index_signature [
    | some reference ↦ given_signature_ref reference source source.local_base
    | none ↦ if include_auto then auto_signature_ref source source.local_base else return none
  ]

  abbrev pub signature_fields : Option Value → Result Fields
  signature_fields (some (obj payload)) = return payload
  signature_fields _ = failure signature_error "invalid signature payload"

  -- A signature file's bytes and the digest that it is for.
  unfoldable pub verify_signature_bytes :
      String → List ℕ → Option String → Option StoreFile → Result Fields
  unfolding verify_signature
  verify_signature_bytes digest bytes public_key trust_store =
      and_then (signature_fields (host.json bytes))
        (λ payload. verify_signature host.crypto digest payload none public_key trust_store)

  abbrev index_signature_checks :
      List ℕ
      → Bool
      → Option String
      → Option StoreFile
      → Option ResolvedReference
      → Result (Option Fields)
  unfolding materialize_artifact verify_signature_bytes
  index_signature_checks data_read require public_key trust_store none =
      if require then refuse "registry index signature is required" else return none
  index_signature_checks data_read require public_key trust_store (some ref) =
      and_then (materialize_artifact ref max_signature_bytes) (λ bytes.
        and_then
          (as_registry_error
            (verify_signature_bytes (host.sha256 data_read) bytes public_key trust_store))
          (λ payload.
            if require && not (is_str (field? payload "algorithm") signature_algorithm)
            then refuse "production registry index requires Ed25519-SHA256 signatures"
            else return (some payload)))

  unfoldable pub verify_index_signature :
      Client
      → List ℕ
      → RegistrySource
      → Option String
      → Option StoreFile
      → Bool
      → Result (Option Fields)
  unfolding index_signature_ref index_signature_checks
  verify_index_signature client data_read source public_key trust_store require =
      and_then (index_signature_ref client source require)
        (index_signature_checks data_read require public_key trust_store)

  unfoldable pub load_index :
      Client → Option String → Option StoreFile → Bool → Result (RegistryIndex × RegistrySource)
  unfolding read_index_payload verify_index_signature
  load_index client public_key trust_store require =
      and_then (read_index_payload client.index) (λ (data_read, payload, source).
        and_then (verify_index_signature client data_read source public_key trust_store require)
          (λ signature. and_then (parse_index_payload host.python payload) (λ entries.
            and_then (parse_revoked_keys payload) (λ keys.
              and_then (parse_revoked_plugin_versions host.python payload) (λ versions. return (
                record {
                  source = source.original;
                  entries = entries;
                  signature = signature;
                  revoked_keys = keys;
                  revoked_plugin_versions = versions;
                },
                source,
              ))))))
