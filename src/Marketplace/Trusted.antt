-- ===== src/Marketplace/Trusted.antt =====
-- What an installation by modules/plugin_system/marketplace.py that returns has passed.
use humanoid_agi_plugin_syst.Prelude.{
  ℕ, String, ◌≡◌, sym, ap, ◌∙◌, Bool, true, false, not, ◌&&◌, ◌||◌, Option, none, some, List, arith,
  inl, inr, Bool-cases, Option-cases, contains, eq_iff, not-false, ◌==◌,
}
use humanoid_agi_plugin_syst.Prelude.Effects.{
  Result, return, raise, return_inj, and_then-eq-return, guard-eq-return, continue-eq-return, ◌>>=◌,
}
use humanoid_agi_plugin_syst.Models.{Fields, field?, PluginMetadata}
use humanoid_agi_plugin_syst.Policy.{Platform}
use humanoid_agi_plugin_syst.Signing.Store.{StoreFile, signature_algorithm}
use humanoid_agi_plugin_syst.Signing.Packages.{given, is_str, text_at, verify_signature}
use humanoid_agi_plugin_syst.Signing.Trust.{view}
use humanoid_agi_plugin_syst.Signing.Payload.{verify_signature-payload}
use humanoid_agi_plugin_syst.Signing.Verified.{IsVouched, verify_signature-IsVouched}
use humanoid_agi_plugin_syst.Marketplace.Entries.{RegistryEntry, is_seen, key_of_entry}
use humanoid_agi_plugin_syst.Marketplace.Sources.{
  RegistryIndex, RegistrySource, find, resolve_artifact_reference,
}
use humanoid_agi_plugin_syst.Marketplace.Newest.{IsNewest, find-IsNewest}
use humanoid_agi_plugin_syst.Marketplace.Client.{
  Host, Client, is_signature_error, as_registry_error, signature_fields, materialize_artifact,
  verify_signature_bytes, load_index,
}
use humanoid_agi_plugin_syst.Marketplace.Install.{
  Request, Checked, Plugins, or_else, publisher_fits, effective_require_signature, signature_from,
  check_signature, check_package, check_registry, install_from_registry,
}

-- The signature of a package: by a key that the trust store holds, and that the index does not list
-- as revoked.
pub record IsSigned (host : Host) (store : StoreFile) (index : RegistryIndex) (digest : String)
    (payload : Fields) : Type 0 where
  pub ed25519 : is_str (field? payload "algorithm") signature_algorithm ≡ true
  pub vouched : IsVouched host.crypto digest payload (view store)
  pub key_in_force : contains (text_at host.crypto payload "key_id") index.revoked_keys ≡ false

-- The newest entry for the request, which is not revoked, and its package, with the hash that the
-- entry gives and a signature.
pub record IsTrusted (host : Host) (r : Request) (store : StoreFile) (c : Checked) : Type 0 where
  pub newest : IsNewest host.python.digit c.index.entries r.name r.version c.entry
  pub not_revoked : is_seen (key_of_entry c.entry) c.index.revoked_plugin_versions ≡ false
  pub hash : host.sha256 c.bytes ≡ c.entry.sha256
  pub payload : Fields
  pub signed_by : c.signature ≡ some payload
  pub signed : IsSigned host store c.index (host.sha256 c.bytes) payload

as_registry_error-return :
    {A : Type 0} (x : Result A) {a : A} → as_registry_error x ≡ return a → x ≡ return a
as_registry_error-return (return a) h = h
as_registry_error-return (raise e) h = elim (Bool-cases (is_signature_error e.type)) [
  | inl q ↦ let x = rw q at h in cc
  | inr q ↦ rw q at h
]

needed : (on b : Bool) → on ≡ true → (on && not b) ≡ false → not b ≡ false
needed on b h k = ground (arith, h, k)

both_on : (r : Request) → r.production_mode ≡ true → effective_require_signature r ≡ true
both_on r h = ground (arith, h)

module _ (host : Host) (client : Client) (r : Request) where
  check_package-hash :
      (entry : RegistryEntry) (source : RegistrySource) (bytes : List ℕ)
      → check_package host entry source ≡ return bytes
      → host.sha256 bytes ≡ entry.sha256
  unfolding check_package
  check_package-hash entry source bytes h =
      let (ref, r1, h1) =
        and_then-eq-return
          (resolve_artifact_reference host.python host.paths entry.package_ref source ".zip") _ h in
      let (found, f1, h2) = and_then-eq-return (materialize_artifact host ref _) _ h1 in
      let (same, h3) = guard-eq-return (not (host.sha256 found == entry.sha256)) _ _ h2 in
      let (m, m1, h4) = and_then-eq-return (host.package_metadata found) _ h3 in
      let (fits, h5) =
        guard-eq-return (not (m.name == entry.name) || not (m.version == entry.version)) _ _ h4 in
      let hash : host.sha256 found ≡ entry.sha256 =
        (eq_iff (host.sha256 found) entry.sha256).0
          (not-false (host.sha256 found == entry.sha256) same) in
      rw (sym (return_inj h5)) hash

  verify_signature_bytes-IsVouched :
      (digest : String) (bytes : List ℕ) (public_key : Option String)
      (trust_store : Option StoreFile) (store : StoreFile) (payload : Fields)
      → public_key ≡ none
      → trust_store ≡ some store
      → verify_signature_bytes host digest bytes public_key trust_store ≡ return payload
      → is_str (field? payload "algorithm") signature_algorithm ≡ true
      → IsVouched host.crypto digest payload (view store)
  unfolding verify_signature_bytes
  verify_signature_bytes-IsVouched digest bytes public_key trust_store store payload no_key trusted
        h ed25519 =
      let (found, f1, h0) = and_then-eq-return (signature_fields host (host.json bytes)) _ h in
      let h1 : verify_signature host.crypto digest found none none (some store) ≡ return payload =
        ap (λ k. verify_signature host.crypto digest found none k (some store)) (sym no_key)
        ∙ ap (λ t. verify_signature host.crypto digest found none public_key t) (sym trusted)
        ∙ h0 in
      let same =
        verify_signature-payload host.crypto digest found payload none none (some store) h1 in
      rw (sym same) (
        verify_signature-IsVouched host.crypto digest found none store payload (rw same ed25519) h1)

  signature_from-IsSigned :
      (store : StoreFile) (index : RegistryIndex) (entry : RegistryEntry) (bytes : List ℕ)
      (source : RegistrySource) (reference : String) (signature : Option Fields)
      → r.production_mode ≡ true
      → r.public_key ≡ none
      → r.trust_store ≡ some store
      → signature_from host r index entry bytes source reference ≡ return signature
      → (payload : Fields) × (signature ≡ some payload)
        × IsSigned host store index (host.sha256 bytes) payload
  unfolding signature_from
  signature_from-IsSigned store index entry bytes source reference signature production no_key
        trusted h =
      let (ref, r1, h1) =
        and_then-eq-return
          (resolve_artifact_reference host.python host.paths reference source ".sig") _ h in
      let (sig, s1, h2) = and_then-eq-return (materialize_artifact host ref _) _ h1 in
      let (payload, p1, h3) =
        and_then-eq-return
          (as_registry_error
            (verify_signature_bytes host (host.sha256 bytes) sig r.public_key r.trust_store))
          _ h2 in
      let verified =
        as_registry_error-return
          (verify_signature_bytes host (host.sha256 bytes) sig r.public_key r.trust_store) p1 in
      let (fits, h4) = guard-eq-return (not (publisher_fits entry.publisher payload)) _ _ h3 in
      let (algorithm, h5) =
        guard-eq-return
          (r.production_mode && not (is_str (field? payload "algorithm") signature_algorithm)) _ _
          h4 in
      let (in_force, h6) =
        guard-eq-return (contains (text_at host.crypto payload "key_id") index.revoked_keys) _ _
          h5 in
      let ed25519 = not-false (is_str (field? payload "algorithm") signature_algorithm) (
        needed r.production_mode (is_str (field? payload "algorithm") signature_algorithm)
          production algorithm) in
      (
        payload,
        sym (return_inj h6),
        record {
          ed25519 = ed25519;
          vouched =
              verify_signature_bytes-IsVouched (host.sha256 bytes) sig r.public_key r.trust_store
                store payload no_key trusted verified ed25519;
          key_in_force = in_force;
        },
      )

  check_signature-IsSigned :
      (store : StoreFile) (index : RegistryIndex) (entry : RegistryEntry) (bytes : List ℕ)
      (source : RegistrySource) (signature : Option Fields)
      → r.production_mode ≡ true
      → r.public_key ≡ none
      → r.trust_store ≡ some store
      → check_signature host r index entry bytes source ≡ return signature
      → (payload : Fields) × (signature ≡ some payload)
        × IsSigned host store index (host.sha256 bytes) payload
  unfolding check_signature
  check_signature-IsSigned store index entry bytes source signature production no_key trusted h =
      elim (Option-cases entry.signature) [
        | inl e ↦ let q = rw (both_on r production, e) at h in cc
        | inr (reference, e) ↦
            let h1 = rw (both_on r production, e) at h in
            let (present, h2) = guard-eq-return (reference == "") _ _ h1 in
            signature_from-IsSigned store index (record entry { signature = some reference }) bytes
              source reference signature production no_key trusted h2
      ]

  check_registry-IsTrusted :
      (store : StoreFile) (c : Checked)
      → r.production_mode ≡ true
      → r.public_key ≡ none
      → r.trust_store ≡ some store
      → check_registry host client r ≡ return c
      → IsTrusted host r store c
  unfolding check_registry
  check_registry-IsTrusted store c production no_key trusted h =
      let ((index, source), l1, h1) =
        and_then-eq-return
          (load_index host client (given r.index_public_key r.public_key)
            (or_else r.index_trust_store r.trust_store)
            (r.require_index_signature || r.production_mode))
          _ h in
      let (entry, e1, h2) =
        and_then-eq-return (find host.python.digit index.entries r.name r.version) _ h1 in
      let (not_revoked, h3) =
        guard-eq-return (is_seen (key_of_entry entry) index.revoked_plugin_versions) _ _ h2 in
      let (bytes, b1, h4) = and_then-eq-return (check_package host entry source) _ h3 in
      let (signature, s1, h5) =
        and_then-eq-return (check_signature host r index entry bytes source) _ h4 in
      let (payload, is_payload, signed) =
        check_signature-IsSigned store index entry bytes source signature production no_key trusted
          s1 in
      rw (sym (return_inj h5)) record {
        newest = find-IsNewest host.python.digit index.entries r.name r.version entry e1;
        not_revoked = not_revoked;
        hash = check_package-hash entry source bytes b1;
        payload = payload;
        signed_by = is_payload;
        signed = signed;
      }

  -- An installation in production with a trust store and no public key given was, if it returns,
  -- made from the newest entry of the index for the name and version, which the index does not
  -- list as revoked; the package has the hash that the entry gives, and an Ed25519 signature by
  -- a key that the trust store holds for the publisher it names and whose id, as it is written
  -- there, the index does not list as revoked.
  pub install_from_registry-IsTrusted :
      (platform : Platform) (now : ℕ) (store : StoreFile) (s : Plugins) (m : PluginMetadata)
      → r.production_mode ≡ true
      → r.public_key ≡ none
      → r.trust_store ≡ some store
      → (install_from_registry host client r platform now s).0 ≡ return m
      → (c : Checked) × (check_registry host client r ≡ return c) × IsTrusted host r store c
  unfolding install_from_registry ◌>>=◌
  install_from_registry-IsTrusted platform now store s m production no_key trusted h =
      let (c, checked, h1) = continue-eq-return (check_registry host client r) _ s h in
      (c, checked, check_registry-IsTrusted store c production no_key trusted checked)
