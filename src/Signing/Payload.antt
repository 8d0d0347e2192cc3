-- ===== src/Signing/Payload.antt =====
-- The payload that the verification of modules/plugin_system/signing.py returns.
use humanoid_agi_plugin_syst.Prelude.{
  String, ◌≡◌, not, Option, inl, inr, Bool-cases, Option-cases, ◌==◌,
}
use humanoid_agi_plugin_syst.Prelude.Effects.{
  return, return_inj, and_then-eq-return, guard-eq-return,
}
use humanoid_agi_plugin_syst.Models.{Fields, field?}
use humanoid_agi_plugin_syst.Signing.Store.{
  StoreFile, signature_algorithm, legacy_signature_algorithm,
}
use humanoid_agi_plugin_syst.Signing.Packages.{
  Crypto, is_str, text_at, resolve_signing_key, resolve_verification_public_key, verify_hmac_digest,
  verify_ed25519_digest, verify_signature,
}

module _ (crypto : Crypto) (digest : String) (payload result : Fields) where
  verify_hmac_digest-payload :
      (key : Option String)
      → verify_hmac_digest crypto digest payload key ≡ return result
      → payload ≡ result
  unfolding verify_hmac_digest
  verify_hmac_digest-payload key h =
      let (a, h1) = guard-eq-return (not (is_str (field? payload "hash") digest)) _ _ h in
      let (k, k1, h2) = and_then-eq-return (resolve_signing_key crypto key) _ h1 in
      let (b, h3) =
        guard-eq-return (not (text_at crypto payload "signature" == crypto.hmac_sha256 k digest)) _
          _ h2 in
      return_inj h3

  verify_ed25519_digest-payload :
      (public_key : Option String) (store : Option StoreFile)
      → verify_ed25519_digest crypto digest payload public_key store ≡ return result
      → payload ≡ result
  unfolding verify_ed25519_digest
  verify_ed25519_digest-payload public_key store h =
      let (a, h1) = guard-eq-return (not (is_str (field? payload "hash") digest)) _ _ h in
      let (b, h2) =
        guard-eq-return (not (is_str (field? payload "signature_encoding") "base64")) _ _ h1 in
      elim (Option-cases (crypto.b64decode (text_at crypto payload "signature"))) [
        | inl e ↦ let q = rw e at h2 in cc
        | inr (signature, e) ↦
            let h3 = rw e at h2 in
            let (material, m, h4) =
              and_then-eq-return (resolve_verification_public_key crypto payload public_key store) _
                h3 in
            let (key, k, h5) = and_then-eq-return (crypto.load_public_key material) _ h4 in
            let (good, h6) = guard-eq-return (not (crypto.verify key signature digest)) _ _ h5 in
            return_inj h6
      ]

  -- Verification returns the payload that it was given.
  pub verify_signature-payload :
      (key public_key : Option String) (store : Option StoreFile)
      → verify_signature crypto digest payload key public_key store ≡ return result
      → payload ≡ result
  unfolding verify_signature
  verify_signature-payload key public_key store h =
      elim (Bool-cases (is_str (field? payload "algorithm") legacy_signature_algorithm)) [
        | inl e ↦ verify_hmac_digest-payload key (rw e at h)
        | inr e ↦ elim (Bool-cases (is_str (field? payload "algorithm") signature_algorithm)) [
          | inl e' ↦ verify_ed25519_digest-payload public_key store (rw (e, e') at h)
          | inr e' ↦ let q = rw (e, e') at h in cc
        ]
      ]
