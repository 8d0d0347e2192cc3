-- ===== src/Signing/Packages.antt =====
-- Signatures of packages in modules/plugin_system/signing.py. A package is its digest, and a
-- signature is the JSON object of its file, less its time.
use humanoid_agi_plugin_syst.Prelude.{
  String, Bool, false, not, Option, none, some, or_default, ◌==◌, if◌then◌else◌,
}
use humanoid_agi_plugin_syst.Prelude.Effects.{Result, and_then, return, failure, signature_error}
use humanoid_agi_plugin_syst.Prelude.Text.{strip}
use humanoid_agi_plugin_syst.Models.{Value, str, Fields, end, field, field?}
use humanoid_agi_plugin_syst.Signing.Store.{
  PublicKey, StoreFile, signature_algorithm, legacy_signature_algorithm, normalize_publisher,
  trusted_public_key,
}

-- Private keys are their texts. Signatures are in base64.
pub record Crypto : Type 0 where
  pub text_of : Value → String
  pub hmac_sha256 : String → String → String
  pub load_public_key : String → Result PublicKey
  pub load_private_key : String → Result PublicKey
  pub sign : String → String → String
  pub b64encode : String → String
  pub b64decode : String → Option String
  pub verify : PublicKey → String → String → Bool
  pub signing_key : Option String
  pub public_key : Option String

-- `key or default`, where the empty text counts as missing.
abbrev pub given : Option String → Option String → Option String
given none default = default
given (some key) default = if key == "" then default else some key

abbrev key_or_raise : Option String → String → Result String
key_or_raise none message = failure signature_error message
key_or_raise (some key) message = if key == "" then failure signature_error message else return key

abbrev pub is_str : Option Value → String → Bool
is_str (some (str s)) t = s == t
is_str _ t = false

abbrev pub signed_fields : (digest key_id publisher signature : String) → Fields
signed_fields digest key_id publisher signature = field "algorithm" (str signature_algorithm) (
    field "hash" (str digest) (
      field "key_id" (str key_id) (
        field "publisher" (str publisher)
          (field "signature" (str signature) (field "signature_encoding" (str "base64") end)))))

module _ (crypto : Crypto) where
  unfoldable pub resolve_signing_key : Option String → Result String
  resolve_signing_key key = key_or_raise (given key crypto.signing_key) "missing signing key"

  unfoldable pub resolve_public_key : Option String → Result String
  resolve_public_key key = key_or_raise (given key crypto.public_key) "missing public key"

  -- `str(payload.get(key, ""))`
  abbrev pub text_at : Fields → String → String
  text_at payload key = elim (field? payload key) [ none ↦ "" | some v ↦ crypto.text_of v ]

  abbrev pub trust_store_key : Fields → StoreFile → Result String
  trust_store_key payload store =
      and_then (normalize_publisher (text_at payload "publisher")) (λ publisher.
        let key_id = strip (text_at payload "key_id") in
        if key_id == ""
        then failure signature_error "signature payload is missing key_id"
        else trusted_public_key publisher key_id store)

  abbrev pub verification_key : Fields → Option String → Option StoreFile → Result String
  verification_key payload (some public_key) store = return public_key
  verification_key payload none (some store) = trust_store_key payload store
  verification_key payload none none = resolve_public_key none

  unfoldable pub resolve_verification_public_key :
      Fields → Option String → Option StoreFile → Result String
  unfolding resolve_public_key
  resolve_verification_public_key payload public_key store =
      verification_key payload public_key store

  unfoldable pub verify_hmac_digest : String → Fields → Option String → Result Fields
  unfolding resolve_signing_key
  verify_hmac_digest expected_hash payload key =
      if not (is_str (field? payload "hash") expected_hash)
      then failure signature_error "package hash does not match signature payload"
      else and_then (resolve_signing_key key) (λ signing_key.
        if not (text_at payload "signature" == crypto.hmac_sha256 signing_key expected_hash)
        then failure signature_error "invalid package signature"
        else return payload)

  abbrev decoded_or_raise : Option String → Result String
  decoded_or_raise none = failure signature_error "invalid package signature encoding"
  decoded_or_raise (some signature) = return signature

  unfoldable pub verify_ed25519_digest :
      String → Fields → Option String → Option StoreFile → Result Fields
  unfolding resolve_verification_public_key
  verify_ed25519_digest expected_hash payload public_key store =
      if not (is_str (field? payload "hash") expected_hash)
      then failure signature_error "package hash does not match signature payload"
      else if not (is_str (field? payload "signature_encoding") "base64")
      then failure signature_error "unsupported signature encoding"
      else and_then (decoded_or_raise (crypto.b64decode (text_at payload "signature")))
          (λ signature.
            and_then (resolve_verification_public_key payload public_key store) (λ material.
              and_then (crypto.load_public_key material) (λ key.
                if not (crypto.verify key signature expected_hash)
                then failure signature_error "invalid package signature"
                else return payload)))

  -- `verify_signature` and `verify_signature_data`, of the digest of the package or of the data.
  unfoldable pub verify_signature :
      String → Fields → Option String → Option String → Option StoreFile → Result Fields
  unfolding verify_hmac_digest verify_ed25519_digest
  verify_signature digest payload key public_key store =
      if is_str (field? payload "algorithm") legacy_signature_algorithm
      then verify_hmac_digest digest payload key
      else if is_str (field? payload "algorithm") signature_algorithm
      then verify_ed25519_digest digest payload public_key store
      else failure signature_error "unsupported signature algorithm"

  abbrev with_publisher : Option String → Fields → Fields
  with_publisher none fs = fs
  with_publisher (some p) fs = if p == "" then fs else field "publisher" (str p) fs

  unfoldable pub sign_package_hmac : String → Option String → Option String → Result Fields
  unfolding resolve_signing_key
  sign_package_hmac digest key publisher = and_then (resolve_signing_key key) (λ signing_key.
      return (
        with_publisher publisher (
          field "algorithm" (str legacy_signature_algorithm) (
            field "hash" (str digest)
              (field "signature" (str (crypto.hmac_sha256 signing_key digest)) end)))))

  abbrev key_id_or : Option String → String → String
  key_id_or none default = default
  key_id_or (some id) default = if id == "" then default else id

  -- `sign_package` with a private key.
  unfoldable pub sign_package : String → String → Option String → Option String → Result Fields
  sign_package digest private_key publisher key_id =
      and_then (crypto.load_private_key private_key) (λ key.
        and_then (normalize_publisher (or_default publisher "")) (λ name. return (
          signed_fields digest (key_id_or key_id key.id) name
            (crypto.b64encode (crypto.sign private_key digest)))))
