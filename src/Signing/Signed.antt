-- ===== src/Signing/Signed.antt =====
-- That a package signed by modules/plugin_system/signing.py is verified by it.
use humanoid_agi_plugin_syst.Prelude.{
  String, ◌≡◌, refl, sym, ap, ◌∙◌, true, false, none, some, eq_refl, ◌==◌,
}
use humanoid_agi_plugin_syst.Prelude.Effects.{Result, return, raise}
use humanoid_agi_plugin_syst.Prelude.Text.{strip}
use humanoid_agi_plugin_syst.Models.{str, Fields}
use humanoid_agi_plugin_syst.Signing.Store.{
  StoreFile, PublicKey, normalize_publisher, trusted_entry, trusted_public_key,
}
use humanoid_agi_plugin_syst.Signing.Packages.{
  Crypto, signed_fields, resolve_verification_public_key, verify_ed25519_digest, verify_signature,
  sign_package,
}
use humanoid_agi_plugin_syst.Signing.Trust.{
  view, material_of, IsReadable, adding, perform, perform-Shows, view_of-read,
}
use humanoid_agi_plugin_syst.Signing.Verified.{normalize_publisher_idem}

material_of-some :
    (r : Result String) {material : String} → material_of r ≡ some material → r ≡ return material
material_of-some (return m) h = cc
material_of-some (raise e) h = cc

-- What the program relies on of the cryptographic library and of base64: texts are printed as they
-- are, base64 is undone, the public key that belongs to a private key is read back from its PEM
-- text and verifies what the private key signed. A fingerprint and a PEM text are not empty.
pub record IsLawful (crypto : Crypto) : Type 0 where
  pub text_str : (s : String) → crypto.text_of (str s) ≡ s
  pub decode-encode : (s : String) → crypto.b64decode (crypto.b64encode s) ≡ some s
  pub load-pem :
      (private_key : String) (key : PublicKey)
      → crypto.load_private_key private_key ≡ return key
      → crypto.load_public_key key.pem ≡ return key
  pub verify-sign :
      (private_key digest : String) (key : PublicKey)
      → crypto.load_private_key private_key ≡ return key
      → crypto.verify key (crypto.sign private_key digest) digest ≡ true
  pub id_present :
      (private_key : String) (key : PublicKey)
      → crypto.load_private_key private_key ≡ return key
      → (key.id == "") ≡ false
  pub strip-id :
      (private_key : String) (key : PublicKey)
      → crypto.load_private_key private_key ≡ return key
      → strip key.id ≡ key.id
  pub pem_present :
      (private_key : String) (key : PublicKey)
      → crypto.load_private_key private_key ≡ return key
      → (key.pem == "") ≡ false

trusted_public_key-return :
    (name id : String) (store : StoreFile) (material : String)
    → normalize_publisher name ≡ return name
    → IsReadable store
    → view store name id ≡ some material
    → trusted_public_key name id store ≡ return material
unfolding trusted_public_key
trusted_public_key-return name id store material normal (publishers, readable) h =
    rw (normal, readable)
      (material_of-some (trusted_entry publishers name id)
        (sym (ap (λ v. v name id) (view_of-read store publishers readable)) ∙ h))

module _ (crypto : Crypto) (laws : IsLawful crypto) where
  -- With a lawful cryptographic library, a package signed with a private key is verified with a
  -- trust store to which the public key of that key was added for the publisher, where the name
  -- of the publisher is valid and the store could be read before.
  pub sign_package-verify_signature :
      (digest private_key publisher name : String) (key : PublicKey) (store : StoreFile)
      → crypto.load_private_key private_key ≡ return key
      → normalize_publisher publisher ≡ return name
      → IsReadable store
      → (payload : Fields) × (sign_package crypto digest private_key (some publisher) none
          ≡ return payload)
        × (verify_signature crypto digest payload none none
              (some (perform crypto.load_public_key (adding publisher key.pem) store).1)
            ≡ return payload)
  unfolding sign_package verify_signature verify_ed25519_digest resolve_verification_public_key
  sign_package-verify_signature digest private_key publisher name key store loads normal readable =
      let shows = perform-Shows crypto.load_public_key (adding publisher key.pem) store readable in
      let after = (perform crypto.load_public_key (adding publisher key.pem) store).1 in
      let trusted : view after name key.id ≡ some key.pem =
        ap (λ v. v name key.id) shows.shown
        ∙ rw
            (
              normal,
              laws.load-pem private_key key loads,
              eq_refl name,
              eq_refl key.id,
              laws.pem_present private_key key loads,
            )
            refl in
      let normal' = normalize_publisher_idem publisher name normal in
      let material =
        trusted_public_key-return name key.id after key.pem normal' shows.still_readable trusted in
      (
        signed_fields digest key.id name (crypto.b64encode (crypto.sign private_key digest)),
        rw (loads, normal) refl,
        rw
            (
              eq_refl digest,
              laws.text_str (crypto.b64encode (crypto.sign private_key digest)),
              laws.decode-encode (crypto.sign private_key digest),
              laws.text_str name,
              normal',
              laws.text_str key.id,
              laws.strip-id private_key key loads,
              laws.id_present private_key key loads,
              material,
              laws.load-pem private_key key loads,
              laws.verify-sign private_key digest key loads,
            )
            refl,
      )
