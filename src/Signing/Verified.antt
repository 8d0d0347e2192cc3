-- ===== src/Signing/Verified.antt =====
-- What a signature verified by modules/plugin_system/signing.py rests on.
use humanoid_agi_plugin_syst.Prelude.{
  String, ◌≡◌, refl, sym, ◌∙◌, true, false, not, Option, none, some, inl, inr, Bool-cases,
  Option-cases, eq_iff, eq_refl, not-false, ◌==◌,
}
use humanoid_agi_plugin_syst.Prelude.Effects.{
  Exception, return_inj, Result-cases, and_then-eq-return, guard-eq-return, continue-eq-return,
  return, raise, ◌>>=◌,
}
use humanoid_agi_plugin_syst.Prelude.Text.{strip, collapse, collapse_idem}
use humanoid_agi_plugin_syst.Models.{Value, str, Fields, field?}
use humanoid_agi_plugin_syst.Signing.Store.{
  StoreFile, PublicKey, signature_algorithm, legacy_signature_algorithm, normalize_publisher,
  read_store, trusted_public_key, revoke_key,
}
use humanoid_agi_plugin_syst.Signing.Packages.{
  Crypto, is_str, text_at, trust_store_key, resolve_verification_public_key, verify_ed25519_digest,
  verify_signature,
}
use humanoid_agi_plugin_syst.Signing.Trust.{
  View, view, distrust, IsReadable, revoking, perform-Shows, view_of-read,
}

-- A normal name of a publisher is its own normal name.
pub normalize_publisher_idem :
    (publisher name : String)
    → normalize_publisher publisher ≡ return name
    → normalize_publisher name ≡ return name
unfolding normalize_publisher
normalize_publisher_idem publisher name h =
    let (present, h1) = guard-eq-return (collapse publisher == "") _ _ h in
    let (fine, h2) = guard-eq-return _ _ _ h1 in
    let same : collapse publisher ≡ name = return_inj h2 in
    let fixed : collapse name ≡ collapse publisher = rw (sym same) (collapse_idem publisher) in
    rw fixed h

-- A signature of a package that a key vouches for, which the trust store holds under the name of
-- the publisher.
pub record IsVouched (crypto : Crypto) (digest : String) (payload : Fields) (v : View)
    : Type 0 where
  pub hash : is_str (field? payload "hash") digest ≡ true
  pub name : String
  pub named : normalize_publisher (text_at crypto payload "publisher") ≡ return name
  pub material : String
  pub trusted : v name (strip (text_at crypto payload "key_id")) ≡ some material
  pub key : PublicKey
  pub loaded : crypto.load_public_key material ≡ return key
  pub signature : String
  pub decoded : crypto.b64decode (text_at crypto payload "signature") ≡ some signature
  pub verified : crypto.verify key signature digest ≡ true

trusted_public_key-view :
    (name id : String) (store : StoreFile) (material : String)
    → normalize_publisher name ≡ return name
    → trusted_public_key name id store ≡ return material
    → view store name id ≡ some material
unfolding trusted_public_key
trusted_public_key-view name id store material normal h =
    let (n, n1, h1) = and_then-eq-return (normalize_publisher name) _ h in
    let same : n ≡ name = return_inj (sym n1 ∙ normal) in
    let (publishers, readable, h2) = and_then-eq-return (read_store store) _ h1 in
    let found = rw same at h2 in rw (view_of-read store publishers readable, found) refl

one_algorithm :
    (v : Option Value)
    → is_str v legacy_signature_algorithm ≡ true
    → is_str v signature_algorithm ≡ false
one_algorithm none h = cc
one_algorithm (some (str s)) h =
    let same : s ≡ legacy_signature_algorithm = (eq_iff s legacy_signature_algorithm).0 h in
    rw same refl
one_algorithm (some _) h = cc

revoke_key-IsReadable :
    (publisher id : String) (store : StoreFile)
    → (revoke_key publisher id store).0 ≡ return tt
    → IsReadable store
unfolding revoke_key ◌>>=◌
revoke_key-IsReadable publisher id store h =
    let (name, named, h1) = continue-eq-return (normalize_publisher publisher) _ store h in
    let (publishers, readable, h2) = continue-eq-return (read_store store) _ store h1 in
    (publishers, readable)

module _ (crypto : Crypto) where
  trust_store_key-view :
      (payload : Fields) (store : StoreFile) (material : String)
      → trust_store_key crypto payload store ≡ return material
      → (name : String) × (normalize_publisher (text_at crypto payload "publisher") ≡ return name)
        × (view store name (strip (text_at crypto payload "key_id")) ≡ some material)
  trust_store_key-view payload store material h =
      let (name, named, h1) =
        and_then-eq-return (normalize_publisher (text_at crypto payload "publisher")) _ h in
      let (some_id, h2) = guard-eq-return (strip (text_at crypto payload "key_id") == "") _ _ h1 in
      (
        name,
        named,
        trusted_public_key-view name (strip (text_at crypto payload "key_id")) store material
            (normalize_publisher_idem (text_at crypto payload "publisher") name named) h2,
      )

  verify_ed25519_digest-IsVouched :
      (digest : String) (payload : Fields) (store : StoreFile) (result : Fields)
      → verify_ed25519_digest crypto digest payload none (some store) ≡ return result
      → IsVouched crypto digest payload (view store)
  unfolding verify_ed25519_digest resolve_verification_public_key
  verify_ed25519_digest-IsVouched digest payload store result h =
      let (same_hash, h1) = guard-eq-return (not (is_str (field? payload "hash") digest)) _ _ h in
      let (encoded, h2) =
        guard-eq-return (not (is_str (field? payload "signature_encoding") "base64")) _ _ h1 in
      elim (Option-cases (crypto.b64decode (text_at crypto payload "signature"))) [
        | inl e ↦ let q = rw e at h2 in cc
        | inr (signature, e) ↦
            let h3 = rw e at h2 in
            let (material, m, h4) =
              and_then-eq-return (trust_store_key crypto payload store) _ h3 in
            let (key, k, h5) = and_then-eq-return (crypto.load_public_key material) _ h4 in
            let (good, h6) = guard-eq-return (not (crypto.verify key signature digest)) _ _ h5 in
            let (name, named, trusted) = trust_store_key-view payload store material m in
            record {
              hash = not-false (is_str (field? payload "hash") digest) same_hash;
              name = name;
              named = named;
              material = material;
              trusted = trusted;
              key = key;
              loaded = k;
              signature = signature;
              decoded = e;
              verified = not-false (crypto.verify key signature digest) good;
            }
      ]

  verify_signature-digest :
      (digest : String) (payload : Fields) (key public_key : Option String)
      (store : Option StoreFile)
      → is_str (field? payload "algorithm") signature_algorithm ≡ true
      → verify_signature crypto digest payload key public_key store
        ≡ verify_ed25519_digest crypto digest payload public_key store
  unfolding verify_signature
  verify_signature-digest digest payload key public_key store ed25519 =
      elim (Bool-cases (is_str (field? payload "algorithm") legacy_signature_algorithm)) [
        | inr e ↦ rw (e, ed25519) refl
        | inl e ↦ let both = one_algorithm (field? payload "algorithm") e in cc
      ]

  -- A package whose Ed25519 signature is verified with a trust store, no public key given, has
  -- the digest that the signature names, and the signature is valid for the digest under a key
  -- that the store trusts for the publisher and the key id that the signature names.
  pub verify_signature-IsVouched :
      (digest : String) (payload : Fields) (key : Option String) (store : StoreFile)
      (result : Fields)
      → is_str (field? payload "algorithm") signature_algorithm ≡ true
      → verify_signature crypto digest payload key none (some store) ≡ return result
      → IsVouched crypto digest payload (view store)
  verify_signature-IsVouched digest payload key store result ed25519 h =
      verify_ed25519_digest-IsVouched digest payload store result
        (sym (verify_signature-digest digest payload key none (some store) ed25519) ∙ h)

  -- What revoke_key did, where it returned.
  revoke_key-distrust :
      (publisher id name : String) (store : StoreFile)
      → (revoke_key publisher id store).0 ≡ return tt
      → normalize_publisher publisher ≡ return name
      → view (revoke_key publisher id store).1 ≡ distrust name id (view store)
  revoke_key-distrust publisher id name store returned normal =
      let h =
        perform-Shows crypto.load_public_key (revoking publisher id) store
          (revoke_key-IsReadable publisher id store returned) in
      h.shown ∙ rw normal refl

  -- After revoke_key has returned, no package with an Ed25519 signature that names the publisher
  -- and the key is verified with the trust store, no public key given.
  pub revoke_key-verify_signature :
      (publisher id digest : String) (payload : Fields) (key : Option String) (store : StoreFile)
      → (revoke_key publisher id store).0 ≡ return tt
      → is_str (field? payload "algorithm") signature_algorithm ≡ true
      → normalize_publisher (text_at crypto payload "publisher") ≡ normalize_publisher publisher
      → strip (text_at crypto payload "key_id") ≡ id
      → (e : Exception) × (verify_signature crypto digest payload key none
            (some (revoke_key publisher id store).1)
          ≡ raise e)
  revoke_key-verify_signature publisher id digest payload key store returned ed25519 same_name
        same_id =
      let after = (revoke_key publisher id store).1 in
      elim (Result-cases (verify_signature crypto digest payload key none (some after))) [
        | inr (e, h) ↦ (e, h)
        | inl (result, h) ↦
            let v = verify_signature-IsVouched digest payload key after result ed25519 h in
            let gone =
              revoke_key-distrust publisher id v.name store returned (sym same_name ∙ v.named) in
            let none_there : view after v.name (strip (text_at crypto payload "key_id")) ≡ none =
              rw (gone, same_id, eq_refl v.name, eq_refl id) refl in
            let q = sym v.trusted ∙ none_there in cc
      ]
