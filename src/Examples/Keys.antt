-- ===== src/Examples/Keys.antt =====
-- The theorems on modules/plugin_system/signing.py at a publisher with one key.
use humanoid_agi_plugin_syst.Prelude.{List, ◌≡◌, refl, sym, none, some, [], ◌∷◌, map, ◌==◌, eq_refl}
use humanoid_agi_plugin_syst.Prelude.Dict
use humanoid_agi_plugin_syst.Prelude.Effects.{Exception, return, raise, return_inj, run_all, ◌>>=◌}
use humanoid_agi_plugin_syst.Prelude.Text.{strip, collapse, char_count, has_char}
use humanoid_agi_plugin_syst.Models.{str, Fields}
use humanoid_agi_plugin_syst.Signing.Store.{
  StoreFile, missing, holding, PublicKey, new_entry, normalize_publisher, read_store, key_entry,
  revoke_key, trusted_public_key, trusted_entry, trusted_material,
}
use humanoid_agi_plugin_syst.Signing.Packages.{
  Crypto, signed_fields, sign_package, verify_signature, verify_ed25519_digest,
  resolve_verification_public_key,
}
use humanoid_agi_plugin_syst.Signing.Trust.{
  view, Operation, adding, revoking, perform, change_all, run_all-view,
}
use humanoid_agi_plugin_syst.Signing.Verified.{
  IsVouched, verify_signature-IsVouched, revoke_key-verify_signature,
}
use humanoid_agi_plugin_syst.Signing.Signed.{IsLawful, sign_package-verify_signature}

abbrev ann_key : PublicKey
ann_key = record { pem = "BEGIN"; id = "k1" }

-- A signature is the signed text itself.
abbrev pub toy : Crypto
toy = record {
  text_of = λ v. elim v [ str s ↦ s | _ ↦ "" ];
  hmac_sha256 = λ key text. text;
  load_public_key = λ text. return (record { pem = text; id = "k1" });
  load_private_key = λ text. return ann_key;
  sign = λ private_key text. text;
  b64encode = λ s. s;
  b64decode = λ s. some s;
  verify = λ key signature text. signature == text;
  signing_key = none;
  public_key = none;
}

toy-IsLawful : IsLawful toy
toy-IsLawful = record {
  text_str = λ s. refl;
  decode-encode = λ s. refl;
  load-pem = λ private_key key h. let same : ann_key ≡ key = return_inj h in cc;
  verify-sign = λ private_key digest key h. eq_refl digest;
  id_present = λ private_key key h. let same : ann_key ≡ key = return_inj h in cc;
  strip-id = λ private_key key h.
      let same : ann_key ≡ key = return_inj h in unfold strip in rw (sym same) refl;
  pem_present = λ private_key key h. let same : ann_key ≡ key = return_inj h in cc;
}

abbrev two_steps : List Operation
two_steps = adding "ann" "BEGIN" ∷ revoking "ann" "k1" ∷ []

run_all-view_example :
    view (run_all (map (perform toy.load_public_key) two_steps) missing)
    ≡ change_all toy.load_public_key two_steps (view missing)
unfolding read_store
run_all-view_example = run_all-view toy.load_public_key two_steps missing ([], refl)

abbrev pub with_key : StoreFile
with_key = holding (("ann", some (("k1", some (new_entry ann_key)) ∷ [])) ∷ [])

abbrev signed : Fields
signed = signed_fields "h" "k1" "ann" "h"

verify_signature-IsVouched_example : IsVouched toy "h" signed (view with_key)
unfolding verify_signature verify_ed25519_digest resolve_verification_public_key normalize_publisher
    collapse char_count has_char strip trusted_public_key trusted_entry trusted_material key_entry
    read_store Dict.get
verify_signature-IsVouched_example =
    verify_signature-IsVouched toy "h" signed none with_key signed refl refl

revoke_key-verify_signature_example :
    (e : Exception) × (verify_signature toy "h" signed none none
        (some (revoke_key "ann" "k1" with_key).1)
      ≡ raise e)
unfolding revoke_key normalize_publisher collapse char_count has_char strip key_entry read_store
    Dict.get ◌>>=◌
revoke_key-verify_signature_example =
    revoke_key-verify_signature toy "ann" "k1" "h" signed none with_key refl refl refl refl

sign_package-verify_signature_example :
    (payload : Fields) × (sign_package toy "h" "private" (some "ann") none ≡ return payload)
    × (verify_signature toy "h" payload none none
          (some (perform toy.load_public_key (adding "ann" "BEGIN") missing).1)
        ≡ return payload)
unfolding normalize_publisher collapse char_count has_char read_store
sign_package-verify_signature_example =
    sign_package-verify_signature toy toy-IsLawful "h" "private" "ann" "ann" ann_key missing refl
      refl ([], refl)
