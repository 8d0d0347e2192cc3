-- ===== src/Signing/Store.antt =====
-- `TrustStore` of modules/plugin_system/signing.py. Its file is JSON, of which the parts that the
-- program reads are kept; the times of its entries are left out.
use humanoid_agi_plugin_syst.Prelude.{
  String, Bool, false, not, ◌||◌, Option, none, some, [], ltb, or_default, ◌==◌, if◌then◌else◌,
}
use humanoid_agi_plugin_syst.Prelude.Dict
use humanoid_agi_plugin_syst.Prelude.Dict.{Dict}
use humanoid_agi_plugin_syst.Prelude.Effects.{
  Exec, Result, and_then, return, failure, signature_error, ◌>>=◌, ◌>>◌, pure, lift,
}
use humanoid_agi_plugin_syst.Prelude.Text.{collapse, char_count, has_char}

-- An entry of a key. A field that is missing is `none`.
pub record KeyEntry : Type 0 where
  pub public_key : Option String
  pub algorithm : Option String
  pub status : Option String

-- The keys of a publisher; an entry that is no object is `none`.
abbrev pub Keys : Type 0
Keys = Dict (Option KeyEntry)

-- Publishers with their keys, `none` where there is no field `keys`.
abbrev pub Publishers : Type 0
Publishers = Dict (Option Keys)

-- The file of a trust store: missing, not well formed for one reason or another, or with publishers.
pub data StoreFile : Type 0 where
  missing : StoreFile
  malformed : StoreFile
  holding : Publishers → StoreFile

-- A public key as it is read, with its text in PEM and its fingerprint.
pub record PublicKey : Type 0 where
  pub pem : String
  pub id : String

abbrev pub signature_algorithm : String
signature_algorithm = "Ed25519-SHA256"

abbrev pub legacy_signature_algorithm : String
legacy_signature_algorithm = "HMAC-SHA256"

unfoldable pub normalize_publisher : String → Result String
unfolding collapse
normalize_publisher publisher =
    let value = collapse publisher in
    if value == ""
    then failure signature_error "publisher is required"
    else if ltb 128 (char_count value)
        || has_char b'/' value
        || has_char b'\\' value
        || has_char 10 value
        || has_char 13 value
        || has_char 9 value
    then failure signature_error "invalid publisher"
    else return value

-- `_read`.
unfoldable pub read_store : StoreFile → Result Publishers
read_store missing = return []
read_store malformed = failure signature_error "invalid trust store"
read_store (holding publishers) = return publishers

abbrev keys_of : Option (Option Keys) → Keys
keys_of none = []
keys_of (some none) = []
keys_of (some (some keys)) = keys

abbrev pub publisher_keys : Publishers → String → Keys
publisher_keys publishers publisher = keys_of (Dict.get publishers publisher)

-- `payload["publishers"][publisher]["keys"][key_id] = entry`, with what is missing on the way.
unfoldable pub put_entry : Publishers → String → String → KeyEntry → Publishers
put_entry publishers publisher key_id entry =
    Dict.put publishers publisher
      (some (Dict.put (publisher_keys publishers publisher) key_id (some entry)))

abbrev pub entry_or_raise : Option (Option KeyEntry) → Result KeyEntry
entry_or_raise none = failure signature_error "publisher key is not trusted"
entry_or_raise (some none) = failure signature_error "publisher key entry is invalid"
entry_or_raise (some (some entry)) = return entry

-- `_key_entry`.
unfoldable pub key_entry : Publishers → String → String → Result KeyEntry
key_entry publishers publisher key_id =
    entry_or_raise (Dict.get (publisher_keys publishers publisher) key_id)

abbrev is_text : Option String → String → Bool
is_text none t = false
is_text (some s) t = s == t

-- The tests of `trusted_public_key` on the entry.
unfoldable pub trusted_material : KeyEntry → Result String
trusted_material entry =
    if not (is_text entry.status "trusted")
    then failure signature_error "publisher key is not trusted"
    else if not (is_text entry.algorithm signature_algorithm)
    then failure signature_error "unsupported publisher key algorithm"
    else let public_key = or_default entry.public_key "" in
      if public_key == ""
      then failure signature_error "publisher key is missing public key material"
      else return public_key

-- `trusted_public_key`, of a publisher's normal name.
unfoldable pub trusted_entry : Publishers → String → String → Result String
unfolding key_entry trusted_material
trusted_entry publishers publisher key_id =
    and_then (key_entry publishers publisher key_id) trusted_material

unfoldable pub trusted_public_key : String → String → StoreFile → Result String
unfolding normalize_publisher read_store trusted_entry
trusted_public_key publisher key_id file =
    and_then (normalize_publisher publisher)
      (λ name. and_then (read_store file) (λ publishers. trusted_entry publishers name key_id))

abbrev pub new_entry : PublicKey → KeyEntry
new_entry key = record {
  public_key = some key.pem;
  algorithm = some signature_algorithm;
  status = some "trusted";
}

abbrev pub write_store : Publishers → Exec StoreFile (Unit {0})
write_store publishers file = (return tt, holding publishers)

abbrev pub read : Exec StoreFile Publishers
read file = (read_store file, file)

module _ (load_public_key : String → Result PublicKey) where
  unfoldable pub add_key : String → String → Exec StoreFile String
  unfolding put_entry
  add_key publisher public_key = do
    name ← lift (normalize_publisher publisher)
    key ← lift (load_public_key public_key)
    publishers ← read
    write_store (put_entry publishers name key.id (new_entry key))
    pure key.id

unfoldable pub revoke_key : String → String → Exec StoreFile (Unit {0})
unfolding put_entry
revoke_key publisher key_id = do
  name ← lift (normalize_publisher publisher)
  publishers ← read
  entry ← lift (key_entry publishers name key_id)
  write_store (put_entry publishers name key_id (record entry { status = some "revoked" }))
