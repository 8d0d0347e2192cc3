-- ===== src/Signing/Trust.antt =====
-- The trust store of modules/plugin_system/signing.py as a map from publishers and keys to key
-- material, and what a verified signature rests on.
use std.Path.{fun_ext}
use humanoid_agi_plugin_syst.Prelude.{
  List, ◌∷◌, map, String, ◌≡◌, refl, sym, ap, ◌∙◌, ◌&&◌, Option, none, some, [], arith, inl, inr,
  Bool-cases, eq_iff, ◌==◌, if◌then◌else◌,
}
use humanoid_agi_plugin_syst.Prelude.Dict
use humanoid_agi_plugin_syst.Prelude.Dict.{Dict, get-put, get-put_self}
use humanoid_agi_plugin_syst.Prelude.Effects.{
  Result, Exec, run_all, pure, ◌>>◌, Result-cases, return, raise, ◌>>=◌,
}
use humanoid_agi_plugin_syst.Signing.Store.{
  KeyEntry, Keys, Publishers, StoreFile, missing, malformed, holding, PublicKey,
  normalize_publisher, read_store, publisher_keys, put_entry, key_entry, trusted_material,
  trusted_entry, new_entry, add_key, revoke_key,
}

-- What a store says of each publisher and key: the material of a trusted key.
abbrev pub View : Type 0
View = String → String → Option String

abbrev pub material_of : Result String → Option String
material_of (return material) = some material
material_of (raise e) = none

abbrev pub publishers_view : Publishers → View
publishers_view publishers publisher key_id =
    material_of (trusted_entry publishers publisher key_id)

abbrev pub view : StoreFile → View
view missing = publishers_view []
view malformed = λ publisher key_id. none
view (holding publishers) = publishers_view publishers

-- The two operations on such a map. A key without material is not trusted.
abbrev pub trust : String → PublicKey → View → View
trust name key v = λ publisher key_id.
    if name == publisher && key.id == key_id
    then (if key.pem == "" then none else some key.pem)
    else v publisher key_id

abbrev pub distrust : String → String → View → View
distrust name id v =
    λ publisher key_id. if name == publisher && id == key_id then none else v publisher key_id

publisher_keys-put :
    (publishers : Publishers) (name publisher : String) (keys : Keys)
    → publisher_keys (Dict.put publishers name (some keys)) publisher
      ≡ (if name == publisher then keys else publisher_keys publishers publisher)
publisher_keys-put publishers name publisher keys = elim (Bool-cases (name == publisher)) [
  | inl e ↦ rw (get-put publishers name publisher (some keys), e) refl
  | inr e ↦ rw (get-put publishers name publisher (some keys), e) refl
]

key_entry-put :
    (publishers : Publishers) (name id publisher key_id : String) (entry : KeyEntry)
    → key_entry (put_entry publishers name id entry) publisher key_id ≡ (
        if name == publisher && id == key_id
        then return entry
        else key_entry publishers publisher key_id)
unfolding key_entry put_entry
key_entry-put publishers name id publisher key_id entry = elim (Bool-cases (name == publisher)) [
  | inl e ↦
      let same : name ≡ publisher = (eq_iff name publisher).0 e in
      elim (Bool-cases (id == key_id)) [
        | inl f ↦
            rw
              (
                publisher_keys-put publishers name publisher _,
                e,
                f,
                get-put (publisher_keys publishers name) id key_id (some entry),
                f,
              )
              refl
        | inr f ↦
            rw
              (
                publisher_keys-put publishers name publisher _,
                e,
                f,
                get-put (publisher_keys publishers name) id key_id (some entry),
                f,
                same,
              )
              refl
      ]
  | inr e ↦ rw (publisher_keys-put publishers name publisher _, e) refl
]

-- The two operations on a trust store, and a run of them whatever each raises.
pub data Operation : Type 0 where
  adding : (publisher public_key : String) → Operation
  revoking : (publisher key_id : String) → Operation

module _ (load_public_key : String → Result PublicKey) where
  abbrev pub perform : Operation → Exec StoreFile (Unit {0})
  perform (adding publisher public_key) = add_key load_public_key publisher public_key >> pure tt
  perform (revoking publisher key_id) = revoke_key publisher key_id

  abbrev trust_loaded : String → Result PublicKey → View → View
  trust_loaded name (return key) v = trust name key v
  trust_loaded name (raise e) v = v

  abbrev on_name : Result String → (String → View → View) → View → View
  on_name (return name) change v = change name v
  on_name (raise e) change v = v

  -- What an operation does to the map: nothing where the name or the key is not valid.
  abbrev pub change : Operation → View → View
  change (adding publisher public_key) =
      on_name (normalize_publisher publisher)
        (λ name. trust_loaded name (load_public_key public_key))
  change (revoking publisher key_id) =
      on_name (normalize_publisher publisher) (λ name. distrust name key_id)

  abbrev pub change_all : List Operation → View → View
  change_all [] v = v
  change_all (op ∷ ops) v = change_all ops (change op v)

abbrev pub IsReadable : StoreFile → Type 0
IsReadable file = (publishers : Publishers) × (read_store file ≡ return publishers)

pub view_of-read :
    (file : StoreFile) (publishers : Publishers)
    → read_store file ≡ return publishers
    → view file ≡ publishers_view publishers
unfolding read_store
view_of-read missing publishers h = let same : [] ≡ publishers = cc in ap publishers_view same
view_of-read malformed publishers h = cc
view_of-read (holding found) publishers h =
    let same : found ≡ publishers = cc in ap publishers_view same

publishers_view-put :
    (publishers : Publishers) (name id : String) (entry : KeyEntry)
    → publishers_view (put_entry publishers name id entry) ≡ (λ publisher key_id.
      if name == publisher && id == key_id
      then material_of (trusted_material entry)
      else publishers_view publishers publisher key_id)
unfolding trusted_entry
publishers_view-put publishers name id entry = fun_ext (λ publisher. fun_ext (λ key_id.
    elim (Bool-cases (name == publisher && id == key_id)) [
      | inl e ↦ rw (key_entry-put publishers name id publisher key_id entry, e) refl
      | inr e ↦ rw (key_entry-put publishers name id publisher key_id entry, e) refl
    ]))

material-new :
    (key : PublicKey)
    → material_of (trusted_material (new_entry key))
      ≡ (if key.pem == "" then none else some key.pem)
unfolding trusted_material
material-new key = elim (Bool-cases (key.pem == "")) [ inl e ↦ rw e refl | inr e ↦ rw e refl ]

material-revoked :
    (entry : KeyEntry)
    → material_of (trusted_material (record entry { status = some "revoked" })) ≡ none
unfolding trusted_material
material-revoked entry = refl

distrust-absent : (name id : String) (v : View) → v name id ≡ none → distrust name id v ≡ v
distrust-absent name id v absent = fun_ext (λ publisher. fun_ext (λ key_id.
    elim (Bool-cases (name == publisher && id == key_id)) [
      | inr e ↦ rw e refl
      | inl e ↦
          let same_name : name ≡ publisher = (eq_iff name publisher).0 (ground (arith, e)) in
          let same_id : id ≡ key_id = (eq_iff id key_id).0 (ground (arith, e)) in
          let none_here : v publisher key_id ≡ none = cc in rw (e, none_here) refl
    ]))

-- The change of a file by an operation, as the map shows it.
pub record Shows (before : StoreFile) (change : View → View) (after : StoreFile) : Type 0 where
  pub still_readable : IsReadable after
  pub shown : view after ≡ change (view before)

add-Shows :
    (file : StoreFile) (publishers : Publishers) (name : String) (key : PublicKey)
    → read_store file ≡ return publishers
    → Shows file (trust name key) (holding (put_entry publishers name key.id (new_entry key)))
unfolding read_store
add-Shows file publishers name key readable = record {
  still_readable = (_, refl);
  shown =
      rw
        (
          view_of-read file publishers readable,
          publishers_view-put publishers name key.id (new_entry key),
          material-new key,
        )
        refl;
}

revoke-Shows :
    (file : StoreFile) (publishers : Publishers) (name id : String) (entry : KeyEntry)
    → read_store file ≡ return publishers
    → Shows file
        (distrust name id)
        (holding (put_entry publishers name id (record entry { status = some "revoked" })))
unfolding read_store
revoke-Shows file publishers name id entry readable = record {
  still_readable = (_, refl);
  shown =
      rw
        (
          view_of-read file publishers readable,
          publishers_view-put publishers name id (record entry { status = some "revoked" }),
          material-revoked entry,
        )
        refl;
}

untouched-Shows : (file : StoreFile) → IsReadable file → Shows file (λ v. v) file
untouched-Shows file readable = record { still_readable = readable; shown = refl }

module _ (load_public_key : String → Result PublicKey) where
  pub perform-Shows :
      (op : Operation) (file : StoreFile)
      → IsReadable file
      → Shows file (change load_public_key op) (perform load_public_key op file).1
  unfolding add_key revoke_key ◌>>=◌
  perform-Shows (adding publisher public_key) file (publishers, readable) =
      elim (Result-cases (normalize_publisher publisher)) [
        | inr (x, e) ↦ rw e (untouched-Shows file (publishers, readable))
        | inl (name, e) ↦ elim (Result-cases (load_public_key public_key)) [
          | inr (x, l) ↦ rw (e, l) (untouched-Shows file (publishers, readable))
          | inl (key, l) ↦ rw (e, l, readable) (add-Shows file publishers name key readable)
        ]
      ]
  perform-Shows (revoking publisher key_id) file (publishers, readable) =
      elim (Result-cases (normalize_publisher publisher)) [
        | inr (x, e) ↦ rw e (untouched-Shows file (publishers, readable))
        | inl (name, e) ↦ elim (Result-cases (key_entry publishers name key_id)) [
          | inl (entry, k) ↦
              rw (e, readable, k) (revoke-Shows file publishers name key_id entry readable)
          | inr (x, k) ↦
              let absent : view file name key_id ≡ none =
                unfold trusted_entry in rw (view_of-read file publishers readable, k) refl in
              rw (e, readable, k)
                record {
                  still_readable = (publishers, readable);
                  shown = sym (distrust-absent name key_id (view file) absent);
                }
        ]
      ]

  -- The map of a readable trust store changes, over any additions and revocations of keys, as the
  -- two operations on maps say, whether each returns or raises: an addition with a valid name and
  -- key trusts the key, a revocation with a valid name stops trusting it, and nothing else changes.
  pub run_all-view :
      (ops : List Operation) (file : StoreFile)
      → IsReadable file
      → view (run_all (map (perform load_public_key) ops) file)
        ≡ change_all load_public_key ops (view file)
  run_all-view [] file readable = refl
  run_all-view (op ∷ ops) file readable =
      let h = perform-Shows op file readable in
      run_all-view ops (perform load_public_key op file).1 h.still_readable
      ∙ ap (change_all load_public_key ops) h.shown
