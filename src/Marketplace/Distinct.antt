-- ===== src/Marketplace/Distinct.antt =====
-- The entries of an index that modules/plugin_system/marketplace.py accepts.
use humanoid_agi_plugin_syst.Prelude.{
  String, ◌≡◌, ◌≤◌, refl, sym, false, not, List, [], ◌∷◌, arith, ltb, length, All, eq_iff,
}
use humanoid_agi_plugin_syst.Prelude.Effects.{
  return, return_inj, and_then-eq-return, guard-eq-return,
}
use humanoid_agi_plugin_syst.Models.{
  Value, null, bool, num, str, arr, obj, Items, nil, cons, Fields, value_eq,
}
use humanoid_agi_plugin_syst.Marketplace.Entries.{
  Python, RegistryEntry, same_key, is_seen, key_of_entry, get_or_null, count, plugins_of, entry_of,
  parse_entries, parse_index_payload,
}

abbrev pub keys_of : List RegistryEntry → List (String × String)
keys_of [] = []
keys_of (e ∷ es) = key_of_entry e ∷ keys_of es

-- No two entries have one name and one version.
abbrev pub IsDistinct : List RegistryEntry → Type 0
IsDistinct [] = Unit
IsDistinct (e ∷ es) = (is_seen (key_of_entry e) (keys_of es) ≡ false) × IsDistinct es

abbrev IsFresh : List (String × String) → List RegistryEntry → Type 0
IsFresh seen = All (λ e. is_seen (key_of_entry e) seen ≡ false)

IsFresh-tail :
    (key : String × String) (seen : List (String × String)) (es : List RegistryEntry)
    → IsFresh (key ∷ seen) es
    → IsFresh seen es
unfolding is_seen
IsFresh-tail key seen [] h = tt
IsFresh-tail key seen (e ∷ es) (h, hs) = (ground (arith, h), IsFresh-tail key seen es hs)

same_key_sym : (a b : String × String) → same_key a b ≡ false → same_key b a ≡ false
same_key_sym a b h =
    ground (arith, h, eq_iff a.0 b.0, eq_iff b.0 a.0, eq_iff a.1 b.1, eq_iff b.1 a.1)

IsFresh-unseen :
    (key : String × String) (seen : List (String × String)) (es : List RegistryEntry)
    → IsFresh (key ∷ seen) es
    → is_seen key (keys_of es) ≡ false
unfolding is_seen
IsFresh-unseen key seen [] h = refl
IsFresh-unseen key seen (e ∷ es) (h, hs) =
    ground
      (arith, same_key_sym key (key_of_entry e) (ground (arith, h)), IsFresh-unseen key seen es hs)

module _ (py : Python) where
  parse_entries-IsDistinct :
      (vs : Items) (seen : List (String × String)) (entries : List RegistryEntry)
      → parse_entries py vs seen ≡ return entries
      → IsDistinct entries × IsFresh seen entries × (length entries ≡ count vs)
  unfolding parse_entries count
  parse_entries-IsDistinct nil seen entries h = rw (sym (return_inj h)) (tt, tt, refl)
  parse_entries-IsDistinct (cons v vs) seen entries h =
      let (entry, parsed, h1) = and_then-eq-return (entry_of py v) _ h in
      let (unseen, h2) = guard-eq-return (is_seen (key_of_entry entry) seen) _ _ h1 in
      let (rest, found, h3) =
        and_then-eq-return (parse_entries py vs (key_of_entry entry ∷ seen)) _ h2 in
      let (distinct, fresh, same) =
        parse_entries-IsDistinct vs (key_of_entry entry ∷ seen) rest found in
      rw (sym (return_inj h3)) (
        (IsFresh-unseen (key_of_entry entry) seen rest fresh, distinct),
        (unseen, IsFresh-tail (key_of_entry entry) seen rest fresh),
        omega (arith, same),
      )

  listed_entries :
      (v : Value) (entries : List RegistryEntry)
      → plugins_of py v ≡ return entries
      → IsDistinct entries × (length entries ≤ 1000)
  unfolding plugins_of
  listed_entries (arr vs) entries h =
      let (few, h1) = guard-eq-return (ltb 1000 (count vs)) _ _ h in
      let (distinct, fresh, same) = parse_entries-IsDistinct vs [] entries h1 in
      (distinct, ground (arith, few, same))
  listed_entries null entries h = cc
  listed_entries (bool b) entries h = cc
  listed_entries (num n) entries h = cc
  listed_entries (str s) entries h = cc
  listed_entries (obj fs) entries h = cc

  -- An index that is accepted lists at most 1000 entries, no two of which have one name and version.
  pub parse_index_payload-IsDistinct :
      (payload : Fields) (entries : List RegistryEntry)
      → parse_index_payload py payload ≡ return entries
      → IsDistinct entries × (length entries ≤ 1000)
  unfolding parse_index_payload
  parse_index_payload-IsDistinct payload entries h =
      let (version, h1) =
        guard-eq-return (not (value_eq (get_or_null payload "version") (num 1))) _ _ h in
      listed_entries (get_or_null payload "plugins") entries h1
