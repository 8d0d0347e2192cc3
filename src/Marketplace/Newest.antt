-- ===== src/Marketplace/Newest.antt =====
-- Which entry `RegistryIndex.find` of modules/plugin_system/marketplace.py returns.
use humanoid_agi_plugin_syst.Prelude.{
  ℕ, String, ◌≡◌, refl, sym, ap, ◌∙◌, Bool, true, false, Option, List, [], ◌∷◌, inl, inr,
  Bool-cases, keep, All, eq_iff, ◌==◌,
}
use mathlib.Core.Path.{subst}
use mathlib.Core.List.{Memᴰ}
use humanoid_agi_plugin_syst.Prelude.Names.{codes_lt, codes_lt_trans, codes_lt_asym}
use humanoid_agi_plugin_syst.Prelude.Effects.{return, return_inj, and_then-eq-return}
use humanoid_agi_plugin_syst.Marketplace.Versions.{SemverKey, key_codes, key_lt, semver_sort_key}
use humanoid_agi_plugin_syst.Marketplace.Entries.{RegistryEntry}
use humanoid_agi_plugin_syst.Marketplace.Sources.{
  Keyed, asked_version, matching, insert_desc, sort_desc, first_entry, keyed, find,
}

-- The entry has a version with this key or an older one.
pub record IsNotNewer (digit : ℕ → Option ℕ) (newest : SemverKey) (e : RegistryEntry) : Type 0 where
  pub key : SemverKey
  pub keyed_so : semver_sort_key digit e.version ≡ return key
  pub not_newer : key_lt newest key ≡ false

-- An entry of this name, and of this version if one is given, that is at least as new as every such
-- entry.
pub record IsNewest (digit : ℕ → Option ℕ) (entries : List RegistryEntry) (name : String)
    (version : Option String) (e : RegistryEntry) : Type 0 where
  pub listed : Memᴰ e entries
  pub named : e.name ≡ name
  pub versioned : asked_version version e ≡ true
  pub key : SemverKey
  pub keyed_so : semver_sort_key digit e.version ≡ return key
  pub newest : All (IsNotNewer digit key) (matching name version entries)

key_lt_irrefl : (k : SemverKey) → key_lt k k ≡ false
unfolding key_lt
key_lt_irrefl k = elim (Bool-cases (codes_lt (key_codes k) (key_codes k))) [
  | inl e ↦ codes_lt_asym (key_codes k) (key_codes k) e
  | inr e ↦ e
]

key_lt_asym : (a b : SemverKey) → key_lt a b ≡ true → key_lt b a ≡ false
unfolding key_lt
key_lt_asym a b h = codes_lt_asym (key_codes a) (key_codes b) h

key_lt_trans : (a b c : SemverKey) → key_lt a b ≡ false → key_lt b c ≡ false → key_lt a c ≡ false
unfolding key_lt
key_lt_trans a b c h k = codes_lt_trans (key_codes a) (key_codes b) (key_codes c) h k

abbrev IsAbove : SemverKey → List Keyed → Type 0
IsAbove k = All (λ x. key_lt k x.0 ≡ false)

IsAbove-trans :
    (a b : SemverKey) (xs : List Keyed) → key_lt a b ≡ false → IsAbove b xs → IsAbove a xs
IsAbove-trans a b [] h above = tt
IsAbove-trans a b (x ∷ xs) h (here, above) =
    (key_lt_trans a b x.0 h here, IsAbove-trans a b xs h above)

-- The first of a sorted list, which is one of the list and at least as new as all of it.
record IsTop (xs sorted : List Keyed) : Type 0 where
  top : Keyed
  rest : List Keyed
  first : sorted ≡ top ∷ rest
  listed : Memᴰ top xs
  above : IsAbove top.0 xs

insert_desc-IsTop :
    (x : Keyed) (xs sorted : List Keyed) → IsTop xs sorted → IsTop (x ∷ xs) (insert_desc x sorted)
unfolding insert_desc
insert_desc-IsTop x xs sorted h = elim (Bool-cases (key_lt x.0 h.top.0)) [
  | inl e ↦ record {
    top = h.top;
    rest = insert_desc x h.rest;
    first = rw (h.first, e) refl;
    listed = Memᴰ.tail h.listed;
    above = (key_lt_asym x.0 h.top.0 e, h.above);
  }
  | inr e ↦ record {
    top = x;
    rest = h.top ∷ h.rest;
    first = rw (h.first, e) refl;
    listed = Memᴰ.head refl;
    above = (key_lt_irrefl x.0, IsAbove-trans x.0 h.top.0 xs e h.above);
  }
]

sort_desc-IsTop : (x : Keyed) (xs : List Keyed) → IsTop (x ∷ xs) (sort_desc (x ∷ xs))
unfolding sort_desc insert_desc
sort_desc-IsTop x [] = record {
  top = x;
  rest = [];
  first = refl;
  listed = Memᴰ.head refl;
  above = (key_lt_irrefl x.0, tt);
}
sort_desc-IsTop x (y ∷ xs) =
    insert_desc-IsTop x (y ∷ xs) (sort_desc (y ∷ xs)) (sort_desc-IsTop y xs)

Memᴰ-keep :
    (p : RegistryEntry → Bool) (e : RegistryEntry) (xs : List RegistryEntry)
    → Memᴰ e (keep p xs)
    → Memᴰ e xs × (p e ≡ true)
Memᴰ-keep p e [] h = elim h [ ]
Memᴰ-keep p e (x ∷ xs) h = elim (Bool-cases (p x)) [
  | inr q ↦ let (m, r) = Memᴰ-keep p e xs (rw q at h) in (Memᴰ.tail m, r)
  | inl q ↦
      let kept : Memᴰ e (x ∷ keep p xs) = rw q at h in
      elim kept [
        | Memᴰ.head same ↦ (Memᴰ.head same, ap p same ∙ q)
        | Memᴰ.tail m ↦ let (listed, r) = Memᴰ-keep p e xs m in (Memᴰ.tail listed, r)
      ]
]

module _ (digit : ℕ → Option ℕ) where
  -- What giving keys to a list that is not empty came to.
  record Cons (e : RegistryEntry) (es : List RegistryEntry) (ks : List Keyed) : Type 0 where
    key : SemverKey
    rest : List Keyed
    keyed_so : semver_sort_key digit e.version ≡ return key
    found : keyed digit es ≡ return rest
    same : (key, e) ∷ rest ≡ ks

  keyed-Cons :
      (e : RegistryEntry) (es : List RegistryEntry) (ks : List Keyed)
      → keyed digit (e ∷ es) ≡ return ks
      → Cons e es ks
  unfolding keyed
  keyed-Cons e es ks h =
      let (k, key, h1) = and_then-eq-return (semver_sort_key digit e.version) _ h in
      let (rest, found, h2) = and_then-eq-return (keyed digit es) _ h1 in
      record { key = k; rest = rest; keyed_so = key; found = found; same = return_inj h2 }

  -- An entry among those that were given keys has its key.
  keyed-Memᴰ :
      (es : List RegistryEntry) (ks : List Keyed) (x : Keyed)
      → keyed digit es ≡ return ks
      → Memᴰ x ks
      → Memᴰ x.1 es × (semver_sort_key digit x.1.version ≡ return x.0)
  unfolding keyed
  keyed-Memᴰ [] ks x h m = elim (subst (Memᴰ x) (sym (return_inj h)) m) [ ]
  keyed-Memᴰ (e ∷ es) ks x h m =
      let c = keyed-Cons e es ks h in
      elim (subst (Memᴰ x) (sym c.same) m) [
        | Memᴰ.head p ↦ (Memᴰ.head (ap (λ y. y.1) p), rw p c.keyed_so)
        | Memᴰ.tail q ↦
            let (listed, key) = keyed-Memᴰ es c.rest x c.found q in (Memᴰ.tail listed, key)
      ]

  keyed-IsNotNewer :
      (top : SemverKey) (es : List RegistryEntry) (ks : List Keyed)
      → keyed digit es ≡ return ks
      → IsAbove top ks
      → All (IsNotNewer digit top) es
  keyed-IsNotNewer top [] ks h above = tt
  keyed-IsNotNewer top (e ∷ es) ks h above =
      let c = keyed-Cons e es ks h in
      let (here, others) = subst (IsAbove top) (sym c.same) above in
      (
        record { key = c.key; keyed_so = c.keyed_so; not_newer = here },
        keyed-IsNotNewer top es c.rest c.found others,
      )

  sort-find :
      (es : List RegistryEntry) (ks : List Keyed) (e : RegistryEntry)
      → keyed digit es ≡ return ks
      → first_entry (sort_desc ks) ≡ return e
      → (k : SemverKey) × Memᴰ e es
        × (semver_sort_key digit e.version ≡ return k)
        × All (IsNotNewer digit k) es
  unfolding sort_desc
  sort-find es [] e h first = cc
  sort-find es (x ∷ xs) e h first =
      let t = sort_desc-IsTop x xs in
      let same : t.top.1 ≡ e = return_inj (sym (ap first_entry t.first) ∙ first) in
      let (listed, key) = keyed-Memᴰ es (x ∷ xs) t.top h t.listed in
      (
        t.top.0,
        rw (sym same) listed,
        rw (sym same) key,
        keyed-IsNotNewer t.top.0 es (x ∷ xs) h t.above,
      )

  -- The entry that find returns is one of the index, with the name and, if it is asked for, the
  -- version; and no such entry of the index has a newer version.
  pub find-IsNewest :
      (entries : List RegistryEntry) (name : String) (version : Option String) (e : RegistryEntry)
      → find digit entries name version ≡ return e
      → IsNewest digit entries name version e
  unfolding find
  find-IsNewest entries name version e h =
      let (ks, found, h1) = and_then-eq-return (keyed digit (matching name version entries)) _ h in
      let (k, listed, key, newest) = sort-find (matching name version entries) ks e found h1 in
      let (of_name, versioned) =
        Memᴰ-keep (asked_version version) e (keep (λ x. x.name == name) entries) listed in
      let (in_index, named) = Memᴰ-keep (λ x. x.name == name) e entries of_name in
      record {
        listed = in_index;
        named = (eq_iff e.name name).0 named;
        versioned = versioned;
        key = k;
        keyed_so = key;
        newest = newest;
      }
