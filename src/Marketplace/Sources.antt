-- ===== src/Marketplace/Sources.antt =====
-- What modules/plugin_system/marketplace.py looks up: the newest entry of an index, the artifact
-- that a reference names, and the bytes of a response up to a limit.
use humanoid_agi_plugin_syst.Prelude.{
  ℕ, ◌+◌, ◌-◌, ◌*◌, String, Bool, true, not, ◌&&◌, ◌||◌, Option, none, some, List, [], ◌∷◌, ◌++◌,
  ltb, length, keep, contains, is_empty, ◌==◌, if◌then◌else◌,
}
use humanoid_agi_plugin_syst.Prelude.Effects.{Result, and_then, return}
use humanoid_agi_plugin_syst.Models.{Fields}
use humanoid_agi_plugin_syst.Gateway.Network.{Url}
use humanoid_agi_plugin_syst.Marketplace.Versions.{SemverKey, key_lt, semver_sort_key}
use humanoid_agi_plugin_syst.Marketplace.Entries.{
  Python, RegistryEntry, refuse, validate_artifact_reference_shape,
}

-- `source`, `entries` and the rest of the class RegistryIndex.
pub record RegistryIndex : Type 0 where
  pub source : String
  pub entries : List RegistryEntry
  pub signature : Option Fields
  pub revoked_keys : List String
  pub revoked_plugin_versions : List (String × String)

-- Where an index was read: its text, and the URL or the folder that references start from.
pub record RegistrySource : Type 0 where
  pub original : String
  pub remote_base : Option String
  pub local_base : Option String

-- A path or a URL.
pub data ResolvedReference : Type 0 where
  local : String → ResolvedReference
  remote : String → ResolvedReference

-- The paths of the host: `is_absolute`, `(base / reference).resolve()`, `resolve()` and `parents`.
pub record Paths : Type 0 where
  pub is_absolute : String → Bool
  pub join : String → String → String
  pub resolve : String → String
  pub parents : String → List String

abbrev pub Keyed : Type 0
Keyed = SemverKey × RegistryEntry

abbrev pub asked_version : Option String → RegistryEntry → Bool
asked_version none e = true
asked_version (some version) e = e.version == version

-- `matches` of RegistryIndex.find.
abbrev pub matching : String → Option String → List RegistryEntry → List RegistryEntry
matching name version entries = keep (asked_version version) (keep (λ e. e.name == name) entries)

-- Sorting by key in reverse keeps the order of entries with one key.
unfoldable pub insert_desc : Keyed → List Keyed → List Keyed
unfolding key_lt
insert_desc x [] = x ∷ []
insert_desc x (y ∷ ys) =
    let rest = insert_desc x ys in if key_lt x.0 y.0 then y ∷ rest else x ∷ y ∷ ys

unfoldable pub sort_desc : List Keyed → List Keyed
unfolding insert_desc
sort_desc [] = []
sort_desc (x ∷ xs) = insert_desc x (sort_desc xs)

abbrev pub first_entry : List Keyed → Result RegistryEntry
first_entry [] = refuse "plugin not found in registry"
first_entry ((k, e) ∷ xs) = return e

unfoldable pub keyed : (ℕ → Option ℕ) → List RegistryEntry → Result (List Keyed)
unfolding semver_sort_key
keyed digit [] = return []
keyed digit (e ∷ es) =
    and_then (semver_sort_key digit e.version)
      (λ k. and_then (keyed digit es) (λ ks. return ((k, e) ∷ ks)))

-- RegistryIndex.find; without an entry that matches there is nothing to sort.
unfoldable pub find :
    (ℕ → Option ℕ) → List RegistryEntry → String → Option String → Result RegistryEntry
unfolding keyed sort_desc
find digit entries name version =
    and_then (keyed digit (matching name version entries)) (λ ks. first_entry (sort_desc ks))

module _ (py : Python) (paths : Paths) where
  abbrev is_http : String → Bool
  is_http scheme = scheme == "http" || scheme == "https"

  abbrev remote_reference : String → Url → Url → Result ResolvedReference
  remote_reference resolved base parsed =
      if not (is_http parsed.scheme)
      then refuse "unsupported registry scheme"
      else if not (parsed.scheme == base.scheme && parsed.netloc == base.netloc)
      then refuse "registry reference escapes registry origin"
      else if parsed.has_credentials || not (parsed.fragment == "")
      then refuse "registry reference must not contain credentials or fragments"
      else return (remote resolved)

  abbrev local_reference : String → Url → String → Result ResolvedReference
  local_reference reference parsed_ref folder =
      let target = paths.join folder reference in
      let base = paths.resolve folder in
      if not (parsed_ref.scheme == "")
      then refuse "local registry reference must be relative"
      else if paths.is_absolute reference
      then refuse "local registry reference must be relative"
      else if not (target == base) && not (contains base (paths.parents target))
      then refuse "local registry reference escapes registry directory"
      else return (local target)

  abbrev resolve_from : String → Url → RegistrySource → Result ResolvedReference
  resolve_from reference parsed_ref source = elim source.remote_base [
    | some base ↦
        let resolved = py.urljoin base reference in
        and_then (py.urlparse base)
          (λ parsed_base. and_then (py.urlparse resolved) (remote_reference resolved parsed_base))
    | none ↦ elim source.local_base [
      | none ↦ refuse "registry source has no artifact base"
      | some folder ↦ local_reference reference parsed_ref folder
    ]
  ]

  -- `_resolve_artifact_reference`. The base of a remote source is not empty.
  unfoldable pub resolve_artifact_reference :
      String → RegistrySource → String → Result ResolvedReference
  unfolding validate_artifact_reference_shape
  resolve_artifact_reference reference source expected_suffix =
      and_then (validate_artifact_reference_shape py reference expected_suffix) (λ _.
        and_then (py.urlparse reference) (λ parsed_ref. resolve_from reference parsed_ref source))

abbrev pub mebibyte : ℕ
mebibyte = 1024 * 1024

abbrev pub min : ℕ → ℕ → ℕ
min a b = if ltb a b then a else b

-- The loop of `_read_limited`: `read` takes the number of the call and the size that is asked for.
-- The fuel is the number of calls that may still be made; without fuel the result is `none`.
module _ (read : ℕ → ℕ → List ℕ) where
  unfoldable pub read_loop : ℕ → ℕ → ℕ → List ℕ → Option (List ℕ)
  read_loop fuel call ℕ.zero data_read = some data_read
  read_loop ℕ.zero call (ℕ.suc remaining) data_read = none
  read_loop (ℕ.suc fuel) call (ℕ.suc remaining) data_read =
      let chunk = read call (min mebibyte (ℕ.suc remaining)) in
      let rest = read_loop fuel (call + 1) (ℕ.suc remaining - length chunk) (data_read ++ chunk) in
      if is_empty chunk then some data_read else rest

  abbrev within_limit : ℕ → Option (List ℕ) → Option (Result (List ℕ))
  within_limit max_bytes none = none
  within_limit max_bytes (some data_read) = some (
      if ltb max_bytes (length data_read)
      then refuse "registry response exceeds size limit"
      else return data_read)

  unfoldable pub read_limited : ℕ → ℕ → Option (Result (List ℕ))
  unfolding read_loop
  read_limited fuel max_bytes = within_limit max_bytes (read_loop fuel 0 (max_bytes + 1) [])
