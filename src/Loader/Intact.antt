-- ===== src/Loader/Intact.antt =====
-- What the check of a plugin's files in modules/plugin_system/loader.py finds.
use mathlib.Core.Path.{subst}
use humanoid_agi_plugin_syst.Prelude.{
  String, ◌≡◌, refl, sym, Bool, true, false, not, ◌||◌, Option, none, some, is_some, List, [], ◌∷◌,
  inl, inr, Bool-cases, Option-cases, some_inj, not-false, eq_iff, ◌==◌, ◌≢◌, arith,
}
use humanoid_agi_plugin_syst.Prelude.Dict
use humanoid_agi_plugin_syst.Prelude.Dict.{Dict}
use humanoid_agi_plugin_syst.Prelude.Effects.{return, guard-eq-return}
use humanoid_agi_plugin_syst.Models.{
  Value, null, bool, num, str, arr, obj, Fields, end, field, field?, value_eq,
}
use humanoid_agi_plugin_syst.Loader.Integrity.{
  StoredFile, skipped, success, check_files, check_manifest, get_or_null, has_missing, has_extra,
  has_changed, differs, compare_files, build_file_integrity, verify_integrity,
}

-- A path that is neither recorded nor there, or whose record is that of the file.
pub data Agree : Option Value → Option Value → Type 0 where
  neither : Agree none none
  both :
      {recorded found : Value} → value_eq recorded found ≡ true → Agree (some recorded) (some found)

or-false : (a b : Bool) → (a || b) ≡ false → (a ≡ false) × (b ≡ false)
or-false true b h = cc
or-false false b h = (refl, h)

found_here :
    (o : Option Value) (u : Value)
    → not (is_some o) ≡ false
    → differs u o ≡ false
    → (w : Value) × (o ≡ some w) × (value_eq u w ≡ true)
found_here none u h k = let q : false ≡ true = sym h in cc
found_here (some w) u h k = (w, refl, not-false (value_eq u w) k)

has_missing-found :
    (expected : Fields) (actual : Dict Value) (path : String) (v : Value)
    → has_missing expected actual ≡ false
    → has_changed expected actual ≡ false
    → field? expected path ≡ some v
    → (w : Value) × (Dict.get actual path ≡ some w) × (value_eq v w ≡ true)
unfolding has_missing has_changed
has_missing-found end actual path v no_missing no_changed h = cc
has_missing-found (field other u expected) actual path v no_missing no_changed h =
    let (here, rest) = or-false (not (is_some (Dict.get actual other))) _ no_missing in
    let (same, others) = or-false (differs u (Dict.get actual other)) _ no_changed in
    elim (Bool-cases (other == path)) [
      | inr e ↦ has_missing-found expected actual path v rest others (rw e at h)
      | inl e ↦
          let same_path : other ≡ path = (eq_iff other path).0 e in
          let same_value : u ≡ v = some_inj (rw e at h) in
          rw (sym same_path, sym same_value) (found_here (Dict.get actual other) u here same)
    ]

has_extra-absent :
    (expected : Fields) (actual : Dict Value) (path : String)
    → has_extra actual expected ≡ false
    → field? expected path ≡ none
    → Dict.get actual path ≡ none
unfolding has_extra Dict.get
has_extra-absent expected [] path h absent = refl
has_extra-absent expected ((other, v) ∷ actual) path h absent =
    let (here, rest) = or-false (not (is_some (field? expected other))) _ h in
    elim (Bool-cases (other == path)) [
      | inr e ↦ rw e (has_extra-absent expected actual path rest absent)
      | inl e ↦
          let same_path : other ≡ path = (eq_iff other path).0 e in
          let q = rw (same_path, absent) at here in cc
    ]

compare_files-Agree :
    (expected : Fields) (actual : Dict Value) (path : String)
    → compare_files expected actual ≡ return success
    → Agree (field? expected path) (Dict.get actual path)
unfolding compare_files
compare_files-Agree expected actual path h =
    let (none_wrong, h1) =
      guard-eq-return
        (has_missing expected actual || has_extra actual expected || has_changed expected actual) _
        _ h in
    let (missing_or_extra, no_changed) =
      or-false (has_missing expected actual || has_extra actual expected)
        (has_changed expected actual) none_wrong in
    let (no_missing, no_extra) =
      or-false (has_missing expected actual) (has_extra actual expected) missing_or_extra in
    elim (Option-cases (field? expected path)) [
      | inl e ↦ rw (e, has_extra-absent expected actual path no_extra e) neither
      | inr (v, e) ↦
          let (w, found, same) = has_missing-found expected actual path v no_missing no_changed e in
          rw (e, found) (both same)
    ]

-- The files that a manifest records.
abbrev object_of : Value → Fields
object_of (obj fs) = fs
object_of v = end

abbrev pub recorded_files : Fields → Fields
recorded_files manifest =
    object_of (get_or_null (object_of (get_or_null manifest "file_integrity")) "files")

check_files-Agree :
    (v : Value) (folder : List StoredFile) (path : String)
    → check_files v folder ≡ return success
    → Agree (field? (object_of v) path) (Dict.get (build_file_integrity folder) path)
unfolding check_files
check_files-Agree (obj expected) folder path h =
    compare_files-Agree expected (build_file_integrity folder) path h
check_files-Agree null folder path h = cc
check_files-Agree (bool b) folder path h = cc
check_files-Agree (num n) folder path h = cc
check_files-Agree (str s) folder path h = cc
check_files-Agree (arr vs) folder path h = cc

check_manifest-Agree :
    (v : Value) (folder : List StoredFile) (path : String)
    → check_manifest v folder ≡ return success
    → Agree
        (field? (object_of (get_or_null (object_of v) "files")) path)
        (Dict.get (build_file_integrity folder) path)
unfolding check_manifest
check_manifest-Agree (obj expected) folder path h =
    let (version, h1) =
      guard-eq-return (not (value_eq (get_or_null expected "version") (num 1))) _ _ h in
    let (algorithm, h2) =
      guard-eq-return (not (value_eq (get_or_null expected "algorithm") (str "sha256"))) _ _ h1 in
    check_files-Agree (get_or_null expected "files") folder path h2
check_manifest-Agree null folder path h = cc
check_manifest-Agree (bool b) folder path h = cc
check_manifest-Agree (num n) folder path h = cc
check_manifest-Agree (str s) folder path h = cc
check_manifest-Agree (arr vs) folder path h = cc

-- A check of a plugin's files that succeeds finds each path recorded and there with the recorded hash
-- and size, or neither recorded nor among the files that are checked.
pub verify_integrity-Agree :
    (manifest : Fields) (folder : List StoredFile) (path : String)
    → verify_integrity manifest folder ≡ return success
    → Agree (field? (recorded_files manifest) path) (Dict.get (build_file_integrity folder) path)
unfolding verify_integrity
verify_integrity-Agree manifest folder path h =
    check_manifest-Agree (get_or_null manifest "file_integrity") folder path h

-- The manifest records no files: what it has under `file_integrity` is no object.
abbrev pub IsUnrecorded : Fields → Type 0
IsUnrecorded manifest = (fs : Fields) → get_or_null manifest "file_integrity" ≢ obj fs

compare_files-not_skipped :
    (expected : Fields) (actual : Dict Value) → compare_files expected actual ≢ return skipped
unfolding compare_files
compare_files-not_skipped expected actual h = ground arith

check_files-not_skipped :
    (v : Value) (folder : List StoredFile) → check_files v folder ≢ return skipped
unfolding check_files
check_files-not_skipped (obj expected) folder h =
    compare_files-not_skipped expected (build_file_integrity folder) h
check_files-not_skipped null folder h = cc
check_files-not_skipped (bool b) folder h = cc
check_files-not_skipped (num n) folder h = cc
check_files-not_skipped (str s) folder h = cc
check_files-not_skipped (arr vs) folder h = cc

check_manifest-not_skipped :
    (fs : Fields) (folder : List StoredFile) → check_manifest (obj fs) folder ≢ return skipped
unfolding check_manifest
check_manifest-not_skipped fs folder h =
    let (version, h1) = guard-eq-return (not (value_eq (get_or_null fs "version") (num 1))) _ _ h in
    let (algorithm, h2) =
      guard-eq-return (not (value_eq (get_or_null fs "algorithm") (str "sha256"))) _ _ h1 in
    check_files-not_skipped (get_or_null fs "files") folder h2

-- A check of a plugin's files is skipped only where the manifest records none.
pub verify_integrity-IsUnrecorded :
    (manifest : Fields) (folder : List StoredFile)
    → verify_integrity manifest folder ≡ return skipped
    → IsUnrecorded manifest
unfolding verify_integrity
verify_integrity-IsUnrecorded manifest folder h fs e =
    check_manifest-not_skipped fs folder (subst (λ v. check_manifest v folder ≡ return skipped) e h)
