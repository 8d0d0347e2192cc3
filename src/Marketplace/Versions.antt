-- ===== src/Marketplace/Versions.antt =====
-- Names and versions of plugins in modules/plugin_system/marketplace.py and models.py: the patterns
-- that they match, and the order of versions. The decimal digits of Unicode are a parameter.
use Prim.Native.Char.{code}
use humanoid_agi_plugin_syst.Prelude.{
  ℕ, ◌+◌, ◌*◌, String, Bool, true, false, not, ◌&&◌, ◌||◌, Option, none, some, is_some, List, [],
  ◌∷◌, leb, nat_eq, if◌then◌else◌,
}
use humanoid_agi_plugin_syst.Prelude.Effects.{Result, and_then, return, failure, value_error}
use humanoid_agi_plugin_syst.Prelude.Names.{codes, codes_lt}
use humanoid_agi_plugin_syst.Prelude.Text.{any_code, char_count, first_part, rest_parts, split_on}

abbrev is_lower : ℕ → Bool
is_lower c = leb b'a' c && leb c b'z'

abbrev is_ascii_digit : ℕ → Bool
is_ascii_digit c = leb b'0' c && leb c b'9'

abbrev is_name_code : ℕ → Bool
is_name_code c = is_lower c || is_ascii_digit c || nat_eq c b'_'

-- PLUGIN_NAME_PATTERN, of a text without a line break at its end.
unfoldable pub is_plugin_name : String → Bool
is_plugin_name String.[] = false
is_plugin_name (String.◌∷◌ c s) =
    is_lower (code c)
    && leb 1 (char_count s)
    && leb (char_count s) 63
    && not (any_code (λ d. not (is_name_code d)) s)

-- A code of the class [0-9A-Za-z.-].
abbrev is_suffix_code : ℕ → Bool
is_suffix_code c =
    is_ascii_digit c || is_lower c || (leb b'A' c && leb c b'Z') || nat_eq c b'.' || nat_eq c b'-'

is_suffix : String → Bool
is_suffix String.[] = true
is_suffix (String.◌∷◌ c s) =
    (nat_eq (code c) b'-' || nat_eq (code c) b'+')
    && leb 1 (char_count s)
    && not (any_code (λ d. not (is_suffix_code d)) s)

-- The parts of a version that are compared: three numbers, 1 for a release and 0 otherwise, and
-- what follows the first "-".
pub record SemverKey : Type 0 where
  pub major : ℕ
  pub minor : ℕ
  pub patch : ℕ
  pub release : ℕ
  pub suffix : String

-- Tuples are compared item by item, and texts by their codes.
abbrev pub key_codes : SemverKey → List ℕ
key_codes k = k.major ∷ k.minor ∷ k.patch ∷ k.release ∷ codes k.suffix

unfoldable pub key_lt : SemverKey → SemverKey → Bool
unfolding codes_lt
key_lt a b = codes_lt (key_codes a) (key_codes b)

module _ (digit : ℕ → Option ℕ) where
  -- What is left after the digits at the start.
  after_digits : String → String
  after_digits String.[] = String.[]
  after_digits (String.◌∷◌ c s) =
      let rest = after_digits s in if is_some (digit (code c)) then rest else String.◌∷◌ c s

  number_then : String → Option String
  unfolding after_digits
  number_then String.[] = none
  number_then (String.◌∷◌ c s) = if is_some (digit (code c)) then some (after_digits s) else none

  dot_then : Option String → Option String
  dot_then none = none
  dot_then (some String.[]) = none
  dot_then (some (String.◌∷◌ c s)) = if nat_eq (code c) b'.' then some s else none

  abbrev next_number : Option String → Option String
  next_number none = none
  next_number (some s) = number_then s

  -- SEMVER_PATTERN, of a text without a line break at its end.
  unfoldable pub is_semver : String → Bool
  unfolding number_then dot_then is_suffix
  is_semver version = elim (next_number (dot_then (next_number (dot_then (number_then version))))) [
    | none ↦ false
    | some rest ↦ is_suffix rest
  ]

  add_digit : Result ℕ → Option ℕ → Result ℕ
  add_digit (return n) (some d) = return (n * 10 + d)
  add_digit _ _ = failure value_error "invalid literal for int()"

  int_from : Result ℕ → String → Result ℕ
  unfolding add_digit
  int_from n String.[] = n
  int_from n (String.◌∷◌ c s) = int_from (add_digit n (digit (code c))) s

  -- `int(part)`, of a part of a version: digits, or a text that `int` refuses.
  unfoldable pub int_of : String → Result ℕ
  unfolding int_from
  int_of String.[] = failure value_error "invalid literal for int()"
  int_of (String.◌∷◌ c s) = int_from (return 0) (String.◌∷◌ c s)

  unfoldable pub ints_of : List String → Result (List ℕ)
  unfolding int_of
  ints_of [] = return []
  ints_of (part ∷ parts) =
      and_then (int_of part) (λ n. and_then (ints_of parts) (λ ns. return (n ∷ ns)))

  abbrev key_of : Bool → String → List ℕ → Result SemverKey
  key_of is_release suffix (major ∷ minor ∷ patch ∷ []) = return (record {
    major = major;
    minor = minor;
    patch = patch;
    release = if is_release then 1 else 0;
    suffix = suffix;
  })
  key_of is_release suffix _ = failure value_error "not three values to unpack"

  abbrev is_none : Option String → Bool
  is_none none = true
  is_none (some s) = false

  abbrev text_or_empty : Option String → String
  text_or_empty none = ""
  text_or_empty (some s) = s

  unfoldable pub semver_sort_key : String → Result SemverKey
  unfolding ints_of first_part rest_parts split_on
  semver_sort_key version =
      and_then (ints_of (split_on b'.' (first_part b'-' version)))
        (key_of (is_none (rest_parts b'-' version)) (text_or_empty (rest_parts b'-' version)))
