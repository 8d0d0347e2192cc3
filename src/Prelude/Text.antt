-- ===== src/Prelude/Text.antt =====
-- What the program uses of Python's text methods, over the characters of a `String`.
use Prim.Native.Nat.{ℕ, zero, suc, ◌+◌}
use Prim.Native.Char.{Char, code}
use mathlib.Core.Path.{◌≡◌, refl}
use mathlib.Core.Logic.{inl, inr}
use Prim.Native.String.{String}
use mathlib.Core.Bool.{Bool, true, false, ◌&&◌, ◌||◌}
use mathlib.Core.Option.{Option, none, some}
use mathlib.Core.List.{List, [], ◌∷◌}
use text.Mathlib.Text.{◌==◌}
use humanoid_agi_plugin_syst.Prelude.Tests.{leb, nat_eq, Bool-cases, if◌then◌else◌}

-- `char.isspace()`, for the code points that Python's `strip` and `split` take as white space.
abbrev is_space : ℕ → Bool
is_space c =
    (leb 9 c && leb c 13)
    || (leb 28 c && leb c 32)
    || nat_eq c 133
    || nat_eq c 160
    || nat_eq c 5760
    || (leb 8192 c && leb c 8202)
    || nat_eq c 8232
    || nat_eq c 8233
    || nat_eq c 8239
    || nat_eq c 8287
    || nat_eq c 12288

abbrev is_blank : String → Bool
is_blank String.[] = true
is_blank (String.◌∷◌ c s) = false

lstrip : String → String
lstrip String.[] = String.[]
lstrip (String.◌∷◌ c s) = let rest = lstrip s in if is_space (code c) then rest else String.◌∷◌ c s

rstrip : String → String
rstrip String.[] = String.[]
rstrip (String.◌∷◌ c s) =
    let rest = rstrip s in
    if is_space (code c) && is_blank rest then String.[] else String.◌∷◌ c rest

-- text.strip()
unfoldable pub strip : String → String
unfolding lstrip rstrip
strip s = lstrip (rstrip s)

-- The words with one space between them: `started` after the first word, `gap` after a space.
collapse_from : (started gap : Bool) → String → String
collapse_from started gap String.[] = String.[]
collapse_from started gap (String.◌∷◌ c s) =
    let skip = collapse_from started true s in
    let next = String.◌∷◌ c (collapse_from true false s) in
    if is_space (code c) then skip else if started && gap then String.◌∷◌ " " next else next

-- " ".join(text.strip().split())
unfoldable pub collapse : String → String
unfolding collapse_from
collapse s = collapse_from false false s

word-collapse_from :
    (started gap : Bool) (c : Char) (s : String)
    → is_space (code c) ≡ false
    → collapse_from true false (collapse_from true false s) ≡ collapse_from true false s
    → collapse_from started false (
        if started && gap
        then String.◌∷◌ " " (String.◌∷◌ c (collapse_from true false s))
        else String.◌∷◌ c (collapse_from true false s))
      ≡ (if started && gap
          then String.◌∷◌ " " (String.◌∷◌ c (collapse_from true false s))
          else String.◌∷◌ c (collapse_from true false s))
unfolding collapse_from
word-collapse_from false gap c s e h = rw (e, h) refl
word-collapse_from true false c s e h = rw (e, h) refl
word-collapse_from true true c s e h = rw (e, h) refl

collapse_from-collapse_from :
    (started gap : Bool) (s : String)
    → collapse_from started false (collapse_from started gap s) ≡ collapse_from started gap s
unfolding collapse_from
collapse_from-collapse_from started gap String.[] = refl
collapse_from-collapse_from started gap (String.◌∷◌ c s) = elim (Bool-cases (is_space (code c))) [
  | inl e ↦ rw e (collapse_from-collapse_from started true s)
  | inr e ↦ rw e (word-collapse_from started gap c s e (collapse_from-collapse_from true false s))
]

-- Collapsing a text twice is collapsing it once.
pub collapse_idem : (s : String) → collapse (collapse s) ≡ collapse s
unfolding collapse
collapse_idem s = collapse_from-collapse_from false false s

-- text[:n]
unfoldable pub take_chars : ℕ → String → String
take_chars zero s = String.[]
take_chars (suc n) String.[] = String.[]
take_chars (suc n) (String.◌∷◌ c s) = String.◌∷◌ c (take_chars n s)

-- char in text
unfoldable pub has_char : ℕ → String → Bool
has_char k String.[] = false
has_char k (String.◌∷◌ c s) = nat_eq (code c) k || has_char k s

-- len(text)
unfoldable pub char_count : String → ℕ
char_count String.[] = 0
char_count (String.◌∷◌ c s) = suc (char_count s)

-- any(test(ord(char)) for char in text)
unfoldable pub any_code : (ℕ → Bool) → String → Bool
any_code test String.[] = false
any_code test (String.◌∷◌ c s) = test (code c) || any_code test s

-- text.rstrip(char)
unfoldable pub strip_end : ℕ → String → String
strip_end k String.[] = String.[]
strip_end k (String.◌∷◌ c s) =
    let rest = strip_end k s in
    if nat_eq (code c) k && is_blank rest then String.[] else String.◌∷◌ c rest

-- text.startswith(prefix)
unfoldable pub starts_with : String → String → Bool
starts_with String.[] s = true
starts_with (String.◌∷◌ c p) String.[] = false
starts_with (String.◌∷◌ c p) (String.◌∷◌ d s) = nat_eq (code c) (code d) && starts_with p s

-- part in text
unfoldable pub has_part : String → String → Bool
unfolding starts_with
has_part p String.[] = starts_with p String.[]
has_part p (String.◌∷◌ c s) = starts_with p (String.◌∷◌ c s) || has_part p s

-- text.endswith(suffix)
unfoldable pub ends_with : String → String → Bool
ends_with p String.[] = p == String.[]
ends_with p (String.◌∷◌ c s) = p == String.◌∷◌ c s || ends_with p s

-- The characters of a text, as texts.
unfoldable pub chars : String → List String
chars String.[] = []
chars (String.◌∷◌ c s) = String.◌∷◌ c String.[] ∷ chars s

abbrev code_size : ℕ → ℕ
code_size c = if leb c 127 then 1 else if leb c 2047 then 2 else if leb c 65535 then 3 else 4

-- len(text.encode("utf-8"))
unfoldable pub utf8_size : String → ℕ
utf8_size String.[] = 0
utf8_size (String.◌∷◌ c s) = code_size (code c) + utf8_size s

-- text.partition(char)[0], and what follows the first such character if there is one.
unfoldable pub first_part : ℕ → String → String
first_part k String.[] = String.[]
first_part k (String.◌∷◌ c s) =
    let rest = first_part k s in if nat_eq (code c) k then String.[] else String.◌∷◌ c rest

unfoldable pub rest_parts : ℕ → String → Option String
rest_parts k String.[] = none
rest_parts k (String.◌∷◌ c s) =
    let rest = rest_parts k s in if nat_eq (code c) k then some s else rest

onto_first : Char → List String → List String
onto_first c [] = String.◌∷◌ c String.[] ∷ []
onto_first c (part ∷ parts) = String.◌∷◌ c part ∷ parts

-- text.split(char)
unfoldable pub split_on : ℕ → String → List String
unfolding onto_first
split_on k String.[] = String.[] ∷ []
split_on k (String.◌∷◌ c s) =
    let parts = split_on k s in if nat_eq (code c) k then String.[] ∷ parts else onto_first c parts
