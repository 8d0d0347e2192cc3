-- ===== src/Prelude/Names.antt =====
-- Sets of names, as Python's `sorted(set(...))` gives them: in the order of code points, without
-- duplicates.
use Prim.Native.Nat.{ℕ}
use Prim.Native.Char.{code}
use Prim.Native.String.{String}
use mathlib.Core.Path.{◌≡◌, refl}
use mathlib.Core.Bool.{Bool, true, false, not, ◌||◌}
use mathlib.Core.List.{List, [], ◌∷◌}
use native.Mathlib.Omega.{arith}
use text.Mathlib.Text.{◌==◌}
use text.Mathlib.TextEquality.{eq_iff}
use humanoid_agi_plugin_syst.Prelude.Tests.{ltb, if◌then◌else◌}
use humanoid_agi_plugin_syst.Prelude.Lists.{contains, keep}

abbrev pub codes : String → List ℕ
codes String.[] = []
codes (String.◌∷◌ c s) = code c ∷ codes s

unfoldable pub codes_lt : List ℕ → List ℕ → Bool
codes_lt xs [] = false
codes_lt [] (y ∷ ys) = true
codes_lt (x ∷ xs) (y ∷ ys) =
    let rest = codes_lt xs ys in if ltb x y then true else if ltb y x then false else rest

-- `a < b` on texts.
unfoldable pub text_lt : String → String → Bool
unfolding codes_lt
text_lt a b = codes_lt (codes a) (codes b)

unfoldable pub insert_name : String → List String → List String
unfolding text_lt
insert_name k [] = k ∷ []
insert_name k (x ∷ xs) =
    let rest = insert_name k xs in
    if x == k then x ∷ xs else if text_lt k x then k ∷ x ∷ xs else x ∷ rest

-- `sorted(set(names))`.
unfoldable pub sorted_set : List String → List String
unfolding insert_name
sorted_set [] = []
sorted_set (x ∷ xs) = insert_name x (sorted_set xs)

contains-insert_name :
    (j k : String) (xs : List String) → contains j (insert_name k xs) ≡ (k == j || contains j xs)
unfolding insert_name
contains-insert_name j k [] = refl
contains-insert_name j k (x ∷ xs) =
    unfold text_lt in
    ground (arith, contains-insert_name j k xs, eq_iff x k, eq_iff x j, eq_iff k j)

-- Sorting a set of names keeps its members.
pub contains-sorted_set :
    (j : String) (xs : List String) → contains j (sorted_set xs) ≡ contains j xs
unfolding sorted_set
contains-sorted_set j [] = refl
contains-sorted_set j (x ∷ xs) =
    ground (arith, contains-insert_name j x (sorted_set xs), contains-sorted_set j xs)

-- `sorted(set(xs) - set(ys))` and `sorted(set(xs) & set(ys))`.
unfoldable pub minus : List String → List String → List String
unfolding sorted_set
minus xs ys = sorted_set (keep (λ x. not (contains x ys)) xs)

unfoldable pub inter : List String → List String → List String
unfolding sorted_set
inter xs ys = sorted_set (keep (λ x. contains x ys) xs)

-- The order of codes, item by item.
pub codes_lt_trans :
    (xs ys zs : List ℕ) → codes_lt xs ys ≡ false → codes_lt ys zs ≡ false → codes_lt xs zs ≡ false
unfolding codes_lt
codes_lt_trans xs ys [] h k = refl
codes_lt_trans xs [] (z ∷ zs) h k = cc
codes_lt_trans [] (y ∷ ys) (z ∷ zs) h k = cc
codes_lt_trans (x ∷ xs) (y ∷ ys) (z ∷ zs) h k = ground (arith, h, k, codes_lt_trans xs ys zs)

pub codes_lt_asym : (xs ys : List ℕ) → codes_lt xs ys ≡ true → codes_lt ys xs ≡ false
unfolding codes_lt
codes_lt_asym xs [] h = cc
codes_lt_asym [] (y ∷ ys) h = refl
codes_lt_asym (x ∷ xs) (y ∷ ys) h = ground (arith, h, codes_lt_asym xs ys)
