-- ===== src/Prelude/Dict.antt =====
-- Python's `dict` with text keys, as an association list in insertion order.
use Prim.Native.String.{String}
use mathlib.Core.Path.{◌≡◌, refl, subst}
use mathlib.Core.Logic.{inl, inr}
use mathlib.Core.Bool.{Bool, true, false}
use mathlib.Core.Option.{Option, none, some}
use mathlib.Core.List.{List, [], ◌∷◌}
use native.Mathlib.Omega.{arith}
use text.Mathlib.Text.{◌==◌}
use text.Mathlib.TextEquality.{eq_iff}
use text.Mathlib.TextPositions.{eq_refl}
use humanoid_agi_plugin_syst.Prelude.Tests.{Bool-cases, if◌then◌else◌}
use humanoid_agi_plugin_syst.Prelude.Lists.{All}

abbrev pub Dict {ℓ} : Type ℓ → Type ℓ
Dict V = List (String × V)

module _ {ℓ} {V : Type ℓ} where
  -- d.get(k)
  unfoldable pub get : Dict V → String → Option V
  get [] k = none
  get ((j, v) ∷ d) k = if j == k then some v else get d k

  -- d[k] = v
  unfoldable pub put : Dict V → String → V → Dict V
  put [] k v = (k, v) ∷ []
  put ((j, w) ∷ d) k v = if j == k then (j, v) ∷ d else (j, w) ∷ put d k v

  -- d.pop(k, None)
  unfoldable pub pop : Dict V → String → Dict V
  pop [] k = []
  pop ((j, w) ∷ d) k = let rest = pop d k in if j == k then rest else (j, w) ∷ rest

  unfoldable pub keys : Dict V → List String
  keys [] = []
  keys ((j, w) ∷ d) = j ∷ keys d

  pub get-put :
      (entries : Dict V) (key other : String) (value : V)
      → get (put entries key value) other ≡ (if key == other then some value else get entries other)
  unfolding get put
  get-put [] k j v = refl
  get-put ((i, w) ∷ d) k j v = ground (arith, eq_iff k j, eq_iff i k, eq_iff i j, get-put d k j v)

  pub get-put_self : (d : Dict V) (k : String) (v : V) → get (put d k v) k ≡ some v
  get-put_self d k v = rw (get-put d k k v, eq_refl k)

  pub get-pop : (d : Dict V) (k j : String) → get (pop d k) j ≡ (if k == j then none else get d j)
  unfolding get pop
  get-pop [] k j = ground arith
  get-pop ((i, w) ∷ d) k j = ground (arith, eq_iff k j, eq_iff i k, eq_iff i j, get-pop d k j)

  -- `P` holds of every value.
  abbrev pub AllValues {κ} : (V → Type κ) → Dict V → Type κ
  AllValues P = All (λ e. P e.1)

  AllValues-get_step {κ} :
      (P : V → Type κ) (d : Dict V) (k : String) (w : V) {v : V} (b : Bool)
      → P w
      → (get d k ≡ some v → P v)
      → (if b then some w else get d k) ≡ some v
      → P v
  AllValues-get_step P d k w {v} true p h e = let q : w ≡ v = cc in subst P q p
  AllValues-get_step P d k w false p h e = h e

  pub AllValues-get {κ} :
      (P : V → Type κ) (d : Dict V) (k : String) {v : V} → AllValues P d → get d k ≡ some v → P v
  unfolding get
  AllValues-get P [] k h e = cc
  AllValues-get P ((j, w) ∷ d) k h e =
      AllValues-get_step P d k w (j == k) h.0 (AllValues-get P d k h.1) e

  pub AllValues-put {κ} :
      (P : V → Type κ) (d : Dict V) (k : String) (v : V)
      → AllValues P d
      → P v
      → AllValues P (put d k v)
  unfolding put
  AllValues-put P [] k v h p = (p, tt)
  AllValues-put P ((j, w) ∷ d) k v h p = elim (Bool-cases (j == k)) [
    | inl same ↦ rw same (p, h.1)
    | inr other ↦ rw other (h.0, AllValues-put P d k v h.1 p)
  ]
