-- ===== src/Prelude/Effects.antt =====
-- Methods that change an object and may raise. What was written before a raise stays written, so
-- the state comes back beside the exception too.
use Prim.Native.String.{String}
use mathlib.Core.Path.{◌≡◌, refl, subst}
use mathlib.Core.Logic.{◌⊎◌, inl, inr}
use mathlib.Core.Bool.{Bool, true, false}
use mathlib.Core.List.{List, [], ◌∷◌}
use humanoid_agi_plugin_syst.Prelude.Tests.{if◌then◌else◌}

-- The exception classes that the program raises or meets.
pub data ErrorType : Type 0 where
  package_error policy_error lifecycle_error middleware_error permission_denied : ErrorType
  key_error value_error runtime_error os_error integrity_error signature_error registry_error
        config_error type_error attribute_error :
      ErrorType

pub record Exception : Type 0 where
  pub type : ErrorType
  pub message : String

pub data Result {ℓ} (A : Type ℓ) : Type ℓ where
  return : A → Result A
  raise : Exception → Result A

pub Result-cases {ℓ} :
    {A : Type ℓ} (r : Result A) → ((a : A) × (r ≡ return a)) ⊎ ((e : Exception) × (r ≡ raise e))
Result-cases (return a) = inl (a, refl)
Result-cases (raise e) = inr (e, refl)

pub return_inj {ℓ} : {A : Type ℓ} {a b : A} → return a ≡ return b → a ≡ b
return_inj h = cc

abbrev pub and_then {ℓ κ} : {A : Type ℓ} {B : Type κ} → Result A → (A → Result B) → Result B
and_then (return a) f = f a
and_then (raise e) f = raise e

-- Inversion of a step that was followed by a successful one.
pub and_then-eq-return {ℓ κ} :
    {A : Type ℓ} {B : Type κ} (m : Result A) (f : A → Result B) {b : B}
    → and_then m f ≡ return b
    → (a : A) × (m ≡ return a) × (f a ≡ return b)
and_then-eq-return (return a) f h = (a, refl, h)
and_then-eq-return (raise e) f h = cc

-- A guard that did not raise.
pub guard-eq-return {ℓ} :
    {A : Type ℓ} (test : Bool) (e : Exception) (r : Result A) {a : A}
    → (if test then raise e else r) ≡ return a
    → (test ≡ false) × (r ≡ return a)
guard-eq-return true e r h = cc
guard-eq-return false e r h = (refl, h)

pub need-eq-return {ℓ} :
    {A : Type ℓ} (test : Bool) (e : Exception) (r : Result A) {a : A}
    → (if test then r else raise e) ≡ return a
    → (test ≡ true) × (r ≡ return a)
need-eq-return true e r h = (refl, h)
need-eq-return false e r h = cc

-- A conjunction that came out true.
pub and-eq-return :
    (test : Bool) (r : Result Bool)
    → (if test then r else return false) ≡ return true
    → (test ≡ true) × (r ≡ return true)
and-eq-return true r h = (refl, h)
and-eq-return false r h = cc

pub unless-eq-return :
    (test : Bool) (r : Result Bool)
    → (if test then return false else r) ≡ return true
    → (test ≡ false) × (r ≡ return true)
unless-eq-return true r h = cc
unless-eq-return false r h = (refl, h)

abbrev pub failure {ℓ} : {A : Type ℓ} → ErrorType → String → Result A
failure t m = raise (record { type = t; message = m })

abbrev pub Exec {ℓ} : Type ℓ → Type ℓ → Type ℓ
Exec S A = S → Result A × S

module _ {ℓ} {S A : Type ℓ} where
  unfoldable pub pure : A → Exec S A
  pure a s = (return a, s)

  unfoldable pub throw : ErrorType → String → Exec S A
  throw t m s = (failure t m, s)

  unfoldable pub rethrow : Exception → Exec S A
  rethrow e s = (raise e, s)

  unfoldable pub lift : Result A → Exec S A
  lift r s = (r, s)

  unfoldable pub gets : (S → A) → Exec S A
  gets f s = (return (f s), s)

  -- `try: body` / `except Exception as exc: handler` .
  unfoldable pub try_except : Exec S A → (Exception → Exec S A) → Exec S A
  try_except body handler s =
      let (r, s') = body s in elim r [ return a ↦ (return a, s') | raise e ↦ handler e s' ]

unfoldable pub modify : {S : Type 0} → (S → S) → Exec S (Unit {0})
modify f s = (return tt, f s)

-- `if test: raise t(m)`.
unfoldable pub raise_if : {S : Type 0} → Bool → ErrorType → String → Exec S (Unit {0})
unfolding pure throw
raise_if true t m = throw t m
raise_if false t m = pure tt

module _ {ℓ} {S A B : Type ℓ} where
  abbrev pub continue : Result A → (A → Exec S B) → Exec S B
  continue (return a) f s = f a s
  continue (raise e) f s = (raise e, s)

  infixl 5 ◌>>=◌ ◌>>◌
  -- Opening this opens the other actions too.
  unfoldable pub ◌>>=◌ : Exec S A → (A → Exec S B) → Exec S B
  unfolding pure throw rethrow lift gets raise_if modify
  m >>= f = λ s. let (r, s') = m s in continue r f s'

  abbrev pub ◌>>◌ : Exec S A → Exec S B → Exec S B
  m >> n = m >>= λ _. n

pub continue-eq-return {ℓ} :
    {S A B : Type ℓ} (r : Result A) (f : A → Exec S B) (s : S) {b : B}
    → (continue r f s).0 ≡ return b
    → (a : A) × (r ≡ return a) × ((f a s).0 ≡ return b)
continue-eq-return (return a) f s h = (a, refl, h)
continue-eq-return (raise e) f s h = cc

-- `m` keeps `P`, whether it returns or raises.
pub record Keeps {S A : Type 0} (P : S → Type 0) (m : Exec S A) : Type 0 where
  pub at : (s : S) → P s → P (m s).1

module _ {S A : Type 0} {P : S → Type 0} where
  pub Keeps-gets : (read : S → A) → Keeps P (gets read)
  unfolding gets
  Keeps-gets read = record { at = λ _ before. before }

  pub Keeps-throw : (t : ErrorType) (m : String) → Keeps P (throw {A = A} t m)
  unfolding throw
  Keeps-throw t m = record { at = λ _ before. before }

  pub Keeps-lift : (result : Result A) → Keeps P (lift result)
  unfolding lift
  Keeps-lift result = record { at = λ _ before. before }

  pub Keeps-pure : (value : A) → Keeps P (pure value)
  unfolding pure
  Keeps-pure value = record { at = λ _ before. before }

module _ {S A B : Type 0} {P : S → Type 0} where
  Keeps-continue :
      (r : Result A) (f : A → Exec S B) (s : S)
      → ((a : A) → Keeps P (f a))
      → P s
      → P (continue r f s).1
  Keeps-continue (return a) f s hf h = (hf a).at s h
  Keeps-continue (raise e) f s hf h = h

  pub Keeps-bind :
      (body : Exec S A) (rest : A → Exec S B)
      → Keeps P body
      → ((value : A) → Keeps P (rest value))
      → Keeps P (body >>= rest)
  unfolding ◌>>=◌
  Keeps-bind m f hm hf = record { at = λ s h. Keeps-continue (m s).0 f (m s).1 hf (hm.at s h) }

pub Keeps-raise_if :
    {S : Type 0} {P : S → Type 0} (b : Bool) (t : ErrorType) (m : String) → Keeps P (raise_if b t m)
unfolding raise_if
Keeps-raise_if true t m = record { at = λ s h. h }
Keeps-raise_if false t m = record { at = λ s h. h }

-- Whatever `m` returns satisfies `Q`.
pub record Returns {S A : Type 0} (Q : A → Type 0) (m : Exec S A) : Type 0 where
  pub holds : (s : S) (a : A) → (m s).0 ≡ return a → Q a

pub Returns-pure : {S A : Type 0} {Q : A → Type 0} (a : A) → Q a → Returns {S = S} Q (pure a)
unfolding pure
Returns-pure {Q} a h = record { holds = λ s b e. let same : a ≡ b = cc in subst Q same h }

pub Returns-rethrow :
    {S A : Type 0} {Q : A → Type 0} (x : Exception) → Returns {S = S} Q (rethrow x)
unfolding rethrow
Returns-rethrow x = record { holds = λ s b e. cc }

pub Returns-throw :
    {S A : Type 0} {Q : A → Type 0} (t : ErrorType) (m : String) → Returns {S = S} Q (throw t m)
unfolding throw
Returns-throw t m = record { holds = λ s b e. cc }

module _ {S A B : Type 0} where
  Returns-continue :
      (Q : B → Type 0) (r : Result A) (f : A → Exec S B) (s : S)
      → ((a : A) → Returns Q (f a))
      → (b : B) → (continue r f s).0 ≡ return b
      → Q b
  Returns-continue Q (return a) f s hf b e = (hf a).holds s b e
  Returns-continue Q (raise x) f s hf b e = cc

  pub Returns-bind :
      {Q : B → Type 0} (m : Exec S A) (f : A → Exec S B)
      → ((a : A) → Returns Q (f a))
      → Returns Q (m >>= f)
  unfolding ◌>>=◌
  Returns-bind {Q} m f hf = record { holds = λ s b e. Returns-continue Q (m s).0 f (m s).1 hf b e }

  Returns-bind_step :
      (P : A → Type 0) (Q : B → Type 0) (r : Result A) (f : A → Exec S B) (s : S)
      → ((a : A) → r ≡ return a → P a)
      → ((a : A) → P a → Returns Q (f a))
      → (b : B) → (continue r f s).0 ≡ return b
      → Q b
  Returns-bind_step P Q (return a) f s hp hf b e = (hf a (hp a refl)).holds s b e
  Returns-bind_step P Q (raise x) f s hp hf b e = cc

  pub Returns-bind_first :
      {P : A → Type 0} {Q : B → Type 0} (m : Exec S A) (f : A → Exec S B)
      → Returns P m
      → ((a : A) → P a → Returns Q (f a))
      → Returns Q (m >>= f)
  unfolding ◌>>=◌
  Returns-bind_first {P} {Q} m f hp hf = record {
    holds = λ s b e. Returns-bind_step P Q (m s).0 f (m s).1 (hp.holds s) hf b e;
  }

  -- What follows `m` may rely on what `m` returns.
  Keeps-bind_step :
      (P : S → Type 0) (Q : A → Type 0) (r : Result A) (f : A → Exec S B) (s : S)
      → ((a : A) → r ≡ return a → Q a)
      → ((a : A) → Q a → Keeps P (f a))
      → P s
      → P (continue r f s).1
  Keeps-bind_step P Q (return a) f s hq hf h = (hf a (hq a refl)).at s h
  Keeps-bind_step P Q (raise e) f s hq hf h = h

  pub Keeps-bind-Returns :
      {P : S → Type 0} {Q : A → Type 0} (m : Exec S A) (f : A → Exec S B)
      → Keeps P m
      → Returns Q m
      → ((a : A) → Q a → Keeps P (f a))
      → Keeps P (m >>= f)
  unfolding ◌>>=◌
  Keeps-bind-Returns {P} {Q} m f hm hq hf = record {
    at = λ s h. Keeps-bind_step P Q (m s).0 f (m s).1 (hq.holds s) hf (hm.at s h);
  }

pub ruleset keeps_rules =
    (Keeps-pure, Keeps-throw, Keeps-lift, Keeps-gets, Keeps-bind, Keeps-raise_if)

-- The actions one after another, whatever each of them raises.
abbrev pub run_all : {S A : Type 0} → List (Exec S A) → S → S
run_all [] s = s
run_all (m ∷ ms) s = run_all ms (m s).1
