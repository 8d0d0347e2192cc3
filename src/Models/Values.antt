-- ===== src/Models/Values.antt =====
-- The values of a YAML or JSON document, with Python's equality. A number is a natural number.
use mathlib.Core.Option.{Option, none, some}
use humanoid_agi_plugin_syst.Prelude.{
  ℕ, String, Bool, true, false, ◌&&◌, ◌==◌, nat_eq, if◌then◌else◌,
}

mutual
  pub data Value : Type 0 where
    null : Value
    bool : Bool → Value
    num : ℕ → Value
    str : String → Value
    arr : Items → Value
    obj : Fields → Value

  pub data Fields : Type 0 where
    end : Fields
    field : String → Value → Fields → Fields

  pub data Items : Type 0 where
    nil : Items
    cons : Value → Items → Items

abbrev pub field? : Fields → String → Option Value
field? end k = none
field? (field j v fs) k = let rest = field? fs k in if j == k then some v else rest

abbrev pub size : Fields → ℕ
size end = 0
size (field j v fs) = ℕ.suc (size fs)

-- `True == 1` and `False == 0` in Python.
abbrev bool_number : Bool → ℕ
bool_number true = 1
bool_number false = 0

abbrev same_scalar : Value → Value → Bool
same_scalar null null = true
same_scalar (bool a) (bool b) = nat_eq (bool_number a) (bool_number b)
same_scalar (bool a) (num n) = nat_eq (bool_number a) n
same_scalar (num n) (bool b) = nat_eq n (bool_number b)
same_scalar (num n) (num m) = nat_eq n m
same_scalar (str s) (str t) = s == t
same_scalar _ _ = false

-- `a == b`. Two objects are equal if they have as many fields and each field of the first is in
-- the second.
unfoldable mutual
  pub value_eq : Value → Value → Bool
  value_eq (arr xs) (arr ys) = items_eq xs ys
  value_eq (obj fs) (obj gs) = nat_eq (size fs) (size gs) && within fs gs
  value_eq null w = same_scalar null w
  value_eq (bool a) w = same_scalar (bool a) w
  value_eq (num n) w = same_scalar (num n) w
  value_eq (str s) w = same_scalar (str s) w
  value_eq (arr xs) w = false
  value_eq (obj fs) w = false

  pub items_eq : Items → Items → Bool
  items_eq nil nil = true
  items_eq (cons v xs) (cons w ys) = value_eq v w && items_eq xs ys
  items_eq nil _ = false
  items_eq (cons v xs) nil = false

  pub within : Fields → Fields → Bool
  within end gs = true
  within (field k v fs) gs =
      elim (field? gs k) [ none ↦ false | some w ↦ value_eq v w ] && within fs gs

-- Python's truth value of a value.
abbrev pub truthy : Value → Bool
truthy null = false
truthy (bool b) = b
truthy (num ℕ.zero) = false
truthy (num (ℕ.suc n)) = true
truthy (str s) = if s == "" then false else true
truthy (arr nil) = false
truthy (arr (cons v xs)) = true
truthy (obj end) = false
truthy (obj (field k v fs)) = true
