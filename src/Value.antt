-- ===== src/Value.antt =====
-- The Python values that records, rules and events carry (`dict[str, Any]`), with the truth and the
-- equality that Python gives them. `number` is an int or a finite float, counted in units of
-- 2^-1074, the finest step of a float, so that 1, 1.0 and True are one number. `other` is a list, a
-- date or any other value that the code only stores, compares and tests: a number that equal values
-- share, and its truth.
use salesforce.Common.{
  ℕ, suc, ◌^◌, ◌≡◌, refl, Bool, true, false, not, ◌&&◌, Option, none, some, String, [], ◌∷◌, ◌==◌,
  ◌=ₛ◌, if◌then◌else◌,
}
use salesforce.Common.Int.{ℤ, pos, eqb_ℤ}
use salesforce.Common.Dict.{Dict}

mutual
  pub data Value : Type 0 where
    null : Value
    boolean : Bool → Value
    number : ℤ → Value
    text : String → Value
    mapping : Fields → Value
    other : ℕ → Bool → Value

  pub data Fields : Type 0 where
    end : Fields
    field : String → Value → Fields → Fields

-- A record of the program.
abbrev pub Record : Type 0
Record = Dict Value

-- `dict(value)` of a mapping.
unfoldable pub to_record : Fields → Record
to_record end = []
to_record (field k v fs) = (k, v) ∷ to_record fs

-- `bool(value)`.
unfoldable pub truthy : Value → Bool
truthy null = false
truthy (boolean b) = b
truthy (number n) = not (eqb_ℤ n (pos 0))
truthy (text s) = not (s =ₛ "")
truthy (mapping end) = false
truthy (mapping (field k v fs)) = true
truthy (other n b) = b

unfoldable pub is_null : Value → Bool
is_null null = true
is_null _ = false

unit : ℕ
unit = 2 ^ 1074

-- The number that a value counts as in a comparison with a number.
unfoldable pub numeric : Value → Option ℤ
unfolding unit
numeric (number n) = some n
numeric (boolean true) = some (pos unit)
numeric (boolean false) = some (pos 0)
numeric _ = none

size : Fields → ℕ
size end = 0
size (field k v fs) = suc (size fs)

field_of : String → Fields → Option Value
field_of k end = none
field_of k (field j v fs) = if j =ₛ k then some v else field_of k fs

eq_numeric : Option ℤ → Option ℤ → Bool
eq_numeric (some a) (some b) = eqb_ℤ a b
eq_numeric _ _ = false

-- `p == r`. Mappings are equal when they have as many keys and the same value at each.
unfoldable mutual
  unfolding numeric eq_numeric size field_of

  pub py_eq : Value → Value → Bool
  py_eq null null = true
  py_eq (text s) (text t) = s =ₛ t
  py_eq (other m b) (other n c) = m == n
  py_eq (mapping fs) (mapping gs) = size fs == size gs && eq_fields fs gs
  py_eq v w = eq_numeric (numeric v) (numeric w)

  pub eq_fields : Fields → Fields → Bool
  eq_fields end gs = true
  eq_fields (field k v fs) gs =
      elim (field_of k gs) [ none ↦ false | some w ↦ py_eq v w ] && eq_fields fs gs

true_equals_one : py_eq (boolean true) (number (pos (2 ^ 1074))) ≡ true
unfolding py_eq unit
true_equals_one = refl
