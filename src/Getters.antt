-- ===== src/Getters.antt =====
-- pipe/get.go: the typed getters of a Scope, strict and coercing. `int` has 64 bits.
pub mod Agreement
use rlng.Base.{ℕ, ◌-◌, ◌^◌, Bool, true, false, not, ◌||◌, Option, none, some, if◌then◌else◌}
use rlng.Base.Int.{ℤ, pos, negsuc}
use rlng.Base.Text.{Text, codes}
use rlng.Value.{
  Value, bool, str, signed, unsigned, float, number, list, obj, Items, Fields, int, int64, float64,
  Float, Arith, is_finite,
}
use rlng.Error.{
  Error, path_not_found, scope_type_error, not_numeric_kind, Result, ok, err, bind, map_err,
}
use rlng.Expr.{trim_space}
use rlng.Numeric.{int64_from_numeric, float64_from_numeric}
use rlng.Scope.{Scope}
use rlng.Scope.Action.{get}
use rlng.Codec.{Wire, ParsedInt, found}

-- `math.Trunc`, and the conversion of a float64 with no fraction to int64.
pub record Truncation : Type 0 where
  pub trunc : Float → Float
  pub to_int : Float → ℤ

-- What a getter does with the value at a path.
abbrev pub read_at : {A : Type 0} → Text → (Value → Result A) → Option Value → Result A
read_at path f none = err path_not_found
read_at path f (some v) = f v

abbrev type_error : {A : Type 0} → Text → Text → Result A
type_error path expected = err (scope_type_error path expected)

-- `GetAs` at the type whose values `f` picks out.
unfoldable pub get_as : {A : Type 0} → Text → (Value → Option A) → Text → Scope → Result A
get_as expected f path s =
    read_at path (λ v. elim (f v) [ none ↦ type_error path expected | some a ↦ ok a ]) (get path s)

abbrev as_string : Value → Option Text
as_string (str s) = some s
as_string v = none

abbrev as_bool : Value → Option Bool
as_bool (bool b) = some b
as_bool v = none

abbrev as_items : Value → Option Items
as_items (list xs) = some xs
as_items v = none

abbrev as_fields : Value → Option Fields
as_fields (obj m) = some m
as_fields v = none

-- `GetString`, `GetBool`, `GetSlice` and `GetMap`
unfoldable pub get_string : Text → Scope → Result Text
get_string = get_as (codes "string") as_string

unfoldable pub get_bool : Text → Scope → Result Bool
get_bool = get_as (codes "bool") as_bool

unfoldable pub get_slice : Text → Scope → Result Items
get_slice = get_as (codes "[]interface {}") as_items

unfoldable pub get_map : Text → Scope → Result Fields
get_map = get_as (codes "map[string]interface {}") as_fields

abbrev pub parsed : {A : Type 0} → Error → (ℤ → Result A) → ParsedInt → Result A
parsed e f (found n) = f n
parsed e f p = err e

abbrev pub or_error : {A : Type 0} → Error → Option A → Result A
or_error e none = err e
or_error e (some a) = ok a

module _ (w : Wire) where
  abbrev pub int_at : Text → Value → Result ℤ
  int_at path (signed int n) = ok n
  int_at path (signed int64 n) = ok n
  int_at path (number s) = parsed (scope_type_error path (codes "int")) ok (w.parse_int s)
  int_at path v = type_error path (codes "int")

  -- `GetInt`
  unfoldable pub get_int : Text → Scope → Result ℤ
  get_int path s = read_at path (int_at path) (get path s)

  abbrev pub int64_at : Text → Value → Result ℤ
  int64_at path (signed int64 n) = ok n
  int64_at path (number s) = parsed (scope_type_error path (codes "int64")) ok (w.parse_int s)
  int64_at path v = type_error path (codes "int64")

  -- `GetInt64`
  unfoldable pub get_int64 : Text → Scope → Result ℤ
  get_int64 path s = read_at path (int64_at path) (get path s)

  abbrev pub float64_at : Text → Value → Result Float
  float64_at path (float float64 f) = ok f
  float64_at path (number s) = or_error (scope_type_error path (codes "float64")) (w.parse_float s)
  float64_at path v = type_error path (codes "float64")

  -- `GetFloat64`
  unfoldable pub get_float64 : Text → Scope → Result Float
  get_float64 path s = read_at path (float64_at path) (get path s)

  module _ (ops : Arith) (tr : Truncation) where
    -- The float is not below -2^63 and below 2^63.
    abbrev pub in_range : Float → Bool
    in_range f = not (
        not (ops.float_lt f (ops.float_of_int (pos (2 ^ 63 - 1))))
        || ops.float_lt f (ops.float_of_int (negsuc (2 ^ 63 - 1))))

    abbrev pub float_to_int64 : Error → Float → Result ℤ
    float_to_int64 e f =
        if not (is_finite f)
        then err e
        else if not (ops.float_eq f (tr.trunc f))
        then err e
        else if in_range f
        then ok (tr.to_int f)
        else err e

    -- `coerceToInt64`; `e` is the error that its caller makes of a refusal.
    unfoldable pub coerce_to_int64 : Error → Value → Result ℤ
    coerce_to_int64 e (number s) = parsed e ok (w.parse_int s)
    coerce_to_int64 e (str s) = parsed e ok (w.parse_int (trim_space s))
    coerce_to_int64 e (float k f) = float_to_int64 e f
    coerce_to_int64 e v = map_err (λ _. e) (int64_from_numeric v)

    -- `GetIntCoerce`
    unfoldable pub get_int_coerce : Text → Scope → Result ℤ
    get_int_coerce path s =
        read_at path (coerce_to_int64 (scope_type_error path (codes "int"))) (get path s)

    -- `GetInt64Coerce`
    unfoldable pub get_int64_coerce : Text → Scope → Result ℤ
    get_int64_coerce path s =
        read_at path (coerce_to_int64 (scope_type_error path (codes "int64"))) (get path s)

    abbrev finite_only : Error → Float → Result Float
    finite_only e f = if is_finite f then ok f else err e

    -- `coerceToFloat64`
    unfoldable pub coerce_to_float64 : Error → Value → Result Float
    coerce_to_float64 e (number s) = bind (or_error e (w.parse_float s)) (finite_only e)
    coerce_to_float64 e (str s) = bind (or_error e (w.parse_float (trim_space s))) (finite_only e)
    coerce_to_float64 e v = map_err (λ _. e) (float64_from_numeric ops v)

    -- `GetFloat64Coerce`
    unfoldable pub get_float64_coerce : Text → Scope → Result Float
    get_float64_coerce path s =
        read_at path (coerce_to_float64 (scope_type_error path (codes "float64"))) (get path s)
