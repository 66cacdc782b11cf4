-- ===== src/Tests/Codecs.antt =====
-- Texts of numbers that can be read back, and the theorems on encoding and on getters over them.
use rlng.Base.{
  ltb, ℕ, ◌^◌, ◌==◌, ◌≡◌, refl, Bool, Option, none, some, [], ◌∷◌, ◌++◌, arith, if◌then◌else◌, leb,
  ltb, ◌&&◌, Bool-cases, inl, inr,
}
use rlng.Base.Int.{ℤ, pos, negsuc, pos_part, neg_part, IsInt64, ltb_ℤ}
use rlng.Base.Text.{Text, codes, text_eq, text_lt}
use rlng.Value.{
  Value, instant, unsigned, dec, number, list, obj, str, uint8, Fields, end, field, nil, cons,
  Decimal,
}
use rlng.Value.Access.{lookup_field}
use rlng.Error.{ok}
use rlng.Scope.{Scope, blank_scope}
use rlng.Scope.Action.{get}
use rlng.Scope.Path.{lookup_path, contains_dot}
use rlng.Codec.{
  ParsedInt, found, out_of_range, not_integer, Wire, decimal_text, encode_value, decode_value,
  tagged, traverse_items, traverse_fields, sort_fields, insert_sorted_field,
}
use rlng.Codec.Envelope.{ScopeJson, levels, marshal_scope, unmarshal_scope}
use rlng.Codec.Reload.{plain, WireLaws, IsHeld, HoldsHeld, canonical, map_fields, encode_value-back}
use rlng.Codec.Restore.{marshal_scope-back}
use rlng.Getters.{get_int}
use rlng.Tests.Data.{number_value}

-- A sign and a magnitude.
abbrev write_int : ℤ → Text
write_int (pos n) = b'+' ∷ n ∷ []
write_int (negsuc n) = b'-' ∷ n ∷ []

abbrev in_int64 : ℤ → Bool
in_int64 n = ltb (pos_part n) (2 ^ 63) && leb (neg_part n) (2 ^ 63)

abbrev read_as : ℤ → ParsedInt
read_as n = if in_int64 n then found n else out_of_range

abbrev magnitude : ℕ → ℕ → ℤ
magnitude c n = if c == b'+' then pos n else negsuc n

unfoldable pub read_int : Text → ParsedInt
read_int (c ∷ n ∷ []) = read_as (magnitude c n)
read_int s = not_integer

unfoldable pub write_decimal : Decimal → Text
write_decimal d = write_int d.coefficient ++ write_int d.exponent

unfoldable pub read_decimal : Text → Option Decimal
read_decimal (c ∷ n ∷ e ∷ m ∷ []) =
    some (record { coefficient = magnitude c n; exponent = magnitude e m })
read_decimal s = none

unfoldable pub read_one : Text → Option ℕ
read_one (n ∷ []) = some n
read_one s = none

abbrev pub wire : Wire
wire = record {
  format_int = write_int;
  parse_int = read_int;
  format_float = λ f. f ∷ [];
  parse_float = read_one;
  decimal_string = λ d. write_decimal (plain d);
  decimal_string_fixed = λ d places. write_decimal d;
  parse_decimal = read_decimal;
  format_time = λ t. t ∷ [];
  spelt_whole = λ t. ltb t 128;
  parse_time = read_one;
  bare = λ v. some v;
}

read-write_int : (n : ℤ) → IsInt64 n → read_int (write_int n) ≡ found n
unfolding read_int
read-write_int (pos n) h = ground arith
read-write_int (negsuc n) h = ground arith

read_int-IsInt64 : (s : Text) (n : ℤ) → read_int s ≡ found n → IsInt64 n
unfolding read_int
read_int-IsInt64 [] n h = ground arith
read_int-IsInt64 (c ∷ []) n h = ground arith
read_int-IsInt64 (c ∷ m ∷ []) n h = elim (Bool-cases (c == b'+')) [
  | inl plus ↦ ground arith
  | inr other ↦ ground arith
]
read_int-IsInt64 (c ∷ m ∷ d ∷ s) n h = ground arith

read-write_parts :
    (c e : ℤ)
    → read_decimal (write_int c ++ write_int e) ≡ some (record { coefficient = c; exponent = e })
unfolding read_decimal
read-write_parts (pos c) (pos e) = refl
read-write_parts (pos c) (negsuc e) = refl
read-write_parts (negsuc c) (pos e) = refl
read-write_parts (negsuc c) (negsuc e) = refl

read-write_decimal : (d : Decimal) → read_decimal (write_decimal d) ≡ some d
unfolding write_decimal
read-write_decimal d = read-write_parts d.coefficient d.exponent

read-decimal_text : (d : Decimal) → read_decimal (decimal_text wire d) ≡ some (plain d)
read-decimal_text d = elim (Bool-cases (ltb_ℤ d.exponent (pos 0))) [
  | inl fraction ↦ rw (decimal_text, fraction) (read-write_decimal d)
  | inr whole ↦ rw (decimal_text, whole) (read-write_decimal _)
]

wire-WireLaws : WireLaws wire
unfolding read_one
wire-WireLaws = record {
  int_back = read-write_int;
  int_range = read_int-IsInt64;
  float_back = λ f h. refl;
  decimal_back = read-decimal_text;
  time_back = λ t whole. refl;
}

-- `{"b": [3, 1.5, 7], "a": 250}`, the last number for a time.
abbrev mixed : Fields
mixed =
    field (codes "b")
      (list (
        cons (number_value 3) (
          cons (dec (record { coefficient = pos 15; exponent = negsuc 0 }))
            (cons (instant 7) nil))))
      (field (codes "a") (unsigned uint8 250) end)

abbrev encoded : Value
encoded = tagged (codes "map") (
    obj (
      field (codes "a") (tagged (codes "int64") (number (b'+' ∷ 250 ∷ []))) (
        field (codes "b")
          (tagged (codes "list") (
            list (
              cons (tagged (codes "int64") (number (b'+' ∷ 3 ∷ []))) (
                cons (tagged (codes "decimal") (str (b'+' ∷ 15 ∷ b'-' ∷ 0 ∷ [])))
                  (cons (tagged (codes "time") (str (7 ∷ []))) nil)))))
          end)))

mixed-IsHeld : IsHeld wire (obj mixed)
unfolding IsHeld
mixed-IsHeld = ground arith

mixed-encoded : encode_value wire 5 (obj mixed) ≡ ok encoded
unfolding encode_value traverse_items traverse_fields sort_fields insert_sorted_field text_lt
    write_decimal
mixed-encoded = refl

encode_value-back_example : decode_value wire 5 encoded ≡ ok (canonical wire 5 (obj mixed))
encode_value-back_example =
    encode_value-back wire wire-WireLaws 5 (obj mixed) encoded mixed-IsHeld mixed-encoded

abbrev kept : Scope
kept = record blank_scope {
  store = mixed;
  identity = record { hash = codes "h"; version = codes "1" };
}

abbrev envelope : ScopeJson
envelope = record {
  version = 2;
  values =
      field (codes "b")
        (tagged (codes "list") (
          list (
            cons (tagged (codes "int64") (number (b'+' ∷ 3 ∷ []))) (
              cons (tagged (codes "decimal") (str (b'+' ∷ 15 ∷ b'-' ∷ 0 ∷ [])))
                (cons (tagged (codes "time") (str (7 ∷ []))) nil)))))
        (field (codes "a") (tagged (codes "int64") (number (b'+' ∷ 250 ∷ []))) end);
  derivations = none;
  identity = some (record { hash = codes "h"; version = codes "1" });
  firing = none;
}

kept-HoldsHeld : HoldsHeld wire kept.store
unfolding IsHeld
kept-HoldsHeld = ground arith

kept-marshalled : marshal_scope wire kept ≡ ok envelope
unfolding marshal_scope encode_value traverse_items traverse_fields write_decimal
kept-marshalled = refl

marshal_scope-back_example :
    (t : Scope) × (unmarshal_scope wire envelope blank_scope ≡ ok t)
    × (t.store ≡ map_fields (canonical wire levels) mixed)
    × (t.firing ≡ [])
    × (t.identity ≡ record { hash = codes "h"; version = codes "1" })
marshal_scope-back_example =
    marshal_scope-back wire wire-WireLaws kept envelope kept-HoldsHeld kept-marshalled

-- `{"n": json.Number("+5")}`
abbrev counted : Scope
counted = record blank_scope { store = field (codes "n") (number (b'+' ∷ 5 ∷ [])) end }

counted-get_int : get_int wire (codes "n") counted ≡ ok (pos 5)
unfolding get_int lookup_path lookup_field text_eq contains_dot read_int get
counted-get_int = refl
