-- ===== src/Codec.antt =====
-- pipe/valuejson.go and pipe/json.go: the tagged form of a scope value and the envelope of a Scope.
-- The bytes between json.Marshal and a decoder with UseNumber are left out: what is written is the
-- tree that such a decoder reads, of nulls, booleans, strings, numbers, lists and objects.
pub mod Envelope
pub mod Times
pub mod Reload
pub mod Restore
use rlng.Base.{
  ℕ, zero, suc, ◌+◌, ◌-◌, ◌^◌, Bool, true, false, not, Option, none, some, List, [], ◌∷◌, ltb,
  if◌then◌else◌,
}
use rlng.Base.Int.{ℤ, pos, neg_part, ltb_ℤ}
use rlng.Base.Text.{Text, codes, text_eq, text_lt}
use rlng.Value.{
  Value, null, bool, str, signed, unsigned, float, dec, instant, number, list, obj, Items, nil,
  cons, Fields, end, field, Decimal, Float, UintKind, uint, uint64, int64, float64, is_finite,
}
use rlng.Value.Access.{lookup_field}
use rlng.Error.{Error, malformed_scope_value, scope_value_too_deep, Result, ok, err, bind}

-- What `strconv.ParseInt` says of a text.
pub data ParsedInt : Type 0 where
  found : ℤ → ParsedInt
  out_of_range not_integer : ParsedInt

-- The texts of numbers, decimals and times, which Go's library and shopspring/decimal read and
-- write. `spelt_whole` says of a time that the layout RFC3339Nano has room for it: a year of four
-- digits and an offset in whole minutes. `bare` is the tree that json.Marshal and a decoder make of a
-- value with no tags.
pub record Wire : Type 0 where
  pub format_int : ℤ → Text
  pub parse_int : Text → ParsedInt
  pub format_float : Float → Text
  pub parse_float : Text → Option Float
  pub decimal_string : Decimal → Text
  pub decimal_string_fixed : Decimal → ℕ → Text
  pub parse_decimal : Text → Option Decimal
  pub format_time : ℕ → Text
  pub spelt_whole : ℕ → Bool
  pub parse_time : Text → Option ℕ
  pub bare : Value → Option Value

-- `taggedValue`
unfoldable pub tagged : Text → Value → Value
tagged kind payload = obj (field (codes "$k") (str kind) (field (codes "v") payload end))

-- A loop over the elements, which stops at the first error.
module _ (f : Value → Result Value) where
  unfoldable pub traverse_items : Items → Result Items
  traverse_items nil = ok nil
  traverse_items (cons v vs) =
      let rest = traverse_items vs in bind (f v) (λ w. bind rest (λ ws. ok (cons w ws)))

  unfoldable pub traverse_fields : Fields → Result Fields
  traverse_fields end = ok end
  traverse_fields (field k v m) =
      let rest = traverse_fields m in bind (f v) (λ w. bind rest (λ n. ok (field k w n)))

unfoldable pub insert_sorted_field : Text → Value → Fields → Fields
insert_sorted_field k v end = field k v end
insert_sorted_field k v (field j w m) =
    let rest = insert_sorted_field k v m in
    if text_lt j k then field j w rest else field k v (field j w m)

-- The entries in the order of their keys.
unfoldable pub sort_fields : Fields → Fields
sort_fields end = end
sort_fields (field k v m) = insert_sorted_field k v (sort_fields m)

abbrev pub checked_kind : UintKind → Bool
checked_kind uint = true
checked_kind uint64 = true
checked_kind _ = false

module _ (w : Wire) where
  abbrev pub encode_int : ℤ → Value
  encode_int n = tagged (codes "int64") (number (w.format_int n))

  -- json.Marshal refuses NaN and the infinities.
  abbrev pub encode_float : Float → Result Value
  encode_float f =
      if is_finite f
      then ok (tagged (codes "float64") (number (w.format_float f)))
      else err malformed_scope_value

  abbrev pub encode_unsigned : UintKind → ℕ → Result Value
  encode_unsigned k u =
      if checked_kind k
      then (if ltb (2 ^ 63 - 1) u then err malformed_scope_value else ok (encode_int (pos u)))
      else ok (encode_int (pos u))

  -- The digits after the point are kept.
  abbrev pub decimal_text : Decimal → Text
  decimal_text d =
      if ltb_ℤ d.exponent (pos 0)
      then w.decimal_string_fixed d (neg_part d.exponent)
      else w.decimal_string d

  abbrev pub encode_parsed : Text → ParsedInt → Result Value
  encode_parsed s (found n) = ok (encode_int n)
  encode_parsed s out_of_range = err malformed_scope_value
  encode_parsed s not_integer = elim (w.parse_float s) [
    | none ↦ err malformed_scope_value
    | some f ↦ encode_float f
  ]

  -- `encodeValue`, with the number of levels left in place of the depth.
  unfoldable pub encode_value : ℕ → Value → Result Value
  encode_value zero v = err scope_value_too_deep
  encode_value (suc left) null = ok (tagged (codes "null") null)
  encode_value (suc left) (bool b) = ok (tagged (codes "bool") (bool b))
  encode_value (suc left) (str s) = ok (tagged (codes "string") (str s))
  encode_value (suc left) (signed k n) = ok (encode_int n)
  encode_value (suc left) (unsigned k u) = encode_unsigned k u
  encode_value (suc left) (float k f) = encode_float f
  encode_value (suc left) (dec d) = ok (tagged (codes "decimal") (str (decimal_text d)))
  encode_value (suc left) (instant t) = ok (tagged (codes "time") (str (w.format_time t)))
  encode_value (suc left) (number s) = encode_parsed s (w.parse_int s)
  encode_value (suc left) (list xs) =
      bind (traverse_items (encode_value left) xs) (λ ys. ok (tagged (codes "list") (list ys)))
  encode_value (suc left) (obj m) =
      bind (traverse_fields (encode_value left) (sort_fields m))
        (λ n. ok (tagged (codes "map") (obj n)))
  encode_value (suc left) v = err malformed_scope_value

  abbrev int_of : ParsedInt → Result Value
  int_of (found n) = ok (signed int64 n)
  int_of _ = err malformed_scope_value

  abbrev or_malformed : {A : Type 0} → (A → Value) → Option A → Result Value
  or_malformed f none = err malformed_scope_value
  or_malformed f (some a) = ok (f a)

  -- The cases of `decodeValue` on a payload of a kind that holds no other values.
  unfoldable pub decode_scalar : Text → Value → Result Value
  decode_scalar kind (bool b) =
      if text_eq kind (codes "bool") then ok (bool b) else err malformed_scope_value
  decode_scalar kind (str s) =
      if text_eq kind (codes "string")
      then ok (str s)
      else if text_eq kind (codes "decimal")
      then or_malformed dec (w.parse_decimal s)
      else if text_eq kind (codes "time")
      then or_malformed instant (w.parse_time s)
      else err malformed_scope_value
  decode_scalar kind (number s) =
      if text_eq kind (codes "int64")
      then int_of (w.parse_int s)
      else if text_eq kind (codes "float64")
      then or_malformed (float float64) (w.parse_float s)
      else err malformed_scope_value
  decode_scalar kind v = err malformed_scope_value

  -- `decodeValue` on a tagged object; `f` decodes the values one level down.
  unfoldable pub decode_payload : (Value → Result Value) → Text → Value → Result Value
  decode_payload f kind payload =
      if text_eq kind (codes "null")
      then ok null
      else if text_eq kind (codes "list")
      then decode_list payload
      else if text_eq kind (codes "map")
      then decode_map payload
      else decode_scalar kind payload
    where
      decode_list : Value → Result Value
      decode_list (list xs) = bind (traverse_items f xs) (λ ys. ok (list ys))
      decode_list v = err malformed_scope_value

      decode_map : Value → Result Value
      decode_map (obj m) = bind (traverse_fields f m) (λ n. ok (obj n))
      decode_map v = err malformed_scope_value

  abbrev decode_kind : (Value → Result Value) → Value → Option Value → Result Value
  decode_kind f (str kind) (some payload) = decode_payload f kind payload
  decode_kind f kind payload = err malformed_scope_value

  -- An object with no tag is returned as it is.
  abbrev decode_object : (Value → Result Value) → Fields → Option Value → Result Value
  decode_object f m none = ok (obj m)
  decode_object f m (some kind) = decode_kind f kind (lookup_field (codes "v") m)

  -- `decodeValue`, with the number of levels left in place of the depth.
  unfoldable pub decode_value : ℕ → Value → Result Value
  decode_value zero v = err scope_value_too_deep
  decode_value (suc left) (obj m) =
      decode_object (decode_value left) m (lookup_field (codes "$k") m)
  decode_value (suc left) v = ok v
