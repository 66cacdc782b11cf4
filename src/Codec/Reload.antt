-- ===== src/Codec/Reload.antt =====
-- Reading back an encoded value.
use rlng.Base.{
  ℕ, zero, suc, ◌-◌, ◌*◌, ◌^◌, ◌<◌, ◌≡◌, refl, true, Option, none, some, arith, ltb, if◌then◌else◌,
  Bool-cases, Option-cases, inl, inr,
}
use rlng.Base.Int.{ℤ, pos, negsuc, pos_part, ltb_ℤ, IsInt64}
use rlng.Base.Text.{Text, text_eq}
use rlng.Value.{
  Value, null, bool, str, signed, unsigned, float, dec, instant, number, other, list, obj, Items,
  nil, cons, Fields, end, field, Decimal, Float, UintKind, uint, uint64, int64, float64, is_finite,
}
use rlng.Value.Access.{lookup_field}
use rlng.Error.{Result, ok, Cases, Result-Cases, ok_injective}
use rlng.Codec.{
  ParsedInt, found, out_of_range, not_integer, Wire, tagged, traverse_items, traverse_fields,
  insert_sorted_field, sort_fields, encode_value, decode_scalar, decode_payload, decode_value,
  decimal_text, encode_float, encode_int, encode_parsed, encode_unsigned, checked_kind,
}

abbrev scale : ℤ → ℕ → ℤ
scale (pos n) m = pos (n * m)
scale (negsuc n) m = negsuc (suc n * m - 1)

-- A decimal as its text gives it: with no positive exponent.
abbrev pub plain : Decimal → Decimal
plain d =
    if ltb_ℤ d.exponent (pos 0)
    then d
    else record { coefficient = scale d.coefficient (10 ^ pos_part d.exponent); exponent = pos 0 }

-- What strconv, shopspring/decimal and time promise of the texts that they write; of a time the
-- layout RFC3339Nano has room for a year of four digits and an offset in whole minutes.
pub record WireLaws (w : Wire) : Type 0 where
  pub int_back : (n : ℤ) → IsInt64 n → w.parse_int (w.format_int n) ≡ found n
  pub int_range : (s : Text) (n : ℤ) → w.parse_int s ≡ found n → IsInt64 n
  pub float_back : (f : Float) → is_finite f ≡ true → w.parse_float (w.format_float f) ≡ some f
  pub decimal_back : (d : Decimal) → w.parse_decimal (decimal_text w d) ≡ some (plain d)
  pub time_back : (t : ℕ) → w.spelt_whole t ≡ true → w.parse_time (w.format_time t) ≡ some t

-- The unsigned kinds other than uint and uint64 have at most 32 bits.
abbrev pub IsUint : UintKind → ℕ → Type 0
IsUint uint u = u < 2 ^ 64
IsUint uint64 u = u < 2 ^ 64
IsUint k u = u < 2 ^ 32

-- Every integer in the value is in the range of its Go type, and RFC3339Nano spells every time in it
-- whole.
unfoldable mutual
  pub IsHeld : Wire → Value → Type 0
  IsHeld w (signed k n) = IsInt64 n
  IsHeld w (unsigned k u) = IsUint k u
  IsHeld w (instant t) = w.spelt_whole t ≡ true
  IsHeld w (list xs) = AreHeld w xs
  IsHeld w (obj m) = HoldsHeld w m
  IsHeld w v = Unit

  pub AreHeld : Wire → Items → Type 0
  AreHeld w nil = Unit
  AreHeld w (cons v vs) = IsHeld w v × AreHeld w vs

  pub HoldsHeld : Wire → Fields → Type 0
  HoldsHeld w end = Unit
  HoldsHeld w (field k v m) = IsHeld w v × HoldsHeld w m

module _ (c : Value → Value) where
  unfoldable pub map_items : Items → Items
  map_items nil = nil
  map_items (cons v vs) = cons (c v) (map_items vs)

  unfoldable pub map_fields : Fields → Fields
  map_fields end = end
  map_fields (field k v m) = field k (c v) (map_fields m)

module _ (w : Wire) where
  abbrev number_as : ParsedInt → Option Float → Value
  number_as (found n) f = signed int64 n
  number_as p (some f) = float float64 f
  number_as p none = null

  -- The value in the kinds of the tagged form: integers as int64, floats as float64, maps in the
  -- order of their keys.
  unfoldable pub canonical : ℕ → Value → Value
  canonical zero v = v
  canonical (suc left) (signed k n) = signed int64 n
  canonical (suc left) (unsigned k u) = signed int64 (pos u)
  canonical (suc left) (float k f) = float float64 f
  canonical (suc left) (dec d) = dec (plain d)
  canonical (suc left) (number s) = number_as (w.parse_int s) (w.parse_float s)
  canonical (suc left) (list xs) = list (map_items (canonical left) xs)
  canonical (suc left) (obj m) = obj (map_fields (canonical left) (sort_fields m))
  canonical (suc left) v = v

insert-HoldsHeld :
    (w : Wire) (k : Text) (v : Value) (m : Fields)
    → IsHeld w v
    → HoldsHeld w m
    → HoldsHeld w (insert_sorted_field k v m)
unfolding insert_sorted_field IsHeld
insert-HoldsHeld w k v end h hs = (h, tt)
insert-HoldsHeld w k v (field j x m) h hs = ground (arith, h, hs, insert-HoldsHeld w k v m h hs.1)

sort_fields-HoldsHeld : (w : Wire) (m : Fields) → HoldsHeld w m → HoldsHeld w (sort_fields m)
unfolding sort_fields IsHeld
sort_fields-HoldsHeld w end h = tt
sort_fields-HoldsHeld w (field k v m) h =
    insert-HoldsHeld w k v (sort_fields m) h.0 (sort_fields-HoldsHeld w m h.1)

module _ (w : Wire) (f g : Value → Result Value) (c : Value → Value)
    (back : (v e : Value) → IsHeld w v → f v ≡ ok e → g e ≡ ok (c v)) where
  traverse_items-back :
      (xs : Items) {ys : Items}
      → AreHeld w xs
      → traverse_items f xs ≡ ok ys
      → traverse_items g ys ≡ ok (map_items c xs)
  unfolding traverse_items map_items IsHeld
  traverse_items-back nil h e = rw (← ok_injective e)
  traverse_items-back (cons v vs) h e = elim (Result-Cases (f v)) [
    | Cases.bad x failed ↦ ground arith
    | Cases.good a p ↦ elim (Result-Cases (traverse_items f vs)) [
      | Cases.bad x failed ↦ ground arith
      | Cases.good bs q ↦
          rw (← ok_injective (rw (p, q, traverse_items) at e))
            (rw (back v a h.0 p, traverse_items-back vs h.1 q))
    ]
  ]

  pub traverse_fields-back :
      (m : Fields) {n : Fields}
      → HoldsHeld w m
      → traverse_fields f m ≡ ok n
      → traverse_fields g n ≡ ok (map_fields c m)
  unfolding traverse_fields map_fields IsHeld
  traverse_fields-back end h e = rw (← ok_injective e)
  traverse_fields-back (field k v m) h e = elim (Result-Cases (f v)) [
    | Cases.bad x failed ↦ ground arith
    | Cases.good a p ↦ elim (Result-Cases (traverse_fields f m)) [
      | Cases.bad x failed ↦ ground arith
      | Cases.good bs q ↦
          rw (← ok_injective (rw (p, q, traverse_fields) at e))
            (rw (back v a h.0 p, traverse_fields-back m h.1 q))
    ]
  ]

module _ (w : Wire) (laws : WireLaws w) where
  float-back :
      (left : ℕ) (f : Float) (e : Value)
      → encode_float w f ≡ ok e
      → decode_value w (suc left) e ≡ ok (float float64 f)
  unfolding decode_value decode_payload decode_scalar tagged lookup_field text_eq
  float-back left f e h = elim (Bool-cases (is_finite f)) [
    | inl finite ↦ rw (← ok_injective (rw finite at h)) (rw (laws.float_back f finite))
    | inr not_finite ↦ ground arith
  ]

  int-back :
      (left : ℕ) (n : ℤ)
      → IsInt64 n
      → decode_value w (suc left) (encode_int w n) ≡ ok (signed int64 n)
  unfolding decode_value decode_payload decode_scalar tagged lookup_field text_eq
  int-back left n h = rw (laws.int_back n h)

  number-back :
      (left : ℕ) (s : Text) (p : ParsedInt) (e : Value)
      → w.parse_int s ≡ p
      → encode_parsed w s p ≡ ok e
      → decode_value w (suc left) e ≡ ok (number_as w p (w.parse_float s))
  number-back left s (found n) e r h =
      rw (← ok_injective h) (int-back left n (laws.int_range s n r))
  number-back left s out_of_range e r h = ground arith
  number-back left s not_integer e r h = elim (Option-cases (w.parse_float s)) [
    | inl none_read ↦ ground arith
    | inr (f, read) ↦ rw read (float-back left f e (rw (read, encode_parsed) at h))
  ]

  checked-back :
      (left : ℕ) (k : UintKind) (u : ℕ) (e : Value)
      → checked_kind k ≡ true
      → encode_unsigned w k u ≡ ok e
      → decode_value w (suc left) e ≡ ok (signed int64 (pos u))
  checked-back left k u e c h = elim (Bool-cases (ltb (2 ^ 63 - 1) u)) [
    | inl above ↦ ground arith
    | inr within ↦
        rw (← ok_injective (rw (c, within, encode_unsigned) at h))
          (int-back left (pos u) (ground arith, omega arith))
  ]

  unsigned-back :
      (left : ℕ) (k : UintKind) (u : ℕ) (e : Value)
      → IsUint k u
      → encode_unsigned w k u ≡ ok e
      → decode_value w (suc left) e ≡ ok (signed int64 (pos u))
  unsigned-back left uint u e b h = checked-back left uint u e refl h
  unsigned-back left uint64 u e b h = checked-back left uint64 u e refl h
  unsigned-back left k u e b h =
      rw (← ok_injective h) (int-back left (pos u) (omega arith, omega arith))

  -- A value that encodes, whose integers are in the range of their Go types and whose times have a
  -- year of four digits and an offset in whole minutes, decodes into the same value in the canonical
  -- kinds.
  pub encode_value-back :
      (left : ℕ) (v e : Value)
      → IsHeld w v
      → encode_value w left v ≡ ok e
      → decode_value w left e ≡ ok (canonical w left v)
  unfolding encode_value decode_value decode_payload decode_scalar tagged lookup_field text_eq
      canonical IsHeld
  encode_value-back zero v e h r = ground arith
  encode_value-back (suc left) null e h r = rw (← ok_injective r)
  encode_value-back (suc left) (bool b) e h r = rw (← ok_injective r)
  encode_value-back (suc left) (str s) e h r = rw (← ok_injective r)
  encode_value-back (suc left) (signed k n) e h r = rw (← ok_injective r) (int-back left n h)
  encode_value-back (suc left) (unsigned k u) e h r = unsigned-back left k u e h r
  encode_value-back (suc left) (float k f) e h r = float-back left f e r
  encode_value-back (suc left) (dec d) e h r = rw (← ok_injective r) (rw (laws.decimal_back d))
  encode_value-back (suc left) (instant t) e h r = rw (← ok_injective r) (rw (laws.time_back t h))
  encode_value-back (suc left) (number s) e h r = number-back left s (w.parse_int s) e refl r
  encode_value-back (suc left) (list xs) e h r =
      elim (Result-Cases (traverse_items (encode_value w left) xs)) [
        | Cases.bad x failed ↦ ground arith
        | Cases.good ys done ↦ rw (← ok_injective (rw (done, encode_value) at r)) (
            rw (
              traverse_items-back w (encode_value w left) (decode_value w left) (canonical w left)
                (encode_value-back left) xs h done))
      ]
  encode_value-back (suc left) (obj m) e h r =
      elim (Result-Cases (traverse_fields (encode_value w left) (sort_fields m))) [
        | Cases.bad x failed ↦ ground arith
        | Cases.good n done ↦ rw (← ok_injective (rw (done, encode_value) at r)) (
            rw (
              traverse_fields-back w (encode_value w left) (decode_value w left) (canonical w left)
                (encode_value-back left) (sort_fields m) (sort_fields-HoldsHeld w m h) done))
      ]
  encode_value-back (suc left) (other a) e h r = ground arith
