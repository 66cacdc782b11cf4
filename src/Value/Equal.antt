-- ===== src/Value/Equal.antt =====
-- reflect.DeepEqual on values: two floats by `==`, two maps by their keys, all else by content.
use rlng.Base.{ℕ, Bool, true, false, ◌&&◌, none, some, ◌==◌}
use rlng.Base.Int.{eqb_ℤ}
use rlng.Base.Text.{text_eq}
use rlng.Value.{
  IntKind, int, int8, int16, int32, int64, UintKind, uint, uint8, uint16, uint32, uint64, FloatKind,
  float32, float64, Decimal, Value, null, bool, str, signed, unsigned, float, dec, instant, number,
  other, list, obj, Items, nil, cons, Fields, end, field, Arith,
}
use rlng.Value.Access.{lookup_field, count_fields}

abbrev int_rank : IntKind → ℕ
int_rank int = 0
int_rank int8 = 1
int_rank int16 = 2
int_rank int32 = 3
int_rank int64 = 4

abbrev uint_rank : UintKind → ℕ
uint_rank uint = 0
uint_rank uint8 = 1
uint_rank uint16 = 2
uint_rank uint32 = 3
uint_rank uint64 = 4

abbrev float_rank : FloatKind → ℕ
float_rank float32 = 0
float_rank float64 = 1

abbrev bool_eq : Bool → Bool → Bool
bool_eq true b = b
bool_eq false true = false
bool_eq false false = true

abbrev decimal_same : Decimal → Decimal → Bool
decimal_same a b = eqb_ℤ a.coefficient b.coefficient && eqb_ℤ a.exponent b.exponent

module _ (ops : Arith) where
  unfoldable mutual
    pub deep_equal : Value → Value → Bool
    deep_equal null null = true
    deep_equal (bool a) (bool b) = bool_eq a b
    deep_equal (str s) (str t) = text_eq s t
    deep_equal (signed k a) (signed l b) = int_rank k == int_rank l && eqb_ℤ a b
    deep_equal (unsigned k a) (unsigned l b) = uint_rank k == uint_rank l && a == b
    deep_equal (float k a) (float l b) = float_rank k == float_rank l && ops.float_eq a b
    deep_equal (dec a) (dec b) = decimal_same a b
    deep_equal (instant a) (instant b) = a == b
    deep_equal (number s) (number t) = text_eq s t
    deep_equal (other a) (other b) = a == b
    deep_equal (list xs) (list ys) = items_equal xs ys
    deep_equal (obj m) (obj n) = count_fields m == count_fields n && fields_equal m n
    deep_equal _ _ = false

    pub items_equal : Items → Items → Bool
    items_equal nil nil = true
    items_equal (cons x xs) (cons y ys) = deep_equal x y && items_equal xs ys
    items_equal _ _ = false

    -- Each entry of the first map has an equal one in the second.
    pub fields_equal : Fields → Fields → Bool
    fields_equal end n = true
    fields_equal (field k v m) n =
        elim (lookup_field k n) [ none ↦ false | some w ↦ deep_equal v w ] && fields_equal m n
