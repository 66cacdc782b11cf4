-- ===== src/Value.antt =====
-- The dynamic values that a scope holds (Go's `any`), as far as pipe/ tells them apart, and the
-- operations of float64 and decimal.Decimal, which Go and shopspring/decimal implement.
pub mod Access
pub mod Reflect
pub mod Equal
use rlng.Base.{ℕ, Bool, ◌*◌, ◌/◌, ◌%◌, ◌^◌, ◌==◌, not}
use rlng.Base.Int.{ℤ}
use rlng.Base.Text.{Text}

pub data IntKind : Type 0 where
  int int8 int16 int32 int64 : IntKind

pub data UintKind : Type 0 where
  uint uint8 uint16 uint32 uint64 : UintKind

pub data FloatKind : Type 0 where
  float32 float64 : FloatKind

-- A decimal is its coefficient and its exponent; a float is the bits of its float64 value.
pub record Decimal : Type 0 where
  pub coefficient : ℤ
  pub exponent : ℤ

abbrev pub Float : Type 0
Float = ℕ

-- `number` is a json.Number, `instant` a time.Time, and `other` any other Go value.
mutual
  pub data Value : Type 0 where
    null : Value
    bool : Bool → Value
    str : Text → Value
    signed : IntKind → ℤ → Value
    unsigned : UintKind → ℕ → Value
    float : FloatKind → Float → Value
    dec : Decimal → Value
    instant : ℕ → Value
    number : Text → Value
    other : ℕ → Value
    list : Items → Value
    obj : Fields → Value

  pub data Items : Type 0 where
    nil : Items
    cons : Value → Items → Items

  pub data Fields : Type 0 where
    end : Fields
    field : Text → Value → Fields → Fields

-- NaN and the infinities have an exponent of ones.
unfoldable pub is_finite : Float → Bool
is_finite f = not (f / 2 ^ 52 % 2 ^ 11 == 2047)

-- The arithmetic of float64 and of decimal.Decimal. Three-way results are signs.
pub data Sign : Type 0 where
  minus zero plus : Sign

pub record Arith : Type 0 where
  pub float_of_int : ℤ → Float
  pub float_add : Float → Float → Float
  pub float_lt : Float → Float → Bool
  pub float_eq : Float → Float → Bool
  pub decimal_of_int : ℤ → Decimal
  pub decimal_of_float : Float → Decimal
  pub decimal_add : Decimal → Decimal → Decimal
  pub decimal_cmp : Decimal → Decimal → Sign
  pub decimal_equal : Decimal → Decimal → Bool
