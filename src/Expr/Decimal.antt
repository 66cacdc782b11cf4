-- ===== src/Expr/Decimal.antt =====
-- expr/decimal.go: the decimal functions of an expression. The arithmetic of decimals and their
-- texts are parameters; an operation of shopspring/decimal that panics is `err panic`.
use rlng.Base.{ℕ, ◌+◌, ◌-◌, ◌%◌, ◌^◌, ◌≡◌, refl, ltb, arith, if◌then◌else◌}
use rlng.Base.Int.{ℤ, pos, negsuc}
use rlng.Base.Text.{Text, codes}
use rlng.Value.{Value, Decimal, Arith, int, int64, float64, str, signed, float, dec}
use rlng.Error.{panic, unsupported_decimal, Result, ok, err, bind}

pub record DecimalOps : Type 0 where
  pub parse_decimal : Text → Result Decimal
  pub add : Decimal → Decimal → Result Decimal
  pub sub : Decimal → Decimal → Result Decimal
  pub mul : Decimal → Decimal → Result Decimal
  pub div : Decimal → Decimal → Result Decimal
  pub round : Decimal → ℤ → Decimal
  pub round_bank : Decimal → ℤ → Decimal

-- `int32(n)`
unfoldable pub wrap32 : ℤ → ℤ
wrap32 (pos n) = let m = n % 2 ^ 32 in if ltb m (2 ^ 31) then pos m else negsuc (2 ^ 32 - 1 - m)
wrap32 (negsuc n) = let m = n % 2 ^ 32 in if ltb m (2 ^ 31) then negsuc m else pos (2 ^ 32 - 1 - m)

-- The Go name of an overloaded operator's function.
pub data DecimalOperator : Type 0 where
  add_decimal sub_decimal mul_decimal div_decimal : DecimalOperator

-- The operator that an expression writes for a function, as `decimalExprOptions` registers it.
unfoldable pub operator_text : DecimalOperator → Text
operator_text add_decimal = codes "+"
operator_text sub_decimal = codes "-"
operator_text mul_decimal = codes "*"
operator_text div_decimal = codes "/"

module _ (arithmetic : Arith) (ops : DecimalOps) where
  -- `toDecimal`
  unfoldable pub to_decimal : Value → Result Decimal
  to_decimal (str s) = ops.parse_decimal s
  to_decimal (signed int n) = ok (arithmetic.decimal_of_int n)
  to_decimal (signed int64 n) = ok (arithmetic.decimal_of_int n)
  to_decimal (float float64 f) = ok (arithmetic.decimal_of_float f)
  to_decimal (dec d) = ok d
  to_decimal v = err unsupported_decimal

  abbrev decimal_operation : DecimalOperator → Decimal → Decimal → Result Decimal
  decimal_operation add_decimal = ops.add
  decimal_operation sub_decimal = ops.sub
  decimal_operation mul_decimal = ops.mul
  decimal_operation div_decimal = ops.div

  -- `decimal`
  unfoldable pub call_decimal : Value → Result Value
  call_decimal v = bind (to_decimal v) (λ d. ok (dec d))

  -- `addDecimal`, `subDecimal`, `mulDecimal` and `divDecimal`
  unfoldable pub call_operator : DecimalOperator → Value → Value → Result Value
  call_operator o v w =
      bind (to_decimal v)
        (λ a. bind (to_decimal w) (λ b. bind (decimal_operation o a b) (λ d. ok (dec d))))

  abbrev rounded : (Decimal → ℤ → Decimal) → Value → Value → Result Value
  rounded f v (signed int n) = bind (to_decimal v) (λ d. ok (dec (f d (wrap32 n))))
  rounded f v places = bind (to_decimal v) (λ d. err panic)

  -- `round` and `roundBank`; the number of places is an int.
  unfoldable pub call_round : Value → Value → Result Value
  call_round = rounded ops.round

  unfoldable pub call_round_bank : Value → Value → Result Value
  call_round_bank = rounded ops.round_bank

  -- An int operand of an operator counts as the decimal of the same number on either side.
  pub call_operator-int :
      (o : DecimalOperator) (n : ℤ) (v : Value)
      → (call_operator o (signed int n) v ≡ call_operator o (dec (arithmetic.decimal_of_int n)) v)
        × (call_operator o v (signed int n) ≡ call_operator o v (dec (arithmetic.decimal_of_int n)))
  unfolding call_operator to_decimal
  call_operator-int o n v = (refl, refl)

  -- A number of places beyond int32 wraps: adding 2^32 to one that is not negative changes nothing.
  pub call_round-wraps :
      (v : Value) (n : ℕ)
      → call_round v (signed int (pos (n + 2 ^ 32))) ≡ call_round v (signed int (pos n))
  unfolding call_round wrap32
  call_round-wraps v n = ground arith
