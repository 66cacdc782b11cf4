-- ===== src/Numeric.antt =====
-- pipe/numeric.go, and the aggregation of numbers in pipe/table.go: `classify`, the three folds
-- and `aggregate`. float64 and decimal.Decimal come as the parameter `ops`.
pub mod Overflow
pub mod Extremes
pub mod Kinds
use rlng.Base.{
  ℕ, ◌+◌, ◌-◌, ◌^◌, Bool, true, false, ◌&&◌, Option, none, some, List, [], ◌∷◌, ltb, ◌==◌,
  if◌then◌else◌, length,
}
use rlng.Base.Int.{ℤ, pos, negsuc, ltb_ℤ, ◌+ℤ◌, wrap64, add_overflows}
use rlng.Value.{
  Value, signed, unsigned, float, dec, list, int, int64, float64, Float, Decimal, Sign, minus, zero,
  plus, Arith, is_finite,
}
use rlng.Value.Access.{to_items}
use rlng.Value.Equal.{deep_equal}
use rlng.Error.{
  Error, panic, not_numeric_kind, uint_overflow, non_numeric_aggregate, aggregate_overflow,
  non_finite_aggregate, Result, ok, err, bind,
}

-- `math.MaxInt64 < u`
abbrev above_int64 : ℕ → Bool
above_int64 u = ltb (2 ^ 63 - 1) u

unfoldable pub int64_from_numeric : Value → Result ℤ
int64_from_numeric (signed k n) = ok n
int64_from_numeric (unsigned k u) = if above_int64 u then err (uint_overflow u) else ok (pos u)
int64_from_numeric _ = err not_numeric_kind

unfoldable pub to_int64 : Value → ℤ
unfolding int64_from_numeric
to_int64 v = elim (int64_from_numeric v) [ ok i ↦ i | err e ↦ pos 0 ]

module _ (ops : Arith) where
  unfoldable pub float64_from_numeric : Value → Result Float
  float64_from_numeric (float k f) = ok f
  float64_from_numeric (signed k n) = ok (ops.float_of_int n)
  float64_from_numeric (unsigned k u) = ok (ops.float_of_int (pos u))
  float64_from_numeric _ = err not_numeric_kind

  unfoldable pub to_float64 : Value → Float
  unfolding float64_from_numeric
  to_float64 v = elim (float64_from_numeric v) [ ok f ↦ f | err e ↦ 0 ]

  unfoldable pub decimal_from_numeric : Value → Option Decimal
  decimal_from_numeric (signed k n) = some (ops.decimal_of_int n)
  decimal_from_numeric (unsigned k u) = some (ops.decimal_of_int (pos u))
  decimal_from_numeric (float k f) = if is_finite f then some (ops.decimal_of_float f) else none
  decimal_from_numeric _ = none

  unfoldable pub as_decimal : Value → Option Decimal
  as_decimal (dec d) = some d
  as_decimal v = decimal_from_numeric v

-- In the order of their ranks.
pub data NumKind : Type 0 where
  kind_int kind_float kind_decimal kind_non_numeric : NumKind

unfoldable pub classify : Value → NumKind
classify (signed k n) = kind_int
classify (unsigned k u) = if above_int64 u then kind_decimal else kind_int
classify (float k f) = kind_float
classify (dec d) = kind_decimal
classify _ = kind_non_numeric

abbrev pub wider : NumKind → NumKind → NumKind
wider kind_int l = l
wider kind_float kind_int = kind_float
wider kind_float l = l
wider kind_decimal kind_non_numeric = kind_non_numeric
wider kind_decimal l = kind_decimal
wider kind_non_numeric l = kind_non_numeric

-- `numericOp`
pub data NumericOp : Type 0 where
  agg_sum agg_min agg_max : NumericOp

-- Whether the next element wins, from the two comparisons with the best one so far.
abbrev pub beats : NumericOp → Bool → Bool → Bool
beats agg_sum less more = false
beats agg_min less more = less
beats agg_max less more = more

-- The loop of `foldInt`; `best` is the int64 of the element `elem`.
unfoldable pub fold_int_from : NumericOp → ℤ → ℤ → Value → List Value → Result Value
fold_int_from agg_sum acc best elem [] = ok (signed int64 acc)
fold_int_from op acc best elem [] = ok elem
fold_int_from agg_sum acc best elem (v ∷ vs) =
    let n = to_int64 v in
    let rest = fold_int_from agg_sum (wrap64 (acc +ℤ n)) best elem vs in
    if add_overflows acc n then err aggregate_overflow else rest
fold_int_from op acc best elem (v ∷ vs) =
    let n = to_int64 v in
    let wins = beats op (ltb_ℤ n best) (ltb_ℤ best n) in
    fold_int_from op acc (if wins then n else best) (if wins then v else elem) vs

unfoldable pub fold_int : List Value → NumericOp → Result Value
fold_int [] op = err panic
fold_int (v ∷ vs) op = fold_int_from op (to_int64 v) (to_int64 v) v vs

module _ (ops : Arith) where
  unfoldable pub fold_float_from : NumericOp → Float → Float → Value → List Value → Value
  fold_float_from agg_sum acc best elem [] = float float64 acc
  fold_float_from op acc best elem [] = elem
  fold_float_from op acc best elem (v ∷ vs) =
      let n = to_float64 ops v in
      let wins = beats op (ops.float_lt n best) (ops.float_lt best n) in
      fold_float_from op (ops.float_add acc n) (if wins then n else best) (if wins then v else elem)
        vs

  unfoldable pub fold_float : List Value → NumericOp → Result Value
  fold_float [] op = err panic
  fold_float (v ∷ vs) op = ok (fold_float_from op (to_float64 ops v) (to_float64 ops v) v vs)

  abbrev is_minus : Sign → Bool
  is_minus minus = true
  is_minus _ = false

  abbrev is_plus : Sign → Bool
  is_plus plus = true
  is_plus _ = false

  unfoldable pub fold_decimal_from :
      NumericOp → Decimal → Decimal → Value → List Value → Result Value
  fold_decimal_from agg_sum acc best elem [] = ok (dec acc)
  fold_decimal_from op acc best elem [] = ok elem
  fold_decimal_from op acc best elem (v ∷ vs) = elim (as_decimal ops v) [
    | none ↦ err (non_finite_aggregate v)
    | some d ↦
        let sign = ops.decimal_cmp d best in
        let wins = beats op (is_minus sign) (is_plus sign) in
        fold_decimal_from op (ops.decimal_add acc d) (if wins then d else best)
          (if wins then v else elem) vs
  ]

  unfoldable pub fold_decimal : List Value → NumericOp → Result Value
  fold_decimal [] op = err panic
  fold_decimal (v ∷ vs) op = elim (as_decimal ops v) [
    | none ↦ err (non_finite_aggregate v)
    | some d ↦ fold_decimal_from op d d v vs
  ]

-- The first loop of `foldNumeric`.
unfoldable pub widest_kind : NumKind → List Value → Result NumKind
widest_kind widest [] = ok widest
widest_kind widest (v ∷ vs) =
    let rest = widest_kind (wider widest (classify v)) vs in
    elim (classify v) [ kind_non_numeric ↦ err (non_numeric_aggregate v) | _ ↦ rest ]

-- `CollectAggregation`
pub data CollectAggregation : Type 0 where
  aggregate_list aggregate_sum aggregate_min aggregate_max aggregate_count : CollectAggregation

module _ (ops : Arith) where
  abbrev pub fold_kind : List Value → NumericOp → NumKind → Result Value
  fold_kind vals op kind_decimal = fold_decimal ops vals op
  fold_kind vals op kind_float = fold_float ops vals op
  fold_kind vals op _ = fold_int vals op

  unfoldable pub fold_numeric : List Value → NumericOp → Result Value
  fold_numeric vals op = bind (widest_kind kind_int vals) (fold_kind vals op)

  unfoldable pub aggregate : CollectAggregation → List Value → Result Value
  aggregate aggregate_count vals = ok (signed int (pos (length vals)))
  aggregate aggregate_sum vals = fold_numeric vals agg_sum
  aggregate aggregate_min vals = fold_numeric vals agg_min
  aggregate aggregate_max vals = fold_numeric vals agg_max
  aggregate aggregate_list vals = ok (list (to_items vals))

  abbrev pub is_numeric : Value → Bool
  is_numeric v = elim (classify v) [ kind_non_numeric ↦ false | _ ↦ true ]

  abbrev agree_as : Value → Value → Option Decimal → Option Decimal → Bool
  agree_as a b (some d) (some e) = ops.decimal_equal d e
  agree_as a b _ _ = deep_equal ops a b

  -- `valuesAgree`
  unfoldable pub values_agree : Value → Value → Bool
  values_agree a b =
      if is_numeric a && is_numeric b
      then agree_as a b (as_decimal ops a) (as_decimal ops b)
      else deep_equal ops a b
