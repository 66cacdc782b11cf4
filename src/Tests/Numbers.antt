-- ===== src/Tests/Numbers.antt =====
-- The theorems on aggregation at concrete lists.
use rlng.Base.{◌^◌, ◌-◌, ◌≡◌, List, [], ◌∷◌, arith}
use rlng.Base.Int.{pos, negsuc}
use rlng.Value.{Value, signed, int, int64}
use rlng.Numeric.{to_int64, agg_sum, fold_int}
use rlng.Numeric.Overflow.{checked_sum, fold_int-eq-checked_sum}
use rlng.Tests.Data.{number_value}

abbrev greatest : Value
greatest = signed int64 (pos (2 ^ 63 - 1))

abbrev two : List Value
two = number_value 1 ∷ signed int (negsuc 4) ∷ []

fold_int-eq-checked_sum_example :
    fold_int (greatest ∷ two) agg_sum ≡ checked_sum (to_int64 greatest) two
fold_int-eq-checked_sum_example =
    fold_int-eq-checked_sum greatest two
      ((omega arith, omega arith), ((omega arith, omega arith), ((omega arith, omega arith), tt)))
