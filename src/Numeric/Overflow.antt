-- ===== src/Numeric/Overflow.antt =====
-- The wrap-around test of foldInt against exact integers.
use rlng.Base.{
  ◌^◌, ◌<◌, ◌≡◌, refl, Bool, ◌&&◌, not, List, [], ◌∷◌, All, arith, ltb, leb, if◌then◌else◌,
  Bool-cases, inl, inr,
}
use rlng.Base.Int.{
  ℤ, pos, negsuc, pos_part, neg_part, ◌+ℤ◌, IsInt64, wrap64, wrap64_lem, add_overflows,
}
use rlng.Value.{Value, signed, unsigned, int64}
use rlng.Error.{Result, ok, err, aggregate_overflow}
use rlng.Numeric.{to_int64, agg_sum, fold_int_from, fold_int}

-- The value is one that Go can hold: an int64 or narrower, a uint64 or narrower.
abbrev pub IsMachine : Value → Type 0
IsMachine (signed k n) = IsInt64 n
IsMachine (unsigned k u) = u < 2 ^ 64
IsMachine v = Unit

abbrev pub in_int64 : ℤ → Bool
in_int64 n = ltb (pos_part n) (2 ^ 63) && leb (neg_part n) (2 ^ 63)

to_int64-IsInt64 : (v : Value) → IsMachine v → IsInt64 (to_int64 v)
unfolding to_int64
to_int64-IsInt64 (signed k n) h = h
to_int64-IsInt64 (unsigned k u) h = ground arith
to_int64-IsInt64 _ h = omega arith

-- On int64 operands the test on the wrapped sum detects exactly the sums out of range.
add_overflows-eq : (a n : ℤ) → IsInt64 a → IsInt64 n → add_overflows a n ≡ not (in_int64 (a +ℤ n))
unfolding add_overflows wrap64 ◌+ℤ◌
add_overflows-eq (pos a) (pos n) h k = ground arith
add_overflows-eq (pos a) (negsuc n) h k = ground arith
add_overflows-eq (negsuc a) (pos n) h k = ground arith
add_overflows-eq (negsuc a) (negsuc n) h k = ground arith

-- The reference: exact integers, and an error at the first partial sum out of range.
pub checked_sum : ℤ → List Value → Result Value
checked_sum acc [] = ok (signed int64 acc)
checked_sum acc (v ∷ vs) =
    let rest = checked_sum (acc +ℤ to_int64 v) vs in
    if in_int64 (acc +ℤ to_int64 v) then rest else err aggregate_overflow

fold_int_from-eq-checked_sum :
    (acc best : ℤ) (elem : Value) (vs : List Value)
    → IsInt64 acc
    → All IsMachine vs
    → fold_int_from agg_sum acc best elem vs ≡ checked_sum acc vs
unfolding fold_int_from checked_sum
fold_int_from-eq-checked_sum acc best elem [] h k = refl
fold_int_from-eq-checked_sum acc best elem (v ∷ vs) h k =
    let n = to_int64 v in
    let ok_n = to_int64-IsInt64 v k.0 in
    elim (Bool-cases (in_int64 (acc +ℤ n))) [
      | inl inside ↦
          rw (add_overflows-eq acc n h ok_n, inside, wrap64_lem (acc +ℤ n) (ground arith))
            (fold_int_from-eq-checked_sum (acc +ℤ n) best elem vs (ground arith) k.1)
      | inr outside ↦ rw (add_overflows-eq acc n h ok_n, outside)
    ]

-- On machine values the int64 sum with its wrap-around test returns what exact integers give: the
-- sum if every partial sum lies in the range of int64, and the overflow error at the first that
-- does not.
pub fold_int-eq-checked_sum :
    (v : Value) (vs : List Value)
    → All IsMachine (v ∷ vs)
    → fold_int (v ∷ vs) agg_sum ≡ checked_sum (to_int64 v) vs
unfolding fold_int
fold_int-eq-checked_sum v vs h =
    fold_int_from-eq-checked_sum (to_int64 v) (to_int64 v) v vs (to_int64-IsInt64 v h.0) h.1
