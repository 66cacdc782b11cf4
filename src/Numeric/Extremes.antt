-- ===== src/Numeric/Extremes.antt =====
-- The least and the greatest element that foldInt picks.
use rlng.Base.{◌≡◌, refl, ◌⊎◌, inl, inr, List, [], ◌∷◌, All, Among, arith, Bool-cases}
use rlng.Base.Int.{ℤ, ◌≤ℤ◌, ltb_ℤ}
use rlng.Value.{Value}
use rlng.Error.{ok}
use rlng.Numeric.{to_int64, agg_min, agg_max, fold_int_from, fold_int}

-- `r` is an element, and no element is less.
abbrev pub IsLeast : Value → List Value → Type 0
IsLeast r vs = Among r vs × All (λ w. to_int64 r ≤ℤ to_int64 w) vs

fold_int_from_min :
    (acc : ℤ) (elem : Value) (vs : List Value)
    → (r : Value) × (fold_int_from agg_min acc (to_int64 elem) elem vs ≡ ok r)
      × ((r ≡ elem) ⊎ Among r vs)
      × (to_int64 r ≤ℤ to_int64 elem)
      × All (λ w. to_int64 r ≤ℤ to_int64 w) vs
unfolding fold_int_from
fold_int_from_min acc elem [] = (elem, refl, inl refl, omega arith, tt)
fold_int_from_min acc elem (v ∷ vs) = elim (Bool-cases (ltb_ℤ (to_int64 v) (to_int64 elem))) [
  | inl less ↦
      let (r, e, m, below, all) = fold_int_from_min acc v vs in
      (r, rw less e, ground arith, ground arith, (below, all))
  | inr not_less ↦
      let (r, e, m, below, all) = fold_int_from_min acc elem vs in
      (r, rw not_less e, ground arith, below, (ground arith, all))
]

-- `r` is an element, and no element is greater.
abbrev pub IsGreatest : Value → List Value → Type 0
IsGreatest r vs = Among r vs × All (λ w. to_int64 w ≤ℤ to_int64 r) vs

fold_int_from_max :
    (acc : ℤ) (elem : Value) (vs : List Value)
    → (r : Value) × (fold_int_from agg_max acc (to_int64 elem) elem vs ≡ ok r)
      × ((r ≡ elem) ⊎ Among r vs)
      × (to_int64 elem ≤ℤ to_int64 r)
      × All (λ w. to_int64 w ≤ℤ to_int64 r) vs
unfolding fold_int_from
fold_int_from_max acc elem [] = (elem, refl, inl refl, omega arith, tt)
fold_int_from_max acc elem (v ∷ vs) = elim (Bool-cases (ltb_ℤ (to_int64 elem) (to_int64 v))) [
  | inl more ↦
      let (r, e, m, above, all) = fold_int_from_max acc v vs in
      (r, rw more e, ground arith, ground arith, (above, all))
  | inr not_more ↦
      let (r, e, m, above, all) = fold_int_from_max acc elem vs in
      (r, rw not_more e, ground arith, above, (ground arith, all))
]

-- On a non-empty list the int64 minimum and maximum are found: each is an element of the list as
-- it was given, and bounds all elements.
pub fold_int_extremes :
    (v : Value) (vs : List Value)
    → ((r : Value) × (fold_int (v ∷ vs) agg_min ≡ ok r) × IsLeast r (v ∷ vs))
      × ((r : Value) × (fold_int (v ∷ vs) agg_max ≡ ok r) × IsGreatest r (v ∷ vs))
unfolding fold_int
fold_int_extremes v vs =
    let (r, e, m, below, all) = fold_int_from_min (to_int64 v) v vs in
    let (r', e', m', above, all') = fold_int_from_max (to_int64 v) v vs in
    ((r, e, (m, (below, all))), (r', e', (m', (above, all'))))
