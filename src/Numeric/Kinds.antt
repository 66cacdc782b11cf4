-- ===== src/Numeric/Kinds.antt =====
-- Which fold foldNumeric chooses, and that it never panics.
use rlng.Base.{
  ◌≡◌, ◌≢◌, refl, inl, inr, List, [], ◌∷◌, ◌++◌, All, Among, All-map, arith, Option-cases,
}
use rlng.Base.Int.{ℤ, ◌+ℤ◌, wrap64}
use rlng.Value.{Value, Arith, Decimal}
use rlng.Error.{panic, non_numeric_aggregate, ok, err}
use rlng.Numeric.{
  NumKind, to_int64, kind_int, kind_decimal, kind_non_numeric, wider, classify, NumericOp, agg_sum,
  agg_min, agg_max, widest_kind, fold_int_from, fold_int, fold_float, fold_decimal_from,
  fold_decimal, fold_numeric, CollectAggregation, aggregate, aggregate_list, aggregate_sum,
  aggregate_min, aggregate_max, aggregate_count, as_decimal,
}

-- The kind of a list of numbers: the widest kind present.
abbrev join_kinds : NumKind → List Value → NumKind
join_kinds k [] = k
join_kinds k (v ∷ vs) = join_kinds (wider k (classify v)) vs

widest_kind-numeric :
    (k : NumKind) (vs : List Value)
    → All (λ v. classify v ≢ kind_non_numeric) vs
    → widest_kind k vs ≡ ok (join_kinds k vs)
unfolding widest_kind
widest_kind-numeric k [] h = refl
widest_kind-numeric k (v ∷ vs) h = ground (arith, widest_kind-numeric (wider k (classify v)) vs h.1)

widest_kind-non_numeric :
    (k : NumKind) (pre : List Value) (v : Value) (post : List Value)
    → All (λ w. classify w ≢ kind_non_numeric) pre
    → classify v ≡ kind_non_numeric
    → widest_kind k (pre ++ v ∷ post) ≡ err (non_numeric_aggregate v)
unfolding widest_kind
widest_kind-non_numeric k [] v post h e = ground arith
widest_kind-non_numeric k (w ∷ pre) v post h e =
    ground (arith, widest_kind-non_numeric (wider k (classify w)) pre v post h.1 e)

join_kinds_decimal :
    (vs : List Value)
    → All (λ v. classify v ≢ kind_non_numeric) vs
    → join_kinds kind_decimal vs ≡ kind_decimal
join_kinds_decimal [] h = refl
join_kinds_decimal (v ∷ vs) h = ground (arith, join_kinds_decimal vs h.1)

join_kinds-Among :
    (k : NumKind) (v : Value) (vs : List Value)
    → k ≢ kind_non_numeric
    → All (λ w. classify w ≢ kind_non_numeric) vs
    → Among v vs
    → classify v ≡ kind_decimal
    → join_kinds k vs ≡ kind_decimal
join_kinds-Among k v [] n h m e = elim m [ ]
join_kinds-Among k v (w ∷ vs) n h (inl same) e = ground (arith, join_kinds_decimal vs h.1)
join_kinds-Among k v (w ∷ vs) n h (inr later) e =
    join_kinds-Among (wider k (classify w)) v vs (ground arith) h.1 later e

join_kinds_int :
    (vs : List Value) → All (λ v. classify v ≡ kind_int) vs → join_kinds kind_int vs ≡ kind_int
join_kinds_int [] h = refl
join_kinds_int (v ∷ vs) h = ground (arith, join_kinds_int vs h.1)

module _ (ops : Arith) where
  -- The first value that is no number stops the fold with an error that names it.
  pub fold_numeric-non_numeric :
      (pre : List Value) (v : Value) (post : List Value) (op : NumericOp)
      → All (λ w. classify w ≢ kind_non_numeric) pre
      → classify v ≡ kind_non_numeric
      → fold_numeric ops (pre ++ v ∷ post) op ≡ err (non_numeric_aggregate v)
  unfolding fold_numeric
  fold_numeric-non_numeric pre v post op h e = rw (widest_kind-non_numeric kind_int pre v post h e)

  -- Among numbers one decimal makes the whole fold a decimal fold, wherever it stands.
  pub fold_numeric_decimal :
      (v : Value) (vs : List Value) (op : NumericOp)
      → All (λ w. classify w ≢ kind_non_numeric) vs
      → Among v vs
      → classify v ≡ kind_decimal
      → fold_numeric ops vs op ≡ fold_decimal ops vs op
  unfolding fold_numeric
  fold_numeric_decimal v vs op h m e =
      rw (widest_kind-numeric kind_int vs h, join_kinds-Among kind_int v vs (ground arith) h m e)

  -- A list of values of the integer kind alone is folded by foldInt.
  pub fold_numeric_int :
      (vs : List Value) (op : NumericOp)
      → All (λ w. classify w ≡ kind_int) vs
      → fold_numeric ops vs op ≡ fold_int vs op
  unfolding fold_numeric
  fold_numeric_int vs op all = rw (
    widest_kind-numeric kind_int vs (
        All-map (λ w. classify w ≡ kind_int) (λ w. classify w ≢ kind_non_numeric) vs
          (λ w e. ground arith) all),
    join_kinds_int vs all,
  )

fold_int_from-ne-panic :
    (op : NumericOp) (acc best : ℤ) (elem : Value) (vs : List Value)
    → fold_int_from op acc best elem vs ≢ err panic
unfolding fold_int_from
fold_int_from-ne-panic agg_sum acc best elem [] = ground arith
fold_int_from-ne-panic op acc best elem [] = ground arith
fold_int_from-ne-panic agg_sum acc best elem (v ∷ vs) =
    ground (arith, fold_int_from-ne-panic agg_sum (wrap64 (acc +ℤ to_int64 v)) best elem vs)
fold_int_from-ne-panic op acc best elem (v ∷ vs) = fold_int_from-ne-panic op _ _ _ vs

widest_kind-ne-panic : (k : NumKind) (vs : List Value) → widest_kind k vs ≢ err panic
unfolding widest_kind
widest_kind-ne-panic k [] = ground arith
widest_kind-ne-panic k (v ∷ vs) = ground (arith, widest_kind-ne-panic (wider k (classify v)) vs)

module _ (ops : Arith) where
  fold_decimal_from-ne-panic :
      (op : NumericOp) (vs : List Value) (acc best : Decimal) (elem : Value)
      → fold_decimal_from ops op acc best elem vs ≢ err panic
  unfolding fold_decimal_from
  fold_decimal_from-ne-panic agg_sum [] acc best elem = ground arith
  fold_decimal_from-ne-panic op [] acc best elem = ground arith
  fold_decimal_from-ne-panic op (v ∷ vs) acc best elem = elim (Option-cases (as_decimal ops v)) [
    | inl refused ↦ ground arith
    | inr (d, e) ↦ rw (e, fold_decimal_from) (fold_decimal_from-ne-panic op vs _ _ _)
  ]

  fold_decimal-ne-panic :
      (v : Value) (vs : List Value) (op : NumericOp) → fold_decimal ops (v ∷ vs) op ≢ err panic
  unfolding fold_decimal
  fold_decimal-ne-panic v vs op = elim (Option-cases (as_decimal ops v)) [
    | inl refused ↦ ground arith
    | inr (d, e) ↦ rw (e, fold_decimal) (fold_decimal_from-ne-panic op vs d d v)
  ]

  fold_numeric-ne-panic :
      (v : Value) (vs : List Value) (op : NumericOp) → fold_numeric ops (v ∷ vs) op ≢ err panic
  unfolding fold_numeric fold_int fold_float
  fold_numeric-ne-panic v vs op = ground (
    arith,
    widest_kind-ne-panic kind_int (v ∷ vs),
    fold_int_from-ne-panic op (to_int64 v) (to_int64 v) v vs,
    fold_decimal-ne-panic v vs op,
  )

  -- The folds read the first element with no test; on a list that is not empty no aggregation
  -- panics.
  pub aggregate-ne-panic :
      (agg : CollectAggregation) (vs : List Value) → vs ≢ [] → aggregate ops agg vs ≢ err panic
  unfolding aggregate
  aggregate-ne-panic agg [] h = absurd (h refl)
  aggregate-ne-panic aggregate_list (v ∷ vs) h = ground arith
  aggregate-ne-panic aggregate_sum (v ∷ vs) h = fold_numeric-ne-panic v vs agg_sum
  aggregate-ne-panic aggregate_min (v ∷ vs) h = fold_numeric-ne-panic v vs agg_min
  aggregate-ne-panic aggregate_max (v ∷ vs) h = fold_numeric-ne-panic v vs agg_max
  aggregate-ne-panic aggregate_count (v ∷ vs) h = ground arith
