-- ===== src/Config/Hydrated.antt =====
-- Hydrating a definition does not change the form that is hashed.
use rlng.Base.{
  ℕ, ◌+◌, ◌≡◌, refl, ap, Option, none, some, List, [], ◌∷◌, ◌++◌, arith, inl, inr, Option-cases,
}
use rlng.Base.Text.{Text, codes}
use rlng.Base.Dict.{Dict}
use rlng.Value.{
  Value, null, bool, str, signed, unsigned, float, dec, instant, number, other, list, obj, Items,
  nil, cons, Fields, end, field,
}
use rlng.Error.{ok, Cases, Result-Cases, ok_injective}
use rlng.Codec.{Wire}
use rlng.Foreach.{element_name}
use rlng.Config.{ExprDef, NamedExprDef}
use rlng.Config.Decimals.{
  literal_of, parse_literal, hydrate_value, hydrate_items, hydrate_decimals, hydrate_expr_globals,
  hydrate_optional, hydrate_exprs, hydrate_decisions,
}
use rlng.Config.Canonical.{
  canonical_literal, canonicalize_value, canonicalize_items, canonicalize_map,
  canonicalize_expr_def, canonicalize_expr_def_ptr, canonicalize_exprs, canonicalize_decisions,
}

module _ (w : Wire) where
  parse_literal-canonical :
      (m : Fields) (raw v : Value)
      → parse_literal w raw ≡ ok v
      → canonicalize_value w v ≡ canonical_literal w m raw
  unfolding canonicalize_value
  parse_literal-canonical m (str s) v h = elim (Option-cases (w.parse_decimal s)) [
    | inl none_read ↦ ground arith
    | inr (d, read) ↦
        rw (← ok_injective (rw (read, parse_literal) at h)) (rw (canonical_literal, read) refl)
  ]
  parse_literal-canonical m null v h = ground arith
  parse_literal-canonical m (bool b) v h = ground arith
  parse_literal-canonical m (signed k n) v h = ground arith
  parse_literal-canonical m (unsigned k n) v h = ground arith
  parse_literal-canonical m (float k f) v h = ground arith
  parse_literal-canonical m (dec d) v h = ground arith
  parse_literal-canonical m (instant t) v h = ground arith
  parse_literal-canonical m (number s) v h = ground arith
  parse_literal-canonical m (other a) v h = ground arith
  parse_literal-canonical m (list xs) v h = ground arith
  parse_literal-canonical m (obj n) v h = ground arith

  literal_of-none :
      (m n : Fields) → hydrate_decimals w m ≡ ok n → literal_of m ≡ none → literal_of n ≡ none
  unfolding literal_of hydrate_value
  literal_of-none end n h none_held = ground arith
  literal_of-none (field k v end) n h none_held = elim (Result-Cases (hydrate_value w v)) [
    | Cases.bad e failed ↦ ground arith
    | Cases.good x p ↦ rw (← ok_injective (rw (p, hydrate_decimals) at h)) (ground arith)
  ]
  literal_of-none (field k v (field j u m)) n h none_held =
      elim (Result-Cases (hydrate_value w v)) [
        | Cases.bad e failed ↦ ground arith
        | Cases.good x p ↦ elim (Result-Cases (hydrate_value w u)) [
          | Cases.bad e failed ↦ ground arith
          | Cases.good y q ↦ elim (Result-Cases (hydrate_decimals w m)) [
            | Cases.bad e failed ↦ ground arith
            | Cases.good z r ↦ rw (← ok_injective (rw (p, q, r, hydrate_decimals) at h)) refl
          ]
        ]
      ]

  mutual
    unfolding hydrate_value canonicalize_value

    hydrate_value-canonical :
        (v x : Value) → hydrate_value w v ≡ ok x → canonicalize_value w x ≡ canonicalize_value w v
    hydrate_value-canonical (obj m) x h = elim (Option-cases (literal_of m)) [
      | inr (raw, held) ↦ rw held (parse_literal-canonical m raw x (rw held at h))
      | inl none_held ↦ elim (Result-Cases (hydrate_decimals w m)) [
        | Cases.bad e failed ↦ ground arith
        | Cases.good n p ↦
            rw (← ok_injective (rw (none_held, p) at h))
              (rw (literal_of-none m n p none_held, none_held, hydrate_decimals-canonical m n p))
      ]
    ]
    hydrate_value-canonical (list xs) x h = elim (Result-Cases (hydrate_items w xs)) [
      | Cases.bad e failed ↦ ground arith
      | Cases.good ys p ↦ rw (← ok_injective (rw p at h)) (rw (hydrate_items-canonical xs ys p))
    ]
    hydrate_value-canonical null x h = rw (← ok_injective h)
    hydrate_value-canonical (bool b) x h = rw (← ok_injective h)
    hydrate_value-canonical (str s) x h = rw (← ok_injective h)
    hydrate_value-canonical (signed k n) x h = rw (← ok_injective h)
    hydrate_value-canonical (unsigned k n) x h = rw (← ok_injective h)
    hydrate_value-canonical (float k f) x h = rw (← ok_injective h)
    hydrate_value-canonical (dec d) x h = rw (← ok_injective h)
    hydrate_value-canonical (instant t) x h = rw (← ok_injective h)
    hydrate_value-canonical (number s) x h = rw (← ok_injective h)
    hydrate_value-canonical (other a) x h = rw (← ok_injective h)

    hydrate_items-canonical :
        (xs ys : Items)
        → hydrate_items w xs ≡ ok ys
        → canonicalize_items w ys ≡ canonicalize_items w xs
    hydrate_items-canonical nil ys h = rw (← ok_injective h)
    hydrate_items-canonical (cons v vs) ys h = elim (Result-Cases (hydrate_value w v)) [
      | Cases.bad e failed ↦ ground arith
      | Cases.good x p ↦ elim (Result-Cases (hydrate_items w vs)) [
        | Cases.bad e failed ↦ ground arith
        | Cases.good zs q ↦ rw (← ok_injective (rw (p, q, hydrate_items) at h)) (
            rw (canonicalize_items, hydrate_value-canonical v x p, hydrate_items-canonical vs zs q))
      ]
    ]

    pub hydrate_decimals-canonical :
        (m n : Fields) → hydrate_decimals w m ≡ ok n → canonicalize_map w n ≡ canonicalize_map w m
    hydrate_decimals-canonical end n h = rw (← ok_injective h)
    hydrate_decimals-canonical (field k v m) n h = elim (Result-Cases (hydrate_value w v)) [
      | Cases.bad e failed ↦ ground arith
      | Cases.good x p ↦ elim (Result-Cases (hydrate_decimals w m)) [
        | Cases.bad e failed ↦ ground arith
        | Cases.good z q ↦
            rw (← ok_injective (rw (p, q, hydrate_decimals) at h)) (
              rw
                (canonicalize_map, hydrate_value-canonical v x p, hydrate_decimals-canonical m z q))
      ]
    ]

  pub hydrate_expr_globals-canonical :
      (stage name : Text) (ed x : ExprDef)
      → hydrate_expr_globals w stage name ed ≡ ok x
      → canonicalize_expr_def w x ≡ canonicalize_expr_def w ed
  unfolding hydrate_expr_globals canonicalize_expr_def
  hydrate_expr_globals-canonical stage name ed x h =
      elim (Result-Cases (hydrate_decimals w ed.globals)) [
        | Cases.bad e failed ↦ ground arith
        | Cases.good m p ↦
            rw (← ok_injective (rw p at h)) (rw (hydrate_decimals-canonical ed.globals m p))
      ]

  pub hydrate_optional-canonical :
      (stage name : Text) (o x : Option ExprDef)
      → hydrate_optional w stage name o ≡ ok x
      → canonicalize_expr_def_ptr w x ≡ canonicalize_expr_def_ptr w o
  hydrate_optional-canonical stage name none x h = rw (← ok_injective h)
  hydrate_optional-canonical stage name (some ed) x h =
      elim (Result-Cases (hydrate_expr_globals w stage name ed)) [
        | Cases.bad e failed ↦ ground arith
        | Cases.good d p ↦
            rw (← ok_injective (rw (p, hydrate_optional) at h))
              (ap some (hydrate_expr_globals-canonical stage name ed d p))
      ]

  pub hydrate_decisions-canonical :
      (stage prefix : Text) (m n : Dict ExprDef)
      → hydrate_decisions w stage prefix m ≡ ok n
      → canonicalize_decisions w n ≡ canonicalize_decisions w m
  unfolding hydrate_decisions canonicalize_decisions
  hydrate_decisions-canonical stage prefix [] n h = rw (← ok_injective h)
  hydrate_decisions-canonical stage prefix ((key, ed) ∷ m) n h =
      let name = prefix ++ codes "." ++ key in
      elim (Result-Cases (hydrate_expr_globals w stage name ed)) [
        | Cases.bad e failed ↦ ground arith
        | Cases.good d p ↦ elim (Result-Cases (hydrate_decisions w stage prefix m)) [
          | Cases.bad e failed ↦ ground arith
          | Cases.good z q ↦ rw (← ok_injective (rw (p, q, hydrate_decisions) at h)) (
              rw (
                canonicalize_decisions,
                hydrate_expr_globals-canonical stage name ed d p,
                hydrate_decisions-canonical stage prefix m z q,
              ))
        ]
      ]

  pub hydrate_exprs-canonical :
      (stage : Text) (i : ℕ) (es xs : List NamedExprDef)
      → hydrate_exprs w stage i es ≡ ok xs
      → canonicalize_exprs w xs ≡ canonicalize_exprs w es
  unfolding hydrate_exprs canonicalize_exprs
  hydrate_exprs-canonical stage i [] xs h = rw (← ok_injective h)
  hydrate_exprs-canonical stage i (e ∷ es) xs h =
      let name = element_name (codes "exprs") i ++ codes ".expr" in
      elim (Result-Cases (hydrate_expr_globals w stage name e.definition)) [
        | Cases.bad x failed ↦ ground arith
        | Cases.good d p ↦ elim (Result-Cases (hydrate_exprs w stage (i + 1) es)) [
          | Cases.bad x failed ↦ ground arith
          | Cases.good z q ↦ rw (← ok_injective (rw (p, q, hydrate_exprs) at h)) (
              rw (
                canonicalize_exprs,
                hydrate_expr_globals-canonical stage name e.definition d p,
                hydrate_exprs-canonical stage (i + 1) es z q,
              ))
        ]
      ]
