-- ===== src/Table/Agree.antt =====
-- The `any` policy: what the matching rules are required to agree on.
use rlng.Base.{
  ◌≡◌, refl, ◌⊎◌, inl, inr, true, some, List, [], ◌∷◌, All, All-map, arith, Bool-cases,
  Option-cases,
}
use rlng.Base.Text.{Text, text_eq_iff}
use rlng.Base.Dict.{Dict, lookup, lookup-insert, lookup-insert_self}
use rlng.Value.{Value, Fields, Arith}
use rlng.Error.{ok, Cases, Result-Cases, ok_injective}
use rlng.Expr.{apply}
use rlng.Numeric.{values_agree}
use rlng.Table.{CompiledDecision, CompiledRule, agree_value, agree_decisions, agree_rules}

module _ (ops : Arith) (name : Text) where
  -- Nothing that was agreed on changes.
  abbrev Extends : Dict Value → Dict Value → Type 0
  Extends a b = (k : Text) (w : Value) → lookup k a ≡ some w → lookup k b ≡ some w

  -- The value agrees with the agreed one at its key: it is that value, or values_agree holds.
  abbrev AgreesAt : Dict Value → Text → Value → Type 0
  AgreesAt agreed key v =
      (w : Value) × (lookup key agreed ≡ some w) × ((v ≡ w) ⊎ (values_agree ops w v ≡ true))

  agree_value_lem :
      (agreed b : Dict Value) (key : Text) (v : Value)
      → agree_value ops name agreed key v ≡ ok b
      → Extends agreed b × AgreesAt b key v
  agree_value_lem agreed b key v e = elim (Option-cases (lookup key agreed)) [
    | inl fresh ↦
        let same = ok_injective (rw (fresh, agree_value) at e) in
        rw (← same) (
          λ k w old. rw lookup-insert (ground (arith, text_eq_iff key k, old, fresh)),
          (v, lookup-insert_self key v agreed, inl refl),
        )
    | inr (prev, seen) ↦ elim (Bool-cases (values_agree ops prev v)) [
      | inl same_value ↦
          let same = ok_injective (rw (seen, same_value, agree_value) at e) in
          rw (← same) (λ k w old. old, (prev, seen, inr same_value))
      | inr differs ↦ ground arith
    ]
  ]

module _ (ops : Arith) (name : Text) (env : Fields) where
  -- The decision evaluates, and its value agrees with the agreed one.
  abbrev pub Agrees : Dict Value → CompiledDecision → Type 0
  Agrees agreed dec =
      (v : Value) × (w : Value) × (apply dec.fn env ≡ ok v)
      × (lookup dec.key agreed ≡ some w)
      × ((v ≡ w) ⊎ (values_agree ops w v ≡ true))

  Agrees-Extends :
      (a b : Dict Value) (dec : CompiledDecision)
      → Extends ops name a b
      → Agrees a dec
      → Agrees b dec
  Agrees-Extends a b dec x (v, w, e, l, h) = (v, w, e, x dec.key w l, h)

  agree_decisions_lem :
      (decs : List CompiledDecision) (agreed : Dict Value) {b : Dict Value}
      → agree_decisions ops name env decs agreed ≡ ok b
      → Extends ops name agreed b × All (Agrees b) decs
  unfolding agree_decisions
  agree_decisions_lem [] agreed e = rw (← ok_injective e) (λ k w l. l, tt)
  agree_decisions_lem (dec ∷ decs) agreed {b} e = elim (Result-Cases (apply dec.fn env)) [
    | Cases.bad x failed ↦ ground arith
    | Cases.good v done ↦ elim (Result-Cases (agree_value ops name agreed dec.key v)) [
      | Cases.bad x clash ↦ ground arith
      | Cases.good a step ↦
          let (x, (w, l, h)) = agree_value_lem ops name agreed a dec.key v step in
          let (y, all) = agree_decisions_lem decs a (rw (done, step, agree_decisions) at e) in
          (λ k u m. y k u (x k u m), ((v, w, done, y dec.key w l, h), all))
    ]
  ]

  agree_rules_from :
      (rules : List CompiledRule) (agreed : Dict Value) {b : Dict Value}
      → agree_rules ops name env rules agreed ≡ ok b
      → Extends ops name agreed b × All (λ r. All (Agrees b) r.decisions) rules
  unfolding agree_rules
  agree_rules_from [] agreed e = rw (← ok_injective e) (λ k w l. l, tt)
  agree_rules_from (r ∷ rs) agreed {b} e =
      elim (Result-Cases (agree_decisions ops name env r.decisions agreed)) [
        | Cases.bad x failed ↦ ground arith
        | Cases.good a step ↦
            let (x, here) = agree_decisions_lem r.decisions agreed step in
            let (y, all) = agree_rules_from rs a (rw (step, agree_rules) at e) in
            (
              λ k w l. y k w (x k w l),
              (All-map (Agrees a) (Agrees b) r.decisions (λ d. Agrees-Extends a b d y) here, all),
            )
      ]

  -- Where the `any` policy finds agreement, every decision of every matching rule evaluates, and
  -- its value is the agreed one at its key or agrees with it.
  pub agree_rules_sound :
      (rules : List CompiledRule) (agreed : Dict Value)
      → agree_rules ops name env rules [] ≡ ok agreed
      → All (λ r. All (Agrees agreed) r.decisions) rules
  agree_rules_sound rules agreed e = (agree_rules_from rules [] e).1
