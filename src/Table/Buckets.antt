-- ===== src/Table/Buckets.antt =====
-- The `collect` policy: what is gathered under each key.
use rlng.Base.{
  ◌≡◌, refl, sym, ap, ◌∙◌, Bool, true, false, List, [], ◌∷◌, ◌++◌, arith, append_assoc, append-nil,
  if◌then◌else◌, Bool-cases, inl, inr,
}
use rlng.Base.Text.{Text, text_eq, text_eq_iff}
use rlng.Base.Dict.{Dict, lookup, insert, lookup-insert}
use rlng.Value.{Value, Fields, Arith}
use rlng.Error.{Result, ok, err, Cases, Result-Cases, ok_injective}
use rlng.Expr.{test, apply}
use rlng.Table.{CompiledRule, CompiledDecision}
use rlng.Table.Execute.{Bucket, bucket_at, extend_bucket, collect_decisions, collect_rules}

-- The values of a bucket, none where there is no bucket.
abbrev pub values_in : Text → Dict Bucket → List Value
values_in key collected = (bucket_at (lookup key collected)).values

extend_bucket-values :
    (tracking : Bool) (env : Fields) (dec : CompiledDecision) (v : Value) (b : Bucket)
    → (extend_bucket tracking env dec v b).values ≡ b.values ++ (v ∷ [])
extend_bucket-values true env dec v b = refl
extend_bucket-values false env dec v b = refl

abbrev value_list : Result Value → List Value
value_list (ok v) = v ∷ []
value_list (err e) = []

module _ (env : Fields) where
  -- What the decisions at the key evaluate to, in their order.
  abbrev pub decided : Text → List CompiledDecision → List Value
  decided key [] = []
  decided key (dec ∷ decs) =
      (if text_eq dec.key key then value_list (apply dec.fn env) else []) ++ decided key decs

  -- What the decisions of the rules at the key evaluate to, rule after rule.
  abbrev pub decided_by : Text → List CompiledRule → List Value
  decided_by key [] = []
  decided_by key (r ∷ rs) = decided key r.decisions ++ decided_by key rs

module _ (name : Text) (tracking : Bool) (env : Fields) (key : Text) where
  values_in-insert :
      (dec : CompiledDecision) (v : Value) (c : Dict Bucket)
      → values_in key
          (insert dec.key (extend_bucket tracking env dec v (bucket_at (lookup dec.key c))) c)
        ≡ values_in key c ++ (if text_eq dec.key key then v ∷ [] else [])
  values_in-insert dec v c =
      let b = extend_bucket tracking env dec v (bucket_at (lookup dec.key c)) in
      let found = lookup-insert dec.key key b c in
      elim (Bool-cases (text_eq dec.key key)) [
        | inl same ↦ rw same (
            ap (λ o. (bucket_at o).values) (rw same at found)
            ∙ extend_bucket-values tracking env dec v (bucket_at (lookup dec.key c))
            ∙ ap (λ k. values_in k c ++ (v ∷ [])) ((text_eq_iff dec.key key).0 same))
        | inr other ↦ rw other (
            ap (λ o. (bucket_at o).values) (rw other at found) ∙ sym (append-nil (values_in key c)))
      ]

  collect_decisions-values :
      (decs : List CompiledDecision) (c : Dict Bucket) {c' : Dict Bucket}
      → collect_decisions name tracking env decs c ≡ ok c'
      → values_in key c' ≡ values_in key c ++ decided env key decs
  unfolding collect_decisions
  collect_decisions-values [] c e = rw (← ok_injective e) (sym (append-nil (values_in key c)))
  collect_decisions-values (dec ∷ decs) c e = elim (Result-Cases (apply dec.fn env)) [
    | Cases.bad x failed ↦ ground arith
    | Cases.good v done ↦ rw done (
        collect_decisions-values decs _ (rw (done, collect_decisions) at e)
        ∙ ap (λ l. l ++ decided env key decs) (values_in-insert dec v c)
        ∙ append_assoc (values_in key c) (if text_eq dec.key key then v ∷ [] else [])
            (decided env key decs))
  ]

  module _ (ops : Arith) where
    collect_rules-values_from :
        (rules fired0 : List CompiledRule) (c0 : Dict Bucket) {c : Dict Bucket}
        {fired : List CompiledRule}
        → collect_rules ops name tracking env rules c0 fired0 ≡ ok (c, fired)
        → (ms : List CompiledRule) × (fired ≡ fired0 ++ ms)
          × (values_in key c ≡ values_in key c0 ++ decided_by env key ms)
    unfolding collect_rules
    collect_rules-values_from [] fired0 c0 e =
        let same = ok_injective e in
        (
          [],
          ap (λ p. p.1) (sym same) ∙ sym (append-nil fired0),
          ap (λ p. values_in key p.0) (sym same) ∙ sym (append-nil (values_in key c0)),
        )
    collect_rules-values_from (r ∷ rs) fired0 c0 e = elim (Result-Cases (test ops r.cond env)) [
      | Cases.bad x failed ↦ ground arith
      | Cases.good true hit ↦
          elim (Result-Cases (collect_decisions name tracking env r.decisions c0)) [
            | Cases.bad x failed ↦ ground arith
            | Cases.good c1 gathered ↦
                let (ms, f, v) =
                  collect_rules-values_from rs (fired0 ++ r ∷ []) c1
                    (rw (hit, gathered, collect_rules) at e) in
                (
                  r ∷ ms,
                  f ∙ append_assoc fired0 (r ∷ []) ms,
                  v
                      ∙ ap (λ l. l ++ decided_by env key ms)
                          (collect_decisions-values r.decisions c0 gathered)
                      ∙ append_assoc (values_in key c0) (decided env key r.decisions)
                          (decided_by env key ms),
                )
          ]
      | Cases.good false miss ↦
          collect_rules-values_from rs fired0 c0 (rw (miss, collect_rules) at e)
    ]

    -- Where the gathering of the collect policy succeeds, the values it holds under a key are those
    -- that the decisions at that key of the rules reported as fired evaluate to, rule after rule and
    -- in the order of each rule's decisions.
    pub collect_rules-values :
        (rules : List CompiledRule) {collected : Dict Bucket} {fired : List CompiledRule}
        → collect_rules ops name tracking env rules [] [] ≡ ok (collected, fired)
        → values_in key collected ≡ decided_by env key fired
    unfolding lookup
    collect_rules-values rules {collected} {fired} e =
        let (ms, f, v) = collect_rules-values_from rules [] [] e in
        v ∙ ap (decided_by env key) (sym f)
