-- ===== src/Table/Collect.antt =====
-- The `collect` policy: the rules that fire, and the buckets that are reduced.
use rlng.Base.{
  ◌≡◌, refl, Bool, true, false, List, [], ◌∷◌, ◌++◌, arith, append_assoc, append-nil, ◌∙◌,
}
use rlng.Base.Text.{Text}
use rlng.Base.Dict.{Dict}
use rlng.Value.{Fields, Arith}
use rlng.Error.{ok, Cases, Result-Cases}
use rlng.Expr.{test}
use rlng.Table.{CompiledRule, matches}
use rlng.Table.Execute.{Bucket, collect_decisions, collect_rules}

module _ (ops : Arith) (name : Text) (tracking : Bool) (env : Fields) where
  collect_rules-fired_from :
      (rules fired0 : List CompiledRule) (collected0 : Dict Bucket) {collected : Dict Bucket}
      {fired : List CompiledRule}
      → collect_rules ops name tracking env rules collected0 fired0 ≡ ok (collected, fired)
      → (ms : List CompiledRule) × (matches ops env rules ≡ ok ms) × (fired ≡ fired0 ++ ms)
  unfolding collect_rules matches
  collect_rules-fired_from [] fired0 collected0 e = ([], refl, ground (arith, append-nil fired0))
  collect_rules-fired_from (r ∷ rs) fired0 collected0 e =
      elim (Result-Cases (test ops r.cond env)) [
        | Cases.bad x failed ↦ ground arith
        | Cases.good true hit ↦
            elim (Result-Cases (collect_decisions name tracking env r.decisions collected0)) [
              | Cases.bad x failed ↦ ground arith
              | Cases.good c gathered ↦
                  let (ms, m, f) =
                    collect_rules-fired_from rs (fired0 ++ r ∷ []) c
                      (rw (hit, gathered, collect_rules) at e) in
                  (r ∷ ms, rw (hit, m), f ∙ append_assoc fired0 (r ∷ []) ms)
            ]
        | Cases.good false miss ↦
            let (ms, m, f) =
              collect_rules-fired_from rs fired0 collected0 (rw (miss, collect_rules) at e) in
            (ms, rw (miss, m), f)
      ]

  -- Where the gathering of the `collect` policy succeeds, the rules that it reports as fired are
  -- those that `matches` returns, in the same order.
  pub collect_rules-eq-matches :
      (rules : List CompiledRule) {collected : Dict Bucket} {fired : List CompiledRule}
      → collect_rules ops name tracking env rules [] [] ≡ ok (collected, fired)
      → matches ops env rules ≡ ok fired
  collect_rules-eq-matches rules e =
      let (ms, m, f) = collect_rules-fired_from rules [] [] e in rw f m
