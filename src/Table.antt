-- ===== src/Table.antt =====
-- pipe/table.go: a decision table and its four hit policies. A map of decisions is compiled in
-- sorted key order, so a compiled rule holds a list. Errors carry the stage that they are wrapped
-- with.
pub mod Compile
pub mod Execute
pub mod Match
pub mod Frame
pub mod Agree
pub mod Collect
pub mod Buckets
use rlng.Base.{Bool, true, false, Option, none, some, List, [], ◌∷◌, ⊤, if◌then◌else◌, ◌&&◌}
use rlng.Base.Text.{Text, codes}
use rlng.Base.Dict.{Dict, lookup, insert}
use rlng.Value.{Value, null, Fields, end, Arith}
use rlng.Value.Access.{insert_field}
use rlng.Error.{
  Error, stage_error, decision_table, conflicting_matches, Result, ok, err, bind, map_err,
}
use rlng.Expr.{Function, Predicate, apply, test}
use rlng.Numeric.{CollectAggregation, values_agree}
use rlng.Scope.{Derivation, stage_type, FiringRule}
use rlng.Scope.Path.{lookup_path}

pub data HitPolicy : Type 0 where
  policy_single policy_collect policy_unique policy_any : HitPolicy

pub record CompiledDecision : Type 0 where
  pub key : Text
  pub fn : Function

pub record CompiledRule : Type 0 where
  pub id : Text
  pub message : Text
  pub cond : Predicate
  pub decisions : List CompiledDecision

pub record DecisionTable : Type 0 where
  pub name : Text
  pub deps : List Text
  pub hit_policy : HitPolicy
  pub aggregation : CollectAggregation
  pub rules : List CompiledRule
  pub defaults : List CompiledDecision

-- `stageErr`
abbrev pub table_error : Text → Error → Error
table_error name = stage_error name decision_table

abbrev record_ref : Fields → Text → Option Value → Fields
record_ref out r none = out
record_ref out r (some v) = insert_field r v out

abbrev snapshot_refs_from : Fields → Fields → List Text → Fields
snapshot_refs_from out env [] = out
snapshot_refs_from out env (r ∷ refs) =
    snapshot_refs_from (record_ref out r (lookup_path env r)) env refs

-- `snapshotRefs` of pipe/provenance.go; a nil map and an empty one are not told apart.
unfoldable pub snapshot_refs : Fields → List Text → Fields
snapshot_refs env refs = snapshot_refs_from end env refs

abbrev keep_if : CompiledRule → Bool → List CompiledRule → List CompiledRule
keep_if r true rs = r ∷ rs
keep_if r false rs = rs

module _ (ops : Arith) where
  -- `matches`: the matching rules, in rule order.
  unfoldable pub matches : Fields → List CompiledRule → Result (List CompiledRule)
  matches env [] = ok []
  matches env (r ∷ rs) =
      let rest = matches env rs in
      bind (test ops r.cond env) (λ hit. bind rest (λ later. ok (keep_if r hit later)))

  -- `agreed` of `executeAny`: in the order in which the keys were first seen.
  abbrev pub agree_value : Text → Dict Value → Text → Value → Result (Dict Value)
  agree_value name agreed key v = elim (lookup key agreed) [
    | none ↦ ok (insert key v agreed)
    | some prev ↦
        if values_agree ops prev v
        then ok agreed
        else err (table_error name (conflicting_matches key prev v))
  ]

  -- The inner loop of `executeAny`, over the decisions of one rule.
  unfoldable pub agree_decisions :
      Text → Fields → List CompiledDecision → Dict Value → Result (Dict Value)
  agree_decisions name env [] agreed = ok agreed
  agree_decisions name env (dec ∷ decs) agreed =
      bind (map_err (table_error name) (apply dec.fn env))
        (λ v. bind (agree_value name agreed dec.key v) (agree_decisions name env decs))

  unfoldable pub agree_rules : Text → Fields → List CompiledRule → Dict Value → Result (Dict Value)
  agree_rules name env [] agreed = ok agreed
  agree_rules name env (r ∷ rs) agreed =
      bind (agree_decisions name env r.decisions agreed) (agree_rules name env rs)

unfoldable pub firings_of : Text → List CompiledRule → List FiringRule
firings_of name [] = []
firings_of name (r ∷ rs) =
    record { stage = name; rule_id = r.id; message = r.message; is_default = false }
    ∷ firings_of name rs
