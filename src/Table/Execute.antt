-- ===== src/Table/Execute.antt =====
-- Executing a decision table against a Scope.
use rlng.Base.{Bool, true, false, Option, none, some, List, [], ◌∷◌, ◌++◌, length, ⊤, if◌then◌else◌}
use rlng.Base.Text.{Text, codes}
use rlng.Base.Dict.{Dict, lookup, insert}
use rlng.Value.{Value, null, Fields, end, field, Arith}
use rlng.Value.Access.{insert_field}
use rlng.Error.{cancelled, multiple_matches, decision_table, Result, ok, bind, map_err}
use rlng.Expr.{apply, test}
use rlng.Numeric.{
  CollectAggregation, aggregate_list, aggregate_sum, aggregate_min, aggregate_max, aggregate_count,
  aggregate,
}
use rlng.Scope.{Derivation, stage_type, snapshot, observe}
use rlng.Scope.Path.{qualify}
use rlng.Scope.Action.{
  Action, pure, throw, lift, gets, modify, wrap_err, ◌>>=◌, ◌>>◌, derive_or_set, record_firing,
  record_firings,
}
use rlng.Table.{
  HitPolicy, policy_single, policy_collect, policy_unique, policy_any, CompiledDecision,
  CompiledRule, DecisionTable, table_error, snapshot_refs, matches, agree_rules, firings_of,
}

abbrev derivation : Text → Text → Text → Fields → Derivation
derivation stage operation expression inputs = record {
  path = [];
  stage = stage;
  origin = stage_type decision_table;
  operation = operation;
  expression = expression;
  inputs = inputs;
  value = null;
}

-- `writeDecision`, with the environment as it is when the derivation is built.
unfoldable pub write_decision : Text → Fields → CompiledDecision → Value → Text → Action ⊤
write_decision name env dec v op =
    derive_or_set (qualify name dec.key) v
      (derivation name op dec.fn.expression (snapshot_refs env dec.fn.refs))

-- The loop of `applyRule` and `applyDefaults`: each expression sees the environment as the writes
-- before it left it. A value that is a live map of the Scope is copied where the source stores a
-- reference to it, so a later decision below its key changes it at the new place only.
unfoldable pub apply_decisions : Text → Text → Fields → List CompiledDecision → Action ⊤
apply_decisions name label env [] = pure tt
apply_decisions name label env (dec ∷ decs) = do
  now ← gets (λ s. observe s env)
  v ← lift (map_err (table_error name) (apply dec.fn now))
  wrap_err (table_error name) (write_decision name now dec v (label ++ dec.key))
  apply_decisions name label env decs

unfoldable pub apply_rule : DecisionTable → Fields → CompiledRule → Action ⊤
apply_rule d env r = do
  modify (record_firing d.name r.id r.message false)
  apply_decisions d.name (codes "decision:") env r.decisions

unfoldable pub apply_defaults : DecisionTable → Fields → Action ⊤
apply_defaults d env = elim d.defaults [
  | [] ↦ pure tt
  | dec ∷ decs ↦ do
    modify (record_firing d.name [] [] true)
    apply_decisions d.name (codes "default:") env (dec ∷ decs)
]

-- `writeAgg`, for each agreed key.
unfoldable pub write_agreed : Text → Dict Value → Action ⊤
write_agreed name [] = pure tt
write_agreed name ((key, v) ∷ agreed) = do
  wrap_err (table_error name)
      (derive_or_set (qualify name key) v (derivation name (codes "any:" ++ key) [] end))
  write_agreed name agreed

-- What `executeCollect` gathers under one key; the last two only where provenance is tracked.
pub record Bucket : Type 0 where
  pub values : List Value
  pub exprs : List Text
  pub inputs : Fields

abbrev empty_bucket : Bucket
empty_bucket = record { values = []; exprs = []; inputs = end }

abbrev pub bucket_at : Option Bucket → Bucket
bucket_at none = empty_bucket
bucket_at (some b) = b

abbrev union_fields : Fields → Fields → Fields
union_fields m end = m
union_fields m (field k v n) = union_fields (insert_field k v m) n

abbrev pub extend_bucket : Bool → Fields → CompiledDecision → Value → Bucket → Bucket
extend_bucket tracking env dec v b =
    let values' = b.values ++ (v ∷ []) in
    if tracking
    then record {
      values = values';
      exprs = b.exprs ++ (dec.fn.expression ∷ []);
      inputs = union_fields b.inputs (snapshot_refs env dec.fn.refs);
    }
    else record b { values = values' }

unfoldable pub collect_decisions :
    Text → Bool → Fields → List CompiledDecision → Dict Bucket → Result (Dict Bucket)
collect_decisions name tracking env [] collected = ok collected
collect_decisions name tracking env (dec ∷ decs) collected =
    bind (map_err (table_error name) (apply dec.fn env)) (λ v.
      collect_decisions name tracking env decs (
        insert dec.key (extend_bucket tracking env dec v (bucket_at (lookup dec.key collected)))
          collected))

-- `aggLabel`
abbrev agg_label : CollectAggregation → Option Text
agg_label aggregate_sum = some (codes "sum")
agg_label aggregate_min = some (codes "min")
agg_label aggregate_max = some (codes "max")
agg_label aggregate_count = some (codes "count")
agg_label aggregate_list = none

abbrev collect_op : CollectAggregation → Text → Text
collect_op agg key = elim (agg_label agg) [
  | none ↦ codes "collect:" ++ key
  | some label ↦ codes "collect:" ++ label ++ codes ":" ++ key
]

-- `strings.Join(exprs, "; ")`
abbrev join_exprs : List Text → Text
join_exprs [] = []
join_exprs (e ∷ []) = e
join_exprs (e ∷ f ∷ es) = e ++ codes "; " ++ join_exprs (f ∷ es)

module _ (ops : Arith) where
  -- The loop of `executeCollect` over the rules: the buckets and the rules that matched.
  unfoldable pub collect_rules :
      Text
      → Bool
      → Fields
      → List CompiledRule
      → Dict Bucket
      → List CompiledRule
      → Result (Dict Bucket × List CompiledRule)
  collect_rules name tracking env [] collected fired = ok (collected, fired)
  collect_rules name tracking env (r ∷ rs) collected fired =
      bind (map_err (table_error name) (test ops r.cond env)) (λ hit.
        bind
          (if hit then collect_decisions name tracking env r.decisions collected else ok collected)
          (λ collected'.
            collect_rules name tracking env rs collected'
              (if hit then fired ++ (r ∷ []) else fired)))

  -- The last loop of `executeCollect`, with `writeCollected`.
  unfoldable pub write_collected : Text → CollectAggregation → Dict Bucket → Action ⊤
  write_collected name agg [] = pure tt
  write_collected name agg ((key, b) ∷ collected) = do
    reduced ← lift (map_err (table_error name) (aggregate ops agg b.values))
    wrap_err (table_error name) (
        derive_or_set (qualify name key) reduced
          (derivation name (collect_op agg key) (join_exprs b.exprs) b.inputs))
    write_collected name agg collected

  abbrev pub finish_collect : DecisionTable → Fields → Dict Bucket × List CompiledRule → Action ⊤
  finish_collect d env (collected, []) = apply_defaults d env
  finish_collect d env (collected, r ∷ fired) = do
    modify (record_firings d.name (firings_of d.name (r ∷ fired)))
    write_collected d.name d.aggregation collected

  unfoldable pub execute_collect : DecisionTable → Fields → Action ⊤
  execute_collect d env = do
    tracking ← gets (λ s. s.provenance)
    gathered ← lift (collect_rules d.name tracking env d.rules [] [])
    finish_collect d env gathered

  -- The loop of `executeSingle`, over the rules left.
  unfoldable pub single_from : DecisionTable → Fields → List CompiledRule → Action ⊤
  single_from d env [] = apply_defaults d env
  single_from d env (r ∷ rs) =
      let rest = single_from d env rs in
      do
        hit ← lift (map_err (table_error d.name) (test ops r.cond env))
        if hit then apply_rule d env r else rest

  unfoldable pub execute_single : DecisionTable → Fields → Action ⊤
  execute_single d env = single_from d env d.rules

  abbrev pub finish_unique : DecisionTable → Fields → List CompiledRule → Action ⊤
  finish_unique d env [] = apply_defaults d env
  finish_unique d env (r ∷ []) = apply_rule d env r
  finish_unique d env (r ∷ q ∷ rs) =
      throw (table_error d.name (multiple_matches (length (r ∷ q ∷ rs))))

  unfoldable pub execute_unique : DecisionTable → Fields → Action ⊤
  execute_unique d env = do
    matched ← lift (map_err (table_error d.name) (matches ops env d.rules))
    finish_unique d env matched

  abbrev pub finish_any : DecisionTable → Fields → List CompiledRule → Action ⊤
  finish_any d env [] = apply_defaults d env
  finish_any d env (r ∷ rs) = do
    agreed ← lift (agree_rules ops d.name env (r ∷ rs) [])
    modify (record_firings d.name (firings_of d.name (r ∷ rs)))
    write_agreed d.name agreed

  unfoldable pub execute_any : DecisionTable → Fields → Action ⊤
  execute_any d env = do
    matched ← lift (map_err (table_error d.name) (matches ops env d.rules))
    finish_any d env matched

  abbrev pub by_policy : HitPolicy → DecisionTable → Fields → Action ⊤
  by_policy policy_collect = execute_collect
  by_policy policy_unique = execute_unique
  by_policy policy_any = execute_any
  by_policy policy_single = execute_single

  -- `Execute`; `done` says whether the context is cancelled when it is asked.
  unfoldable pub execute_table : DecisionTable → Bool → Action ⊤
  execute_table d done =
      if done
      then throw (table_error d.name cancelled)
      else do env ← gets snapshot; by_policy d.hit_policy d env
