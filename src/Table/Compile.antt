-- ===== src/Table/Compile.antt =====
-- Compiling a decision table: `NewDecisionTable`, `compileDecisions` and `sortedKeys`.
use rlng.Base.{ℕ, ◌+◌, Option, none, some, List, [], ◌∷◌, map, if◌then◌else◌}
use rlng.Base.Text.{Text, text_lt, is_empty}
use rlng.Base.Dict.{Dict, lookup}
use rlng.Error.{
  empty_stage_name, no_rules, no_decisions, rule_condition, empty_output_key, decision, Result, ok,
  err, bind, map_err,
}
use rlng.Expr.{Config, new_function, new_predicate}
use rlng.Numeric.{CollectAggregation}
use rlng.Table.{HitPolicy, CompiledDecision, CompiledRule, DecisionTable, table_error}

pub record Decision : Type 0 where
  pub expression : Text
  pub options : Config

pub record Rule : Type 0 where
  pub id : Text
  pub message : Text
  pub condition : Text
  pub decisions : Dict Decision
  pub condition_options : Config

-- The part of `stageConfig` that a decision table reads.
pub record TableConfig : Type 0 where
  pub deps : List Text
  pub hit_policy : HitPolicy
  pub aggregation : CollectAggregation
  pub defaults : Dict Decision

unfoldable pub insert_sorted : Text → List Text → List Text
insert_sorted k [] = k ∷ []
insert_sorted k (j ∷ ks) =
    let rest = insert_sorted k ks in if text_lt j k then j ∷ rest else k ∷ j ∷ ks

-- `sort.Strings`
unfoldable pub sort_texts : List Text → List Text
unfolding insert_sorted
sort_texts [] = []
sort_texts (k ∷ ks) = insert_sorted k (sort_texts ks)

abbrev pub keys : {V : Type 0} → Dict V → List Text
keys m = map (λ e. e.0) m

unfoldable pub sorted_keys : Dict Decision → List Text
unfolding sort_texts
sorted_keys m = sort_texts (keys m)

-- A key that the map lacks does not occur among its keys.
abbrev compile_decision : Text → Option ℕ → Text → Option Decision → Result CompiledDecision
compile_decision stage place key none = err (table_error stage (empty_output_key place))
compile_decision stage place key (some d) =
    if is_empty key
    then err (table_error stage (empty_output_key place))
    else bind
        (map_err (λ e. table_error stage (decision place key e))
          (new_function key d.expression d.options))
        (λ fn. ok (record { key = key; fn = fn }))

compile_keys : Text → Option ℕ → Dict Decision → List Text → Result (List CompiledDecision)
compile_keys stage place m [] = ok []
compile_keys stage place m (k ∷ ks) =
    let rest = compile_keys stage place m ks in
    bind (compile_decision stage place k (lookup k m)) (λ d. bind rest (λ ds. ok (d ∷ ds)))

-- `compileDecisions`; `place` is the rule's number, or `none` for the default decisions.
unfoldable pub compile_decisions : Text → Option ℕ → Dict Decision → Result (List CompiledDecision)
unfolding compile_keys sorted_keys
compile_decisions stage place m = compile_keys stage place m (sorted_keys m)

abbrev compile_rule : Text → ℕ → Rule → Result CompiledRule
compile_rule stage i r = elim r.decisions [
  | [] ↦ err (table_error stage (no_decisions i))
  | d ∷ ds ↦
      bind
        (map_err (λ e. table_error stage (rule_condition i e))
          (new_predicate r.condition r.condition_options))
        (λ cond. bind (compile_decisions stage (some i) (d ∷ ds)) (λ decisions.
          ok (record { id = r.id; message = r.message; cond = cond; decisions = decisions })))
]

pub compile_rules : Text → ℕ → List Rule → Result (List CompiledRule)
compile_rules stage i [] = ok []
compile_rules stage i (r ∷ rs) =
    let rest = compile_rules stage (i + 1) rs in
    bind (compile_rule stage i r) (λ c. bind rest (λ cs. ok (c ∷ cs)))

abbrev pub compile_defaults : Text → Dict Decision → Result (List CompiledDecision)
compile_defaults stage [] = ok []
compile_defaults stage (d ∷ ds) = compile_decisions stage none (d ∷ ds)

-- `NewDecisionTable`
unfoldable pub new_decision_table : Text → List Rule → TableConfig → Result DecisionTable
unfolding compile_rules
new_decision_table [] rules cfg = err (table_error [] empty_stage_name)
new_decision_table (c ∷ name) [] cfg = err (table_error (c ∷ name) no_rules)
new_decision_table (c ∷ name) (r ∷ rules) cfg =
    bind (compile_rules (c ∷ name) 0 (r ∷ rules)) (λ compiled.
      bind (compile_defaults (c ∷ name) cfg.defaults) (λ defaults. ok (record {
        name = c ∷ name;
        deps = cfg.deps;
        hit_policy = cfg.hit_policy;
        aggregation = cfg.aggregation;
        rules = compiled;
        defaults = defaults;
      })))
