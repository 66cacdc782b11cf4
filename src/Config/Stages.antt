-- ===== src/Config/Stages.antt =====
-- config/build.go: the stages of a definition, each by the constructor of its type.
use rlng.Base.{Bool, true, false, Option, none, some, List, [], ◌∷◌, if◌then◌else◌}
use rlng.Base.Text.{codes, text_eq}
use rlng.Base.Dict.{Dict}
use rlng.Value.{Arith}
use rlng.Error.{
  Error, config_error, missing_part, unknown_stage_type, Result, ok, err, bind, map_err,
}
use rlng.Expr.{new_function, new_predicate, Config}
use rlng.Expr.Options.{Compiler, function_config, predicate_config}
use rlng.Stage.{Stage, table_stage}
use rlng.Single.{SingleConfig, new_single_expr, single_stage}
use rlng.Multi.{NamedExpr, new_multi_expr, multi_stage}
use rlng.Table.Compile.{Decision, Rule, new_decision_table}
use rlng.Foreach.{new_for_each, for_each_stage}
use rlng.Pipeline.Build.{new_pipeline}
use rlng.Config.{
  ExprDef, NamedExprDef, RuleDef, StageFields, StageDef, StageDefs, stage_def, no_more, stage_then,
  options,
}
use rlng.Config.Setup.{
  parse_aggregation, parse_hit_policy, parse_rollups, Setup, expr_env_opts, text_or_none,
  cond_options, cond_text, has_inner, for_each_options,
}

module _ (ops : Arith) (compiler : Compiler) (schedule : List Stage → List Stage) where
  abbrev value_opts : Setup → ExprDef → Config
  value_opts u ed = function_config compiler (expr_env_opts u (options ed))

  abbrev cond_opts : Setup → Option ExprDef → Config
  cond_opts u cond = predicate_config compiler (expr_env_opts u (cond_options cond))

  abbrev pub single_setup : Setup → StageFields → ExprDef → SingleConfig
  single_setup u d ed = record {
    deps = d.depends_on;
    output = text_or_none d.output;
    condition = cond_text d.condition;
    cond_opts = cond_opts u d.condition;
    expr_opts = value_opts u ed;
  }

  abbrev blame_condition : Setup → StageFields → Error → Error
  blame_condition u d e = elim d.condition [
    | none ↦ config_error [] [] e
    | some cond ↦ elim (new_predicate cond.expression (cond_opts u d.condition)) [
      | err _ ↦ config_error d.name (codes "condition") e
      | ok _ ↦ config_error [] [] e
    ]
  ]

  -- The field that an error of NewSingleExpr is attributed to.
  unfoldable pub blame : Setup → StageFields → ExprDef → Error → Error
  blame u d ed e = elim (new_function d.name ed.expression (value_opts u ed)) [
    | err _ ↦ config_error d.name (codes "expr") e
    | ok _ ↦ blame_condition u d e
  ]

  -- `buildSingle`
  unfoldable pub build_single : Setup → StageFields → Option ExprDef → Result Stage
  build_single u d none = err (config_error d.name (codes "expr") (missing_part (codes "expr")))
  build_single u d (some ed) =
      bind (map_err (blame u d ed) (new_single_expr d.name ed.expression (single_setup u d ed)))
        (λ s. ok (single_stage ops s))

  unfoldable pub named_exprs : Setup → List NamedExprDef → List NamedExpr
  named_exprs u [] = []
  named_exprs u (e ∷ es) =
      record {
        name = e.name;
        expression = e.definition.expression;
        priority = e.priority;
        options = value_opts u e.definition;
      }
      ∷ named_exprs u es

  -- `buildMulti`
  unfoldable pub build_multi : Setup → StageFields → List NamedExprDef → Result Stage
  build_multi u d [] = err (config_error d.name (codes "exprs") (missing_part (codes "exprs")))
  build_multi u d (e ∷ es) =
      bind
        (map_err (config_error [] []) (new_multi_expr d.name (named_exprs u (e ∷ es)) d.depends_on))
        (λ s. ok (multi_stage s))

  -- `decisionsFrom`
  unfoldable pub decisions_from : Setup → Dict ExprDef → Dict Decision
  decisions_from u [] = []
  decisions_from u ((key, ed) ∷ m) =
      (key, record { expression = ed.expression; options = value_opts u ed }) ∷ decisions_from u m

  unfoldable pub rules_from : Setup → List RuleDef → List Rule
  rules_from u [] = []
  rules_from u (r ∷ rs) =
      record {
        id = r.id;
        message = r.message;
        condition = r.condition.expression;
        decisions = decisions_from u r.decisions;
        condition_options = cond_opts u (some r.condition);
      }
      ∷ rules_from u rs

  -- `buildTable`
  unfoldable pub build_table : Setup → StageFields → List RuleDef → Result Stage
  build_table u d [] = err (config_error d.name (codes "rules") (missing_part (codes "rules")))
  build_table u d (r ∷ rs) =
      bind (map_err (config_error d.name (codes "hit_policy")) (parse_hit_policy d.hit_policy))
        (λ hp.
          bind
            (map_err (config_error d.name (codes "aggregation")) (parse_aggregation d.aggregation))
            (λ agg.
              bind
                (map_err (config_error [] []) (
                  new_decision_table d.name (rules_from u (r ∷ rs)) (record {
                    deps = d.depends_on;
                    hit_policy = hp;
                    aggregation = agg;
                    defaults = decisions_from u d.default;
                  })))
                (λ t. ok (table_stage ops t))))

  -- `buildForEach`, from the result of the loop over the inner stages.
  unfoldable pub build_for_each : StageFields → Bool → Result (List Stage) → Result Stage
  build_for_each d false inner =
      err (config_error d.name (codes "stages") (missing_part (codes "stages")))
  build_for_each d true inner = bind inner (λ stages.
      bind (map_err (config_error d.name []) (new_pipeline stages [])) (λ p.
        bind (parse_rollups d.name d.rollups) (λ rollups.
          bind
            (map_err (config_error [] [])
              (new_for_each d.name d.collection p (for_each_options d rollups)))
            (λ f. ok (for_each_stage ops schedule f)))))

  unfoldable mutual
    -- `StageDef.build`
    pub build_stage : Setup → StageDef → Result Stage
    build_stage u (stage_def d inner) =
        let nested = build_stages u inner in
        if text_eq d.kind (codes "single-expr")
        then build_single u d d.value
        else if text_eq d.kind (codes "multi-expr")
        then build_multi u d d.exprs
        else if text_eq d.kind (codes "decision-table")
        then build_table u d d.rules
        else if text_eq d.kind (codes "foreach")
        then build_for_each d (has_inner inner) nested
        else err (config_error d.name (codes "type") (unknown_stage_type d.kind))

    -- The loop over the stages, in list order.
    pub build_stages : Setup → StageDefs → Result (List Stage)
    build_stages u no_more = ok []
    build_stages u (stage_then sd sds) =
        bind (build_stage u sd) (λ s. bind (build_stages u sds) (λ ss. ok (s ∷ ss)))
