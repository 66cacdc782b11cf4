-- ===== src/Config/Setup.antt =====
-- config/build.go: what the stages of a definition are built with, and the names of policies.
use rlng.Base.{
  Bool, true, false, ◌&&◌, ◌||◌, Option, none, some, List, [], ◌∷◌, ◌++◌, if◌then◌else◌,
}
use rlng.Base.Text.{Text, codes, text_eq, is_empty}
use rlng.Value.{Fields}
use rlng.Error.{
  config_error, unknown_hit_policy, unknown_aggregation, Result, ok, err, bind, map_err,
}
use rlng.Expr.Options.{ExprOption, with_globals, with_env}
use rlng.Numeric.{
  CollectAggregation, aggregate_list, aggregate_sum, aggregate_min, aggregate_max, aggregate_count,
}
use rlng.Table.{HitPolicy, policy_single, policy_collect, policy_unique, policy_any}
use rlng.Foreach.{
  Rollup, ForEachOption, with_rollups, with_for_each_depends_on, with_for_each_as,
  with_for_each_output,
}
use rlng.Config.{ExprDef, RollupDef, StageFields, StageDefs, no_more, stage_then, has_any, options}

-- `parseAggregation`
unfoldable pub parse_aggregation : Text → Result CollectAggregation
parse_aggregation s =
    if is_empty s || text_eq s (codes "list")
    then ok aggregate_list
    else if text_eq s (codes "sum")
    then ok aggregate_sum
    else if text_eq s (codes "min")
    then ok aggregate_min
    else if text_eq s (codes "max")
    then ok aggregate_max
    else if text_eq s (codes "count")
    then ok aggregate_count
    else err (unknown_aggregation s)

-- `parseHitPolicy`
unfoldable pub parse_hit_policy : Text → Result HitPolicy
parse_hit_policy s =
    if is_empty s || text_eq s (codes "single")
    then ok policy_single
    else if text_eq s (codes "collect")
    then ok policy_collect
    else if text_eq s (codes "unique")
    then ok policy_unique
    else if text_eq s (codes "any")
    then ok policy_any
    else err (unknown_hit_policy s)

-- What every stage of a definition is built with.
pub record Setup : Type 0 where
  pub constants : Fields
  pub schema : Fields
  pub strict : Bool

-- `withConstants`
abbrev pub with_constants : Fields → List ExprOption → List ExprOption
with_constants constants opts = if has_any constants then with_globals constants ∷ opts else opts

-- `withStrictEnv`
abbrev pub with_strict_env : Bool → Fields → List ExprOption → List ExprOption
with_strict_env strict schema opts =
    if strict && has_any schema then opts ++ with_env schema ∷ [] else opts

-- `exprEnvOpts`
unfoldable pub expr_env_opts : Setup → List ExprOption → List ExprOption
expr_env_opts u opts = with_strict_env u.strict u.schema (with_constants u.constants opts)

abbrev pub text_or_none : Text → Option Text
text_or_none [] = none
text_or_none (c ∷ s) = some (c ∷ s)

abbrev pub cond_options : Option ExprDef → List ExprOption
cond_options none = []
cond_options (some ed) = options ed

abbrev pub cond_text : Option ExprDef → Text
cond_text none = []
cond_text (some ed) = ed.expression

abbrev pub has_inner : StageDefs → Bool
has_inner no_more = false
has_inner (stage_then sd sds) = true

unfoldable pub parse_rollups : Text → List RollupDef → Result (List Rollup)
parse_rollups stage [] = ok []
parse_rollups stage (r ∷ rs) =
    bind (map_err (config_error stage (codes "rollups")) (parse_aggregation r.agg)) (λ agg.
      bind (parse_rollups stage rs)
        (λ xs. ok (record { key = r.key; agg = agg; out = r.out } ∷ xs)))

abbrev pub as_option : Text → List ForEachOption
as_option [] = []
as_option (c ∷ s) = with_for_each_as (c ∷ s) ∷ []

abbrev pub output_option : Text → List ForEachOption
output_option [] = []
output_option (c ∷ s) = with_for_each_output (c ∷ s) ∷ []

abbrev pub for_each_options : StageFields → List Rollup → List ForEachOption
for_each_options d rollups =
    with_rollups rollups ∷ with_for_each_depends_on d.depends_on ∷ []
    ++ as_option d.binding
    ++ output_option d.output
