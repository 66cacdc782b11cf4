-- ===== src/Tests/Configs.antt =====
-- A definition with a decimal among its constants and a foreach stage, built.
use rlng.Base.{◌≡◌, ◌≢◌, ◌⊎◌, refl, true, false, none, some, List, [], ◌∷◌, ◌++◌, map, All, subst}
use mathlib.Core.List.{Perm}
use rlng.Base.Int.{pos}
use rlng.Base.Text.{Text, codes, text_eq}
use rlng.Base.Dict.{lookup, insert}
use rlng.Value.{Value, str, obj, end, field}
use rlng.Error.{ok, err, Result}
use rlng.Stage.{Stage}
use rlng.Pipeline.Build.{Pipeline, assemble}
use rlng.Scope.{no_ruleset}
use rlng.Config.{ExprDef, StageFields, stage_def, no_more, stage_then, PipelineDef, RuleDef}
use rlng.Value.Access.{insert_field}
use rlng.Expr.{new_function, trim_space}
use rlng.Expr.Options.{function_config, predicate_config, new_config, merge_into}
use rlng.Single.{new_single_expr}
use rlng.Foreach.{new_for_each, has_empty_rollup}
use rlng.Pipeline.{
  mem_text, all_emitted, emit_pass, topo_loop, topo_sort, level_of, place, levels_from,
  compute_levels,
}
use rlng.Pipeline.Build.{first_duplicate, first_unknown, new_pipeline}
use rlng.Config.Decimals.{
  literal_of, hydrate_decimals, hydrate_expr_globals, hydrate_exprs, hydrate_decisions,
  hydrate_rules, hydrate_fields, hydrate_stages, hydrate_constants,
}
use rlng.Config.Canonical.{
  Digest, canonicalize_map, canonical_definition, hash_canonical, matches_ruleset,
}
use rlng.Config.Lint.{
  is_first_match, is_catch_all, trim_close, catch_all_from, unreachable_from, lint_table, lint,
  lint_stages,
}
use rlng.Config.Covered.{IsGuarded, EndsInCatchAll, lint_table-EndsInCatchAll}
use rlng.Config.Headers.{header, headers}
use rlng.Config.Built.{build-matches_ruleset, build-stages, build-IsFresh}
use rlng.Pipeline.Dependencies.{IsTopological}
use rlng.Config.Chains.{Binds, here, goes_on, stops, IsFresh, prior_with, validate_as_chains}
use rlng.Config.Setup.{expr_env_opts, parse_rollups}
use rlng.Config.Stages.{build_single, build_for_each, build_stages}
use rlng.Config.Build.{
  configure_all, check_definition, BuildOption, with_ruleset_version, configured, version_or, build,
}
use rlng.Tests.Data.{exact}
use rlng.Tests.Codecs.{wire, read_decimal, write_decimal}
use rlng.Tests.Mappers.{quoting}

abbrev in_order : List Stage → List Stage
in_order l = l

abbrev literal_text : Value → Text
literal_text (obj (field k (str s) m)) = s
literal_text v = []

-- The text of the literal of the first constant.
abbrev digest : Digest
digest = record {
  marshal = λ d. ok (elim d.constants [ end ↦ [] | field k v m ↦ literal_text v ]);
  sha256 = λ b. codes "#" ++ b;
}

abbrev plain_expr : Text → ExprDef
plain_expr src = record { expression = src; fallback = []; globals = end; coerce = false }

abbrev bare_stage : Text → Text → StageFields
bare_stage name kind = record {
  name = name;
  kind = kind;
  depends_on = [];
  value = some (plain_expr (codes "1"));
  condition = none;
  output = [];
  exprs = [];
  hit_policy = [];
  aggregation = [];
  rules = [];
  default = [];
  collection = codes "xs";
  binding = [];
  rollups = [];
}

-- `{"$dec": "+5+0"}` at `rate`, and a foreach stage, with another one in it, before the stage
-- that it depends on.
abbrev two_stages : PipelineDef
two_stages = record {
  mapping = (codes "total", codes "base.v") ∷ [];
  constants =
      field (codes "rate") (obj (field (codes "$dec") (str (b'+' ∷ 5 ∷ b'+' ∷ 0 ∷ [])) end)) end;
  stages =
      stage_then
        (stage_def
          (record (bare_stage (codes "each") (codes "foreach")) { depends_on = codes "base" ∷ [] })
          (stage_then
            (stage_def
              (record (bare_stage (codes "inner") (codes "foreach")) { binding = codes "line" })
              (stage_then (stage_def (bare_stage (codes "leaf") (codes "single-expr")) no_more)
                no_more))
            no_more))
        (stage_then (stage_def (bare_stage (codes "base") (codes "single-expr")) no_more) no_more);
  schema = end;
  version = codes "1";
  hash_memo = none;
}

abbrev value_or : {A : Type 0} → A → Result A → A
value_or a (ok b) = b
value_or a (err e) = a

abbrev opts : List BuildOption
opts = with_ruleset_version (codes "2") ∷ []

abbrev outcome : Pipeline × PipelineDef
outcome =
    value_or (assemble no_ruleset (pos 0) [], two_stages)
      (build wire digest exact quoting in_order opts two_stages)

two_stages-built :
    (build wire digest exact quoting in_order opts two_stages ≡ ok (outcome.0, outcome.1))
    × (two_stages.stages ≡ outcome.1.stages)
unfolding build hydrate_constants hydrate_decimals literal_of text_eq read_decimal hydrate_stages
    hydrate_fields hydrate_expr_globals hydrate_exprs hydrate_rules hydrate_decisions
    check_definition validate_as_chains prior_with configure_all build_stages build_for_each
    build_single new_single_expr new_function trim_space function_config predicate_config new_config
    expr_env_opts merge_into parse_rollups new_for_each has_empty_rollup hash_canonical
    canonical_definition canonicalize_map new_pipeline first_duplicate first_unknown topo_sort
    topo_loop emit_pass all_emitted mem_text compute_levels levels_from level_of place lookup insert
    write_decimal rlng.Pipeline.Build.configure_all rlng.Foreach.configure_all
    rlng.Expr.Options.configure_all insert_field lint lint_stages
two_stages-built = (refl, refl)

build-matches_ruleset_example :
    (matches_ruleset wire digest two_stages outcome.0.identity ≡ true)
    × (matches_ruleset wire digest outcome.1 outcome.0.identity ≡ true)
    × (outcome.0.identity.version ≡ version_or (codes "1") (configured opts).version)
build-matches_ruleset_example =
    build-matches_ruleset wire digest exact quoting in_order opts two_stages outcome.0 outcome.1
      refl two_stages-built.0

build-stages_example :
    Perm (map header outcome.0.ordered) (headers two_stages.stages)
    × IsTopological [] outcome.0.ordered
build-stages_example =
    build-stages wire digest exact quoting in_order opts two_stages outcome.0 outcome.1
      two_stages-built.0

nested-Binds : Binds two_stages.stages (codes "item" ∷ codes "line" ∷ [])
unfolding text_eq
nested-Binds = here (goes_on refl (here (stops refl)))

build-IsFresh_example : IsFresh [] (codes "item" ∷ codes "line" ∷ [])
build-IsFresh_example =
    build-IsFresh wire digest exact quoting in_order opts two_stages outcome.0 outcome.1
      (codes "item" ∷ codes "line" ∷ []) two_stages-built.0
      (subst (λ sds. Binds sds (codes "item" ∷ codes "line" ∷ [])) two_stages-built.1 nested-Binds)

abbrev rule_on : Text → RuleDef
rule_on src = record { id = []; message = []; condition = plain_expr src; decisions = [] }

abbrev covered : StageFields
covered = record (bare_stage (codes "tiers") (codes "decision-table")) {
  rules = rule_on (codes "x > 1") ∷ rule_on (codes "( true )") ∷ [];
}

covered-first : is_first_match [] ≡ true
unfolding is_first_match
covered-first = refl

covered-clean : lint_table covered ≡ []
unfolding lint_table is_first_match catch_all_from unreachable_from is_catch_all trim_space
    trim_close text_eq
covered-clean = refl

lint_table-EndsInCatchAll_example :
    EndsInCatchAll covered.rules ⊎ (All IsGuarded covered.rules × (covered.default ≢ []))
lint_table-EndsInCatchAll_example = lint_table-EndsInCatchAll covered covered-first covered-clean
