-- ===== src/Tests/Inputs.antt =====
-- A struct as an environment and as an input.
use rlng.Base.{◌≡◌, ◌≢◌, Among-All, arith, false, refl, true, some, [], ◌∷◌, leb, if◌then◌else◌}
use rlng.Base.Int.{pos}
use rlng.Base.Text.{Text, codes, text_eq}
use rlng.Value.{other, dec, obj, Fields, end, field, Decimal}
use rlng.Value.Access.{insert_field, lookup_field}
use rlng.Value.Reflect.{GoValue, pointer, struct, plain, Members, no_member, member}
use rlng.Error.{Result, ok, err, env_too_deep}
use rlng.Expr.Env.{to_env}
use rlng.Expr.Depth.{member_levels, members_of, to_env-eq}
use rlng.Engine.Seed.{mapstructure_key, restore_decimals}
use rlng.Engine.Keys.{decimal_at, is_distinct, is_nested, has_key}
use rlng.Engine.{Engine, flatten, evaluate, evaluate_scope}
use rlng.Engine.Evaluated.{Outcome, run_from, evaluate-decimal}
use rlng.Base.Dict.{lookup, insert}
use rlng.Expr.{apply}
use rlng.Multi.{MultiExpr, execute_exprs, execute_multi, multi_stage}
use rlng.Scope.{clone_value, live_view, new_scope, no_ruleset, observe, snapshot}
use rlng.Scope.Action.{derive_or_set, set, stamp_ruleset}
use rlng.Scope.Frame.{head_segment}
use rlng.Scope.Path.{lookup_path, qualify, set_keys, set_path, split_dots}
use rlng.Pipeline.{
  all_emitted, compute_levels, emit_pass, level_of, levels_from, mem_text, place, topo_loop,
  topo_sort,
}
use rlng.Pipeline.Build.{Pipeline, configure_all, first_duplicate, first_unknown, new_pipeline}
use rlng.Pipeline.Isolation.{multi_stage-IsNamespaced}
use rlng.Pipeline.Run.{run, run_sequential, time_stage}
use rlng.Tests.Stages.{in_order, never}
use rlng.Tests.Data.{constant, number_value}

abbrev two_places : Decimal
two_places = record { coefficient = pos 1050; exponent = pos 2 }

-- A decimal of Go: a struct that shows no member.
abbrev decimal_value : GoValue
decimal_value = struct (dec two_places) no_member

abbrev fee : Members
fee = member (codes "Fee") true (codes "fee,omitempty") decimal_value no_member

-- `{Term int; Nested *{Fee decimal}}`
abbrev loan : Members
loan =
    member (codes "Term") true [] (plain (number_value 12))
      (member (codes "Nested") true (codes "nested") (pointer (struct (other 1) fee)) no_member)

to_env-eq_example :
    to_env (pointer (struct (other 0) loan))
    ≡ (if leb (member_levels loan) 1000 then ok (members_of loan end) else err env_too_deep)
to_env-eq_example = to_env-eq 1 (other 0) loan

-- What the decoder leaves of it.
abbrev seed : Fields
seed =
    field (codes "Term") (number_value 12)
      (field (codes "nested") (obj (field (codes "fee") (obj end) end)) end)

abbrev fee_path : Text
fee_path = codes "nested.fee"

loan-IsDistinct : is_distinct (pointer (struct (other 0) loan)) ≡ true
unfolding is_distinct has_key mapstructure_key text_eq
loan-IsDistinct = refl

loan_fee : decimal_at (pointer (struct (other 0) loan)) (split_dots fee_path) ≡ some two_places
unfolding decimal_at mapstructure_key text_eq split_dots
loan_fee = refl

seed_nested : is_nested (split_dots fee_path) (some (obj seed)) ≡ true
unfolding is_nested lookup_field text_eq split_dots
seed_nested = refl

-- A MultiExpr with one constant, alone in its pipeline.
abbrev fixed_rate : MultiExpr
fixed_rate = record {
  name = codes "m";
  deps = [];
  exprs = record { name = codes "x"; fn = constant (number_value 1) } ∷ [];
}

abbrev alone : Pipeline
alone = record {
  ordered = multi_stage fixed_rate ∷ [];
  levels = [];
  identity = no_ruleset;
  max_parallel = pos 0;
  wide = false;
}

abbrev engine : Engine
engine = record { pipeline = alone; scope_opts = [] }

fee_apart : head_segment (codes "m") ≢ head_segment fee_path
unfolding head_segment
fee_apart = λ e. ground arith

alone-built : new_pipeline (multi_stage fixed_rate ∷ []) [] ≡ ok alone
unfolding new_pipeline configure_all first_duplicate first_unknown topo_sort topo_loop emit_pass
    all_emitted mem_text text_eq compute_levels levels_from level_of place lookup insert
alone-built = refl

abbrev decoder : GoValue → Result Fields
decoder v = ok seed

abbrev result : Fields
result = field (codes "Term") (number_value 12) (
    field (codes "nested") (obj (field (codes "fee") (dec two_places) end))
      (field (codes "m") (obj (field (codes "x") (number_value 1) end)) end))

evaluated : evaluate decoder never in_order engine (pointer (struct (other 0) loan)) ≡ ok result
unfolding evaluate evaluate_scope flatten restore_decimals mapstructure_key run run_sequential
    time_stage execute_multi execute_exprs derive_or_set set set_path set_keys split_dots snapshot
    new_scope clone_value stamp_ruleset lookup_field insert_field text_eq qualify mem_text apply
    observe live_view
evaluated = refl

evaluate-decimal_example :
    Outcome
      (λ out. lookup_path out fee_path ≡ some (dec two_places))
      (run_from decoder never in_order engine
        (restore_decimals (pointer (struct (other 0) loan)) seed)).0
      (evaluate decoder never in_order engine (pointer (struct (other 0) loan)))
evaluate-decimal_example =
    evaluate-decimal decoder never in_order engine (multi_stage fixed_rate ∷ []) []
      (pointer (struct (other 0) loan)) seed fee_path two_places Among-All alone-built
      ((multi_stage-IsNamespaced fixed_rate, fee_apart), tt) (λ e. ground arith) loan-IsDistinct
      loan_fee refl seed_nested
