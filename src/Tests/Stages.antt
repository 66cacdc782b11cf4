-- ===== src/Tests/Stages.antt =====
-- The theorems on stages and on whole runs at a pipeline of three stages.
use rlng.Base.{
  ◌≡◌, ◌≢◌, refl, Bool, true, false, Option, none, some, List, [], ◌∷◌, arith, Among-All, String,
}
use rlng.Base.Int.{ℤ, pos, negsuc}
use rlng.Base.Text.{Text, codes, text_eq}
use rlng.Base.Dict.{lookup, insert}
use rlng.Value.{Value, Fields, obj, list, end, field}
use rlng.Value.Access.{to_items}
use rlng.Error.{ok}
use rlng.Expr.{Config}
use rlng.Numeric.{aggregate_sum}
use rlng.Scope.{Scope, no_ruleset}
use rlng.Scope.Path.{split_dots}
use rlng.Scope.Action.{get}
use rlng.Scope.Segments.{diverge}
use rlng.Scope.Frame.{head_segment}
use rlng.Single.{SingleExpr}
use rlng.Multi.{NamedExpr, MultiExpr, multi_stage, sort_by_priority}
use rlng.Multi.Order.{IsAscending, of_priority, sort_by_priority_stable}
use rlng.Foreach.{ForEach, for_each_stage}
use rlng.Stage.{Context, Exec, Stage, table_stage}
use rlng.Pipeline.{
  mem_text, all_emitted, emit_pass, topo_loop, topo_sort, level_of, place, levels_from,
  compute_levels,
}
use rlng.Pipeline.Build.{
  Pipeline, with_concurrency, configure_all, first_duplicate, first_unknown, new_pipeline,
}
use rlng.Pipeline.Run.{run}
use rlng.Pipeline.Isolation.{
  run-get, table_stage-IsNamespaced, multi_stage-IsNamespaced, for_each_stage-IsNamespaced,
}
use rlng.Table.{policy_single}
use rlng.Tests.Data.{exact, number_value, constant, when, rule, table, given, scope}
use mathlib.Core.List.{Perm}

abbrev q : Text
q = codes "in.x"

abbrev pub never : Context
never n = false

abbrev pub in_order : List Stage → List Stage
in_order l = l

abbrev pub start : Exec
start = record { scope = scope; asks = 0 }

abbrev single : Option Bool → SingleExpr
single gate = record {
  name = codes "s";
  output = codes "out.s";
  deps = [];
  cond = elim gate [ none ↦ none | some b ↦ some (when b) ];
  fn = constant (number_value 1);
}

output_apart : diverge (split_dots (codes "out.s")) (split_dots q) ≡ true
unfolding split_dots text_eq
output_apart = refl

abbrev no_options : Config
no_options = record {
  coerce = false;
  fallback = [];
  fallback_on_nil = false;
  compile = λ src. ok (λ env. ok (number_value 1));
  references = λ src. [];
}

abbrev named : String → ℤ → NamedExpr
named name n = record {
  name = codes name;
  expression = codes "1";
  priority = n;
  options = no_options;
}

abbrev unordered : List NamedExpr
unordered = named "x" (pos 2) ∷ named "y" (negsuc 0) ∷ named "z" (pos 2) ∷ []

sort_by_priority_stable_example :
    Perm (sort_by_priority unordered) unordered
    × IsAscending (sort_by_priority unordered)
    × ((n : ℤ) → of_priority n (sort_by_priority unordered) ≡ of_priority n unordered)
sort_by_priority_stable_example = sort_by_priority_stable unordered

abbrev pub multi : MultiExpr
multi = record {
  name = codes "m";
  deps = codes "t" ∷ [];
  exprs = record { name = codes "x"; fn = constant (number_value 1) } ∷ [];
}

multi_apart : head_segment (codes "m") ≢ head_segment q
unfolding head_segment
multi_apart = λ e. ground arith

table_apart : head_segment (codes "t") ≢ head_segment q
unfolding head_segment
table_apart = λ e. ground arith

abbrev pub inner : Pipeline
inner = record {
  ordered = table_stage exact (table "t" policy_single (rule false 1 ∷ []) []) ∷ [];
  levels = [];
  identity = no_ruleset;
  max_parallel = pos 0;
  wide = false;
}

abbrev pub for_each : ForEach
for_each = record {
  name = codes "f";
  collection = codes "rows";
  binding = codes "item";
  output = codes "items";
  deps = codes "t" ∷ [];
  inner = inner;
  rollups = record { key = codes "t.v"; agg = aggregate_sum; out = codes "sum" } ∷ [];
}

for_each_apart : head_segment (codes "f") ≢ head_segment q
unfolding head_segment
for_each_apart = λ e. ground arith

abbrev pub rows : List Value
rows = number_value 3 ∷ number_value 4 ∷ []

-- A scope that holds the rows too.
abbrev pub listed : Scope
listed = record scope { store = field (codes "rows") (list (to_items rows)) given }

abbrev pub listed_start : Exec
listed_start = record { scope = listed; asks = 0 }

abbrev results : List Fields
results =
    field (codes "in") (obj (field (codes "x") (number_value 7) end))
      (field (codes "item") (number_value 3) end)
    ∷ field (codes "in") (obj (field (codes "x") (number_value 7) end))
        (field (codes "item") (number_value 4) end)
    ∷ []

abbrev pub three : List Stage
three =
    multi_stage multi
    ∷ for_each_stage exact in_order for_each
    ∷ table_stage exact (table "t" policy_single (rule true 1 ∷ []) [])
    ∷ []

-- The table first, and then the other two in one level.
abbrev pub wide : Pipeline
wide = record {
  ordered =
      table_stage exact (table "t" policy_single (rule true 1 ∷ []) [])
      ∷ multi_stage multi
      ∷ for_each_stage exact in_order for_each
      ∷ [];
  levels =
      (table_stage exact (table "t" policy_single (rule true 1 ∷ []) []) ∷ [])
      ∷ (multi_stage multi ∷ for_each_stage exact in_order for_each ∷ [])
      ∷ [];
  identity = no_ruleset;
  max_parallel = negsuc 0;
  wide = true;
}

pub built : new_pipeline three (with_concurrency ∷ []) ≡ ok wide
unfolding new_pipeline configure_all first_duplicate first_unknown topo_sort topo_loop emit_pass
    all_emitted mem_text text_eq compute_levels levels_from level_of place lookup insert
built = refl

run-get_example : get q (run never in_order wide listed_start).1.scope ≡ get q listed
run-get_example =
    run-get q never in_order three (with_concurrency ∷ []) wide listed_start Among-All built (
      (multi_stage-IsNamespaced multi, multi_apart),
      (
        (for_each_stage-IsNamespaced exact in_order for_each, for_each_apart),
        (
          (
            table_stage-IsNamespaced exact (table "t" policy_single (rule true 1 ∷ []) []),
            table_apart,
          ),
          tt,
        ),
      ),
    )
