-- ===== src/Config/Constructed.antt =====
-- The stage that a constructor of pipe/ returns has the name and the dependencies that it is given.
use rlng.Base.{◌≡◌, refl, List, [], ◌∷◌, ◌++◌, arith, inl, inr, Bool-cases}
use rlng.Base.Text.{Text, codes}
use rlng.Error.{ok, map_err, Cases, Result-Cases, ok_injective}
use rlng.Expr.{new_function}
use rlng.Single.{SingleConfig, SingleExpr, single_error, new_single_expr, compile_condition}
use rlng.Multi.{NamedExpr, MultiExpr, compile_named, new_multi_expr, sort_by_priority}
use rlng.Table.{DecisionTable}
use rlng.Table.Compile.{Rule, TableConfig, compile_rules, compile_defaults, new_decision_table}
use rlng.Foreach.{
  ForEach, Rollup, with_rollups, with_for_each_depends_on, new_for_each, configure_all,
  has_empty_rollup,
}
use rlng.Pipeline.Build.{Pipeline}
use rlng.Config.{StageFields}
use rlng.Config.Setup.{as_option, output_option, for_each_options}

pub new_single_expr_parts :
    (name expression : Text) (cfg : SingleConfig) (s : SingleExpr)
    → new_single_expr name expression cfg ≡ ok s
    → (s.name ≡ name) × (s.deps ≡ cfg.deps)
unfolding new_single_expr
new_single_expr_parts [] expression cfg s h = ground arith
new_single_expr_parts (c ∷ name) expression cfg s h =
    elim (Result-Cases
      (map_err (single_error (c ∷ name)) (new_function (c ∷ name) expression cfg.expr_opts))) [
        | Cases.bad e failed ↦ ground arith
        | Cases.good fn p ↦ elim (Result-Cases (compile_condition (c ∷ name) cfg)) [
          | Cases.bad e failed ↦ ground arith
          | Cases.good cond q ↦ rw (← ok_injective (rw (p, q) at h)) (refl, refl)
        ]
      ]

pub new_multi_expr_parts :
    (name : Text) (exprs : List NamedExpr) (deps : List Text) (s : MultiExpr)
    → new_multi_expr name exprs deps ≡ ok s
    → (s.name ≡ name) × (s.deps ≡ deps)
unfolding new_multi_expr
new_multi_expr_parts [] exprs deps s h = ground arith
new_multi_expr_parts (c ∷ name) [] deps s h = ground arith
new_multi_expr_parts (c ∷ name) (e ∷ exprs) deps s h =
    elim (Result-Cases (compile_named (c ∷ name) (sort_by_priority (e ∷ exprs)) [])) [
      | Cases.bad x failed ↦ ground arith
      | Cases.good cs p ↦ rw (← ok_injective (rw p at h)) (refl, refl)
    ]

pub new_decision_table_parts :
    (name : Text) (rules : List Rule) (cfg : TableConfig) (s : DecisionTable)
    → new_decision_table name rules cfg ≡ ok s
    → (s.name ≡ name) × (s.deps ≡ cfg.deps)
unfolding new_decision_table
new_decision_table_parts [] rules cfg s h = ground arith
new_decision_table_parts (c ∷ name) [] cfg s h = ground arith
new_decision_table_parts (c ∷ name) (r ∷ rules) cfg s h =
    elim (Result-Cases (compile_rules (c ∷ name) 0 (r ∷ rules))) [
      | Cases.bad x failed ↦ ground arith
      | Cases.good rs p ↦ elim (Result-Cases (compile_defaults (c ∷ name) cfg.defaults)) [
        | Cases.bad x failed ↦ ground arith
        | Cases.good ds q ↦ rw (← ok_injective (rw (p, q) at h)) (refl, refl)
      ]
    ]

configure_all-parts :
    (f : ForEach) (rollups : List Rollup) (deps : List Text) (binding output : Text)
    → ((configure_all f (
          with_rollups rollups ∷ with_for_each_depends_on deps ∷ []
          ++ as_option binding
          ++ output_option output)).name
        ≡ f.name)
      × ((configure_all f (
            with_rollups rollups ∷ with_for_each_depends_on deps ∷ []
            ++ as_option binding
            ++ output_option output)).deps
          ≡ deps)
unfolding configure_all
configure_all-parts f rollups deps [] [] = (refl, refl)
configure_all-parts f rollups deps [] (c ∷ s) = (refl, refl)
configure_all-parts f rollups deps (b ∷ t) [] = (refl, refl)
configure_all-parts f rollups deps (b ∷ t) (c ∷ s) = (refl, refl)

pub new_for_each_parts :
    (name collection : Text) (p : Pipeline) (d : StageFields) (rollups : List Rollup) (f : ForEach)
    → new_for_each name collection p (for_each_options d rollups) ≡ ok f
    → (f.name ≡ name) × (f.deps ≡ d.depends_on)
unfolding new_for_each configure_all
new_for_each_parts [] collection p d rollups f h = ground arith
new_for_each_parts (c ∷ name) [] p d rollups f h = ground arith
new_for_each_parts (c ∷ name) (x ∷ collection) p d rollups f h =
    let start : ForEach = record {
      name = c ∷ name;
      collection = x ∷ collection;
      binding = codes "item";
      output = codes "items";
      deps = [];
      inner = p;
      rollups = [];
    } in
    elim (Bool-cases
      (has_empty_rollup (configure_all start (for_each_options d rollups)).rollups)) [
        | inl empty ↦ ground arith
        | inr filled ↦
            rw (← ok_injective (rw filled at h))
              (configure_all-parts start rollups d.depends_on d.binding d.output)
      ]
