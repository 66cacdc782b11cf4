-- ===== src/Tests/Endings.antt =====
-- A run in waves of two stages that write.
use rlng.Base.{
  ◌≡◌, ◌∙◌, Among, Among-All, arith, refl, subst, sym, Bool, false, none, some, List, [], ◌∷◌, All,
}
use rlng.Base.Text.{Text, codes, text_eq}
use rlng.Value.{Fields}
use rlng.Value.Access.{
  lookup_field, insert_field, lookup_field-insert_field, lookup_field-insert_field_self,
}
use rlng.Error.{ok}
use rlng.Expr.{apply}
use rlng.Stage.{Context, Exec, Stage}
use rlng.Single.{SingleExpr, single_stage, execute_single_expr}
use rlng.Scope.{Scope}
use rlng.Scope.Action.{set, derive, derive_or_set}
use rlng.Scope.Path.{set_keys, set_path, split_dots}
use rlng.Pipeline.{
  mem_text, all_emitted, emit_pass, topo_loop, topo_sort, level_of, place, levels_from,
  compute_levels,
}
use rlng.Pipeline.Build.{
  Pipeline, with_concurrency, configure_all, first_duplicate, first_unknown, new_pipeline,
}
use rlng.Pipeline.Run.{run}
use rlng.Pipeline.Liveness.{Delivers}
use rlng.Pipeline.Ended.{run-ok}
use rlng.Tests.Data.{exact, number_value, constant, scope}

abbrev never : Context
never n = false

abbrev in_order : List Stage → List Stage
in_order l = l

-- Writes 1 under its name.
abbrev fixed : Text → List Text → SingleExpr
fixed name deps = record {
  name = name;
  output = name;
  deps = deps;
  cond = none;
  fn = constant (number_value 1);
}

abbrev first : SingleExpr
first = fixed (codes "a") []

abbrev second : SingleExpr
second = fixed (codes "b") (codes "a" ∷ [])

abbrev given : List Stage
given = single_stage exact second ∷ single_stage exact first ∷ []

abbrev made : Pipeline
made =
    rlng.Pipeline.Build.assemble rlng.Scope.no_ruleset (rlng.Base.Int.negsuc 0)
      (single_stage exact first ∷ single_stage exact second ∷ [])

given-made : new_pipeline given (with_concurrency ∷ []) ≡ ok made
unfolding new_pipeline configure_all first_duplicate first_unknown topo_sort topo_loop emit_pass
    all_emitted mem_text text_eq
given-made = refl

-- The Scope is not strict.
abbrev Good : Fields → Bool → Type 0
Good m strict = strict ≡ false

-- The stage's name is bound to 1.
abbrev Done : Stage → Fields → Type 0
Done t m = lookup_field t.name m ≡ some (number_value 1)

abbrev Writes : SingleExpr → Scope → Type 0
Writes e s =
    ((execute_single_expr exact e false s).0 ≡ ok tt)
    × ((execute_single_expr exact e false s).1.strict ≡ false)
    × ((execute_single_expr exact e false s).1.store ≡ insert_field e.name (number_value 1) s.store)

first-Writes : (s : Scope) → s.strict ≡ false → Writes first s
unfolding execute_single_expr apply derive_or_set derive set set_path set_keys split_dots
first-Writes s relaxed = ground arith

second-Writes : (s : Scope) → s.strict ≡ false → Writes second s
unfolding execute_single_expr apply derive_or_set derive set set_path set_keys split_dots
second-Writes s relaxed = ground arith

lookup-kept :
    (k j : Text) (m : Fields)
    → lookup_field j m ≡ some (number_value 1)
    → lookup_field j (insert_field k (number_value 1) m) ≡ some (number_value 1)
lookup-kept k j m h = ground (arith, lookup_field-insert_field k j (number_value 1) m)

Delivers-writer :
    (e : SingleExpr)
    → ((m : Fields)
        → lookup_field e.name (insert_field e.name (number_value 1) m) ≡ some (number_value 1))
    → ((s : Scope) → s.strict ≡ false → Writes e s)
    → Delivers Good Done never given (single_stage exact e)
Delivers-writer e own writes x good =
    let (fine, relaxed, stored) = writes x.scope good in
    (
      fine,
      relaxed,
      subst (λ (m : Fields). lookup_field e.name m ≡ some (number_value 1)) (sym stored)
          (own x.scope.store),
      λ t m d.
          subst (λ (f : Fields). lookup_field t.name f ≡ some (number_value 1)) (sym stored)
            (lookup-kept e.name t.name x.scope.store d),
    )

abbrev begin : Exec
begin = record { scope = scope; asks = 0 }

run-ok_example :
    ((run never in_order made begin).0 ≡ ok tt)
    × ((run never in_order made begin).1.scope.strict ≡ false)
    × All (λ s. Done s (run never in_order made begin).1.scope.store) made.ordered
run-ok_example =
    run-ok Good Done never in_order given (with_concurrency ∷ []) made begin (λ n. refl) Among-All
      Among-All given-made
      (
        Delivers-writer second (λ m. lookup_field-insert_field_self (codes "b") (number_value 1) m)
            second-Writes,
        (
          Delivers-writer first (λ m. lookup_field-insert_field_self (codes "a") (number_value 1) m)
              first-Writes,
          tt,
        ),
      )
      refl
