-- ===== src/Tests/Lineages.antt =====
-- A price that is computed from a rate and an amount, both computed from the input.
use rlng.Base.{ℕ, ◌<◌, ◌≡◌, refl, true, [], ◌∷◌, arith, All, if◌then◌else◌}
use rlng.Base.Text.{Text, codes, text_eq, text_lt}
use rlng.Base.Dict.{lookup}
use rlng.Value.{Fields, end, field}
use rlng.Error.{single_expr}
use rlng.Scope.{Scope, Derivation, stage_type, blank_scope}
use rlng.Scope.Lineage.{
  insert_text, lineage, derivations_for, mem_path, sorted_inputs, max_lineage_depth,
}
use rlng.Scope.Lineage.Distinct.{IsUnrepeated, paths, lineage-IsUnrepeated}
use rlng.Scope.Lineage.Order.{IsOrdered, FallsAt, lineage-IsOrdered}
use rlng.Tests.Data.{number_value}

abbrev step : Text → Fields → Derivation
step path inputs = record {
  path = path;
  stage = path;
  origin = stage_type single_expr;
  operation = codes "eval";
  expression = codes "e";
  inputs = inputs;
  value = number_value 1;
}

-- `{"a": 1}` and `{"r": 1, "a": 1}`
abbrev of_amount : Fields
of_amount = field (codes "a") (number_value 1) end

abbrev of_both : Fields
of_both = field (codes "r") (number_value 1) of_amount

abbrev priced : Scope
priced = record blank_scope {
  provenance = true;
  derivations =
      (codes "a", step (codes "a") end)
      ∷ (codes "r", step (codes "r") of_amount)
      ∷ (codes "p", step (codes "p") of_both)
      ∷ [];
}

abbrev rank : Text → ℕ
rank t = if text_eq t (codes "a") then 0 else if text_eq t (codes "r") then 1 else 2

lineage-IsUnrepeated_example : IsUnrepeated (lineage (codes "p") priced)
lineage-IsUnrepeated_example = lineage-IsUnrepeated (codes "p") priced

priced-FallsAt : All (λ e. FallsAt priced.derivations rank e.1) priced.derivations
unfolding derivations_for lookup text_eq sorted_inputs insert_text text_lt
priced-FallsAt = ground arith

priced-below :
    All (λ d. rank d.path < max_lineage_depth) (derivations_for priced.derivations (codes "p"))
unfolding derivations_for lookup text_eq
priced-below = ground arith

lineage-IsOrdered_example :
    IsOrdered priced.derivations [] (lineage (codes "p") priced)
    × All
        (λ d. mem_path d.path (paths (lineage (codes "p") priced)) ≡ true)
        (derivations_for priced.derivations (codes "p"))
lineage-IsOrdered_example =
    lineage-IsOrdered rank (codes "p") priced refl priced-FallsAt priced-below
