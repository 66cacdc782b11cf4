-- ===== src/Tests/Tables.antt =====
-- The theorems on decision tables at a table of constant rules.
use rlng.Base.{Bool, ◌≤◌, ◌≡◌, refl, true, false, List, [], ◌∷◌, All, arith}
use rlng.Base.Text.{codes, text_eq}
use rlng.Base.Dict.{lookup, insert}
use rlng.Value.{end}
use rlng.Error.{multiple_matches, ok, err}
use rlng.Expr.{apply, test}
use rlng.Numeric.{values_agree, as_decimal, decimal_from_numeric, classify}
use rlng.Table.{
  CompiledRule, policy_single, policy_unique, table_error, matches, agree_decisions, agree_rules,
}
use rlng.Table.Execute.{
  Bucket, apply_rule, collect_decisions, collect_rules, execute_single, execute_unique,
}
use rlng.Table.Match.{
  execute_single_first, execute_unique-eq-single, holding, execute_unique_multiple,
}
use rlng.Table.Agree.{Agrees, agree_rules_sound}
use rlng.Table.Buckets.{values_in, decided_by, collect_rules-values}
use rlng.Tests.Data.{exact, number_value, rule, table, given, scope}

abbrev no_hit : List CompiledRule
no_hit = rule false 1 ∷ []

abbrev one_hit : List CompiledRule
one_hit = rule false 1 ∷ rule true 2 ∷ []

abbrev two_hits : List CompiledRule
two_hits = rule false 1 ∷ rule true 2 ∷ rule true 2 ∷ []

test-false : test exact (rule false 1).cond given ≡ ok false
unfolding test
test-false = refl

test-true : test exact (rule true 2).cond given ≡ ok true
unfolding test
test-true = refl

matches_one : matches exact given one_hit ≡ ok (rule true 2 ∷ [])
unfolding matches test
matches_one = refl

execute_single_first_example :
    execute_single exact (table "t" policy_single two_hits []) given scope
    ≡ apply_rule (table "t" policy_single two_hits []) given (rule true 2) scope
execute_single_first_example =
    execute_single_first exact (table "t" policy_single two_hits []) given no_hit (rule true 2)
      (rule true 2 ∷ []) scope refl (test-false, tt) test-true

execute_unique-eq-single_example :
    execute_unique exact (table "t" policy_unique one_hit []) given scope
    ≡ execute_single exact (table "t" policy_unique one_hit []) given scope
execute_unique-eq-single_example =
    execute_unique-eq-single exact (table "t" policy_unique one_hit []) given (rule true 2 ∷ [])
      scope matches_one (omega arith)

-- The verdict of the conditions of `rule`.
abbrev verdict_of : CompiledRule → Bool
verdict_of r = elim (test exact r.cond given) [ ok b ↦ b | err e ↦ false ]

abbrev spread_hits : List CompiledRule
spread_hits = rule true 2 ∷ rule false 1 ∷ rule true 3 ∷ []

spread_tested : All (λ r. test exact r.cond given ≡ ok (verdict_of r)) spread_hits
unfolding test
spread_tested = (refl, (refl, (refl, tt)))

spread_many : 2 ≤ holding exact verdict_of spread_hits
unfolding test
spread_many = omega arith

spread_count : holding exact verdict_of spread_hits ≡ 2
unfolding test
spread_count = refl

execute_unique_multiple_example :
    execute_unique exact (table "t" policy_unique spread_hits []) given scope ≡ (
      err (table_error (codes "t") (multiple_matches (holding exact verdict_of spread_hits))),
      scope,
    )
execute_unique_multiple_example =
    execute_unique_multiple exact (table "t" policy_unique spread_hits []) given verdict_of scope
      spread_tested spread_many

agree_two :
    agree_rules exact (codes "t") given (rule true 2 ∷ rule true 2 ∷ []) []
    ≡ ok ((codes "v", number_value 2) ∷ [])
unfolding agree_rules agree_decisions apply lookup insert text_eq values_agree as_decimal
    decimal_from_numeric classify
agree_two = refl

agree_rules_sound_example :
    All
      (λ r. All (Agrees exact (codes "t") given ((codes "v", number_value 2) ∷ [])) r.decisions)
      (rule true 2 ∷ rule true 2 ∷ [])
agree_rules_sound_example =
    agree_rules_sound exact (codes "t") given (rule true 2 ∷ rule true 2 ∷ [])
      ((codes "v", number_value 2) ∷ []) agree_two

abbrev gathered : Bucket
gathered = record { values = number_value 2 ∷ number_value 2 ∷ []; exprs = []; inputs = end }

collect_two :
    collect_rules exact (codes "t") false given two_hits [] []
    ≡ ok ((codes "v", gathered) ∷ [], rule true 2 ∷ rule true 2 ∷ [])
unfolding collect_rules collect_decisions test apply lookup insert text_eq
collect_two = refl

collect_rules-values_example :
    values_in (codes "v") ((codes "v", gathered) ∷ [])
    ≡ decided_by given (codes "v") (rule true 2 ∷ rule true 2 ∷ [])
collect_rules-values_example =
    collect_rules-values (codes "t") false given (codes "v") exact two_hits collect_two
