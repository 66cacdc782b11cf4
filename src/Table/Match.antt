-- ===== src/Table/Match.antt =====
-- Which rules the hit policies apply.
use rlng.Base.{
  ℕ, ◌+◌, ◌≤◌, ◌≡◌, ⊤, refl, sym, subst, ap, ◌∙◌, Bool, true, false, Bool-cases, inl, inr, List, [],
  ◌∷◌, ◌++◌, All, length, arith, if◌then◌else◌,
}
use rlng.Value.{Fields, Arith}
use rlng.Error.{multiple_matches, ok, err, Cases, Result-Cases}
use rlng.Expr.{test}
use rlng.Scope.{Scope}
use rlng.Scope.Action.{Action}
use rlng.Table.{CompiledRule, DecisionTable, table_error, matches}
use rlng.Table.Execute.{
  apply_rule, apply_defaults, single_from, execute_single, execute_unique, finish_unique,
}

module _ (ops : Arith) where
  single_from_first :
      (d : DecisionTable) (env : Fields) (pre : List CompiledRule) (r : CompiledRule)
      (post : List CompiledRule) (s : Scope)
      → All (λ p. test ops p.cond env ≡ ok false) pre
      → test ops r.cond env ≡ ok true
      → single_from ops d env (pre ++ r ∷ post) s ≡ apply_rule d env r s
  unfolding single_from
  single_from_first d env [] r post s before hit = ground arith
  single_from_first d env (p ∷ pre) r post s before hit =
      ground (arith, single_from_first d env pre r post s before.1 hit)

  -- With the single policy the table applies the first rule whose condition holds: the conditions
  -- before it are false, and what comes after it, errors included, is not evaluated.
  pub execute_single_first :
      (d : DecisionTable) (env : Fields) (pre : List CompiledRule) (r : CompiledRule)
      (post : List CompiledRule) (s : Scope)
      → d.rules ≡ pre ++ r ∷ post
      → All (λ p. test ops p.cond env ≡ ok false) pre
      → test ops r.cond env ≡ ok true
      → execute_single ops d env s ≡ apply_rule d env r s
  unfolding execute_single
  execute_single_first d env pre r post s e before hit =
      ap (λ rs. single_from ops d env rs s) e ∙ single_from_first d env pre r post s before hit

  -- What the single policy makes of the list of matching rules.
  abbrev apply_first : DecisionTable → Fields → List CompiledRule → Action ⊤
  apply_first d env [] = apply_defaults d env
  apply_first d env (r ∷ rs) = apply_rule d env r

  single_from-matches :
      (d : DecisionTable) (env : Fields) (rs ms : List CompiledRule) (s : Scope)
      → matches ops env rs ≡ ok ms
      → single_from ops d env rs s ≡ apply_first d env ms s
  unfolding single_from matches
  single_from-matches d env [] ms s e = ground arith
  single_from-matches d env (r ∷ rs) ms s e = elim (Result-Cases (matches ops env rs)) [
    | Cases.bad x failed ↦ ground arith
    | Cases.good later found ↦ ground (arith, single_from-matches d env rs later s found)
  ]

  -- Where at most one rule matches, the unique policy does what the single policy does.
  pub execute_unique-eq-single :
      (d : DecisionTable) (env : Fields) (matched : List CompiledRule) (s : Scope)
      → matches ops env d.rules ≡ ok matched
      → length matched ≤ 1
      → execute_unique ops d env s ≡ execute_single ops d env s
  unfolding execute_unique execute_single
  execute_unique-eq-single d env [] s e few =
      ground (arith, single_from-matches d env d.rules [] s e)
  execute_unique-eq-single d env (r ∷ []) s e few =
      ground (arith, single_from-matches d env d.rules (r ∷ []) s e)
  execute_unique-eq-single d env (r ∷ p ∷ rs) s e few = absurd (omega arith)

  -- The rules whose condition holds, for the verdicts that the conditions give.
  abbrev pub holding : (CompiledRule → Bool) → List CompiledRule → ℕ
  holding verdict [] = 0
  holding verdict (r ∷ rs) = (if verdict r then 1 else 0) + holding verdict rs

  matches-holding :
      (env : Fields) (verdict : CompiledRule → Bool) (rs : List CompiledRule)
      → All (λ r. test ops r.cond env ≡ ok (verdict r)) rs
      → (ms : List CompiledRule) × (matches ops env rs ≡ ok ms) × (length ms ≡ holding verdict rs)
  unfolding matches
  matches-holding env verdict [] tested = ([], refl, refl)
  matches-holding env verdict (r ∷ rs) tested =
      let (ms, found, counted) = matches-holding env verdict rs tested.1 in
      elim (Bool-cases (verdict r)) [
        | inl holds ↦ (r ∷ ms, ground arith, ground arith)
        | inr fails ↦ (ms, ground arith, ground arith)
      ]

  finish_unique-multiple :
      (d : DecisionTable) (env : Fields) (ms : List CompiledRule) (s : Scope)
      → 2 ≤ length ms
      → finish_unique ops d env ms s ≡ (err (table_error d.name (multiple_matches (length ms))), s)
  finish_unique-multiple d env [] s many = absurd (omega arith)
  finish_unique-multiple d env (r ∷ []) s many = absurd (omega arith)
  finish_unique-multiple d env (r ∷ p ∷ rs) s many = refl

  -- Where the conditions of all rules can be tested and two of them or more hold, wherever they
  -- stand among the rules, the unique policy fails with the number of those that hold, and it
  -- leaves the scope as it was.
  pub execute_unique_multiple :
      (d : DecisionTable) (env : Fields) (verdict : CompiledRule → Bool) (s : Scope)
      → All (λ r. test ops r.cond env ≡ ok (verdict r)) d.rules
      → 2 ≤ holding verdict d.rules
      → execute_unique ops d env s
        ≡ (err (table_error d.name (multiple_matches (holding verdict d.rules))), s)
  unfolding execute_unique
  execute_unique_multiple d env verdict s tested many =
      let (ms, found, counted) = matches-holding env verdict d.rules tested in
      rw (found, sym counted)
        (finish_unique-multiple d env ms s (subst (λ (n : ℕ). 2 ≤ n) (sym counted) many))
