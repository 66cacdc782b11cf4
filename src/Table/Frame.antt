-- ===== src/Table/Frame.antt =====
-- A decision table writes under its own name only.
use rlng.Base.{◌∙◌, ◌≡◌, ◌≢◌, refl, Bool, true, false, List, [], ◌∷◌, arith, ⊤}
use rlng.Base.Text.{Text, codes}
use rlng.Base.Dict.{Dict}
use rlng.Value.{Value, Fields, Arith}
use rlng.Error.{map_err}
use rlng.Expr.{apply, test}
use rlng.Numeric.{CollectAggregation, aggregate}
use rlng.Scope.{Scope, Derivation, observe, snapshot}
use rlng.Scope.Path.{qualify}
use rlng.Scope.Action.{Action, lift, record_firing, record_firings, derive_or_set, get, wrap_err}
use rlng.Scope.Frame.{
  head_segment, Unchanged, IsBlind, get-IsBlind, >>=-Unchanged, if-Unchanged,
  record_firing-Unchanged,
}
use rlng.Table.{
  HitPolicy, policy_single, policy_collect, policy_unique, policy_any, CompiledDecision,
  CompiledRule, DecisionTable, table_error, matches, agree_rules, firings_of,
}
use rlng.Table.Execute.{
  write_decision, apply_decisions, apply_rule, apply_defaults, write_agreed, Bucket, collect_rules,
  write_collected, finish_collect, execute_collect, single_from, execute_single, finish_unique,
  execute_unique, finish_any, execute_any, by_policy, execute_table,
}

module _ {X : Type 0} (g : Scope → X) (name : Text) (blind : IsBlind g name) where
  abbrev write : Text → Value → Derivation → Action ⊤
  write key v d = wrap_err (table_error name) (derive_or_set (qualify name key) v d)

  apply_decisions-Unchanged :
      (label : Text) (env : Fields) (decs : List CompiledDecision)
      → Unchanged g (apply_decisions name label env decs)
  unfolding apply_decisions write_decision
  apply_decisions-Unchanged label env [] s = refl
  apply_decisions-Unchanged label env (dec ∷ decs) s =
      >>=-Unchanged g (lift (map_err (table_error name) (apply dec.fn (observe s env)))) _
        (λ _. refl)
        (λ v.
          >>=-Unchanged g (write dec.key v _) _ (blind.0 dec.key v _)
            (λ _. apply_decisions-Unchanged label env decs))
        s

  write_agreed-Unchanged : (agreed : Dict Value) → Unchanged g (write_agreed name agreed)
  unfolding write_agreed
  write_agreed-Unchanged [] s = refl
  write_agreed-Unchanged ((key, v) ∷ agreed) s =
      >>=-Unchanged g (write key v _) _ (blind.0 key v _) (λ _. write_agreed-Unchanged agreed) s

  module _ (ops : Arith) where
    write_collected-Unchanged :
        (agg : CollectAggregation) (collected : Dict Bucket)
        → Unchanged g (write_collected ops name agg collected)
    unfolding write_collected
    write_collected-Unchanged agg [] s = refl
    write_collected-Unchanged agg ((key, b) ∷ collected) s =
        >>=-Unchanged g (lift (map_err (table_error name) (aggregate ops agg b.values))) _
          (λ _. refl)
          (λ v.
            >>=-Unchanged g (write key v _) _ (blind.0 key v _)
              (λ _. write_collected-Unchanged agg collected))
          s

module _ {X : Type 0} (ops : Arith) (g : Scope → X) (d : DecisionTable)
    (blind : IsBlind g d.name) where
  apply_rule-Unchanged : (env : Fields) (r : CompiledRule) → Unchanged g (apply_rule d env r)
  unfolding apply_rule
  apply_rule-Unchanged env r s =
      apply_decisions-Unchanged g d.name blind (codes "decision:") env r.decisions
        (record_firing d.name r.id r.message false s)
      ∙ record_firing-Unchanged g d.name r.id r.message false s blind

  defaults-Unchanged :
      (env : Fields) (decs : List CompiledDecision)
      → d.defaults ≡ decs
      → Unchanged g (apply_defaults d env)
  unfolding apply_defaults
  defaults-Unchanged env [] e s = ground arith
  defaults-Unchanged env (dec ∷ decs) e s =
      rw (e, apply_defaults)
        (apply_decisions-Unchanged g d.name blind (codes "default:") env (dec ∷ decs)
            (record_firing d.name [] [] true s)
          ∙ record_firing-Unchanged g d.name [] [] true s blind)

  apply_defaults-Unchanged : (env : Fields) → Unchanged g (apply_defaults d env)
  apply_defaults-Unchanged env = defaults-Unchanged env d.defaults refl

  finish_unique-Unchanged :
      (env : Fields) (rs : List CompiledRule) → Unchanged g (finish_unique ops d env rs)
  finish_unique-Unchanged env [] = apply_defaults-Unchanged env
  finish_unique-Unchanged env (r ∷ []) = apply_rule-Unchanged env r
  finish_unique-Unchanged env (r ∷ p ∷ rs) = λ s. refl

  finish_any-Unchanged :
      (env : Fields) (rs : List CompiledRule) → Unchanged g (finish_any ops d env rs)
  finish_any-Unchanged env [] = apply_defaults-Unchanged env
  finish_any-Unchanged env (r ∷ rs) =
      >>=-Unchanged g (lift (agree_rules ops d.name env (r ∷ rs) [])) _ (λ _. refl)
        (λ agreed s.
          write_agreed-Unchanged g d.name blind agreed
            (record_firings d.name (firings_of d.name (r ∷ rs)) s)
          ∙ blind.1 (firings_of d.name (r ∷ rs)) s)

  finish_collect-Unchanged :
      (env : Fields) (c : Dict Bucket × List CompiledRule)
      → Unchanged g (finish_collect ops d env c)
  finish_collect-Unchanged env (collected, []) = apply_defaults-Unchanged env
  finish_collect-Unchanged env (collected, r ∷ fired) = λ s.
      write_collected-Unchanged g d.name blind ops d.aggregation collected
        (record_firings d.name (firings_of d.name (r ∷ fired)) s)
      ∙ blind.1 (firings_of d.name (r ∷ fired)) s

  single_from-Unchanged :
      (env : Fields) (rs : List CompiledRule) → Unchanged g (single_from ops d env rs)
  unfolding single_from
  single_from-Unchanged env [] = apply_defaults-Unchanged env
  single_from-Unchanged env (r ∷ rs) =
      >>=-Unchanged g (lift (map_err (table_error d.name) (test ops r.cond env))) _ (λ _. refl)
        (λ hit.
          if-Unchanged g hit (apply_rule d env r) _ (apply_rule-Unchanged env r)
            (single_from-Unchanged env rs))

  policy-Unchanged : (policy : HitPolicy) (env : Fields) → Unchanged g (by_policy ops policy d env)
  unfolding execute_single execute_unique execute_any execute_collect
  policy-Unchanged policy_single env = single_from-Unchanged env d.rules
  policy-Unchanged policy_unique env =
      >>=-Unchanged g (lift (map_err (table_error d.name) (matches ops env d.rules))) _ (λ _. refl)
        (finish_unique-Unchanged env)
  policy-Unchanged policy_any env =
      >>=-Unchanged g (lift (map_err (table_error d.name) (matches ops env d.rules))) _ (λ _. refl)
        (finish_any-Unchanged env)
  policy-Unchanged policy_collect env = λ s.
      >>=-Unchanged g (lift (collect_rules ops d.name s.provenance env d.rules [] [])) _ (λ _. refl)
        (finish_collect-Unchanged env) s

  -- A decision table changes nothing that is blind to its name.
  pub execute_table-Unchanged : (done : Bool) (s : Scope) → g (execute_table ops d done s).1 ≡ g s
  unfolding execute_table
  execute_table-Unchanged true s = refl
  execute_table-Unchanged false s = policy-Unchanged d.hit_policy (snapshot s) s

module _ (ops : Arith) (q : Text) (d : DecisionTable)
    (apart : head_segment d.name ≢ head_segment q) where
  -- Whatever its hit policy and its rules, and also when it ends with an error, a decision table
  -- does not change what is read at a path whose first segment differs from that of its name.
  pub execute_table-Keeps :
      (done : Bool) (s : Scope) → get q (execute_table ops d done s).1 ≡ get q s
  execute_table-Keeps = execute_table-Unchanged ops (get q) d (get-IsBlind q d.name apart)
