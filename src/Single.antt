-- ===== src/Single.antt =====
-- pipe/single.go: a stage of one expression, gated by a condition.
pub mod Laws
pub mod Local
use rlng.Base.{Bool, true, false, Option, none, some, List, [], ◌∷◌, ⊤, if◌then◌else◌}
use rlng.Base.Text.{Text, codes, is_empty}
use rlng.Value.{Value, null, Fields, Arith}
use rlng.Error.{
  Error, cancelled, empty_stage_name, stage_error, single_expr, Result, ok, err, bind, map_err,
}
use rlng.Expr.{Config, Function, Predicate, new_function, new_predicate, apply, test}
use rlng.Scope.{Derivation, stage_type, snapshot, observe}
use rlng.Scope.Action.{Action, pure, throw, lift, gets, wrap_err, ◌>>=◌, ◌>>◌, derive_or_set}
use rlng.Stage.{Stage, asking}
use rlng.Table.{snapshot_refs}

pub record SingleExpr : Type 0 where
  pub name : Text
  pub output : Text
  pub deps : List Text
  pub cond : Option Predicate
  pub fn : Function

-- The part of `stageConfig` that a SingleExpr reads.
pub record SingleConfig : Type 0 where
  pub deps : List Text
  pub output : Option Text
  pub condition : Text
  pub cond_opts : Config
  pub expr_opts : Config

abbrev pub single_error : Text → Error → Error
single_error name = stage_error name single_expr

abbrev output_or : Text → Option Text → Text
output_or name none = name
output_or name (some path) = path

abbrev pub compile_condition : Text → SingleConfig → Result (Option Predicate)
compile_condition name cfg =
    if is_empty cfg.condition
    then ok none
    else bind (map_err (single_error name) (new_predicate cfg.condition cfg.cond_opts))
        (λ p. ok (some p))

-- `NewSingleExpr`
unfoldable pub new_single_expr : Text → Text → SingleConfig → Result SingleExpr
new_single_expr [] expression cfg = err (single_error [] empty_stage_name)
new_single_expr (c ∷ name) expression cfg =
    bind (map_err (single_error (c ∷ name)) (new_function (c ∷ name) expression cfg.expr_opts))
      (λ fn. bind (compile_condition (c ∷ name) cfg) (λ cond. ok (record {
        name = c ∷ name;
        output = output_or (c ∷ name) cfg.output;
        deps = cfg.deps;
        cond = cond;
        fn = fn;
      })))

module _ (ops : Arith) where
  abbrev pub gate : Option Predicate → Fields → Result Bool
  gate none env = ok true
  gate (some p) env = test ops p env

  abbrev pub evaluate : SingleExpr → Fields → Action ⊤
  evaluate e env = do
    v ← lift (map_err (single_error e.name) (apply e.fn env))
    wrap_err (single_error e.name) (
        derive_or_set e.output v (record {
          path = [];
          stage = e.name;
          origin = stage_type single_expr;
          operation = codes "eval";
          expression = e.fn.expression;
          inputs = snapshot_refs env e.fn.refs;
          value = null;
        }))

  -- `Execute`
  unfoldable pub execute_single_expr : SingleExpr → Bool → Action ⊤
  execute_single_expr e done = if done then throw (single_error e.name cancelled) else do
    env ← gets snapshot
    open_gate ← lift (map_err (single_error e.name) (gate e.cond env))
    if open_gate then evaluate e env else pure tt

  abbrev pub single_stage : SingleExpr → Stage
  single_stage e = record {
    name = e.name;
    kind = single_expr;
    depends_on = e.deps;
    execute = asking (execute_single_expr e);
  }
