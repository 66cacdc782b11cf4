-- ===== src/Multi.antt =====
-- pipe/multi.go: a stage of several named expressions, in ascending order of priority, each of
-- which sees the results of those before it.
pub mod Order
pub mod Frame
use rlng.Base.{
  ℕ, Bool, true, false, Option, none, some, List, [], ◌∷◌, ◌++◌, ⊤, ◌==◌, if◌then◌else◌, map,
}
use rlng.Base.Int.{ℤ, ltb_ℤ}
use rlng.Base.Text.{Text, codes, is_empty, text_eq}
use rlng.Base.Dict.{Dict, lookup}
use rlng.Value.{Value, null, Fields, end, field}
use rlng.Value.Access.{insert_field, has_field}
use rlng.Error.{
  Error, cancelled, empty_stage_name, no_expressions, empty_expression_name, duplicate_expression,
  stage_error, multi_expr, Result, ok, err, bind, map_err,
}
use rlng.Expr.{Config, Function, new_function, apply}
use rlng.Pipeline.{mem_text}
use rlng.Scope.{Scope, Derivation, stage_type, snapshot, observe}
use rlng.Scope.Path.{qualify, lookup_path}
use rlng.Scope.Action.{Action, pure, throw, lift, gets, wrap_err, ◌>>=◌, ◌>>◌, derive_or_set}
use rlng.Stage.{Stage, asking}

pub record NamedExpr : Type 0 where
  pub name : Text
  pub expression : Text
  pub priority : ℤ
  pub options : Config

pub record CompiledNamed : Type 0 where
  pub name : Text
  pub fn : Function

pub record MultiExpr : Type 0 where
  pub name : Text
  pub deps : List Text
  pub exprs : List CompiledNamed

abbrev pub multi_error : Text → Error → Error
multi_error name = stage_error name multi_expr

-- Before the first entry of a greater priority, so after those of the same one.
unfoldable pub insert_by_priority : NamedExpr → List NamedExpr → List NamedExpr
insert_by_priority e [] = e ∷ []
insert_by_priority e (x ∷ xs) =
    let rest = insert_by_priority e xs in
    if ltb_ℤ e.priority x.priority then e ∷ x ∷ xs else x ∷ rest

unfoldable pub sort_onto : List NamedExpr → List NamedExpr → List NamedExpr
sort_onto [] sorted = sorted
sort_onto (e ∷ es) sorted = sort_onto es (insert_by_priority e sorted)

-- `sort.SliceStable` by `Priority`
unfoldable pub sort_by_priority : List NamedExpr → List NamedExpr
sort_by_priority es = sort_onto es []

abbrev check_name : Text → NamedExpr → List Text → Result ⊤
check_name stage e seen =
    if is_empty e.name
    then err (multi_error stage empty_expression_name)
    else if mem_text e.name seen
    then err (multi_error stage (duplicate_expression e.name))
    else ok tt

-- The loop of `NewMultiExpr` over the ordered entries.
unfoldable pub compile_named : Text → List NamedExpr → List Text → Result (List CompiledNamed)
compile_named stage [] seen = ok []
compile_named stage (e ∷ es) seen =
    let rest = compile_named stage es (e.name ∷ seen) in
    bind (check_name stage e seen) (λ _.
      bind (map_err (multi_error stage) (new_function e.name e.expression e.options))
        (λ fn. bind rest (λ cs. ok (record { name = e.name; fn = fn } ∷ cs))))

-- `NewMultiExpr`
unfoldable pub new_multi_expr : Text → List NamedExpr → List Text → Result MultiExpr
new_multi_expr [] exprs deps = err (multi_error [] empty_stage_name)
new_multi_expr (c ∷ name) [] deps = err (multi_error (c ∷ name) no_expressions)
new_multi_expr (c ∷ name) (e ∷ exprs) deps =
    bind (compile_named (c ∷ name) (sort_by_priority (e ∷ exprs)) [])
      (λ compiled. ok (record { name = c ∷ name; deps = deps; exprs = compiled }))

abbrev first_segment : Text → Text
first_segment [] = []
first_segment (c ∷ s) = let rest = first_segment s in if c == b'.' then [] else c ∷ rest

-- `qualifyLocal`: a reference to an earlier expression is keyed under the stage's name.
abbrev pub qualify_local : Text → List Text → Text → Text
qualify_local name locals ref =
    if mem_text (first_segment ref) locals then qualify name ref else ref

abbrev record_keyed : Fields → Text → Option Value → Fields
record_keyed out key none = out
record_keyed out key (some v) = insert_field key v out

-- `snapshotRefsKeyed` of pipe/provenance.go
unfoldable pub snapshot_refs_keyed : Fields → Fields → (Text → Text) → List Text → Fields
snapshot_refs_keyed out env key_of [] = out
snapshot_refs_keyed out env key_of (r ∷ refs) =
    snapshot_refs_keyed (record_keyed out (key_of r) (lookup_path env r)) env key_of refs

-- The locals laid over the environment: `env[e.name] = v`.
unfoldable pub overlay : Fields → Fields → Fields
overlay env end = env
overlay env (field k v locals) = overlay (insert_field k v env) locals

abbrev local_names : Fields → List Text
local_names end = []
local_names (field k v m) = k ∷ local_names m

-- The loop of `Execute`; `locals` holds the results so far.
unfoldable pub execute_exprs : Text → Fields → Fields → List CompiledNamed → Action ⊤
execute_exprs name env locals [] = pure tt
execute_exprs name env locals (e ∷ es) = do
  now ← gets (λ s. overlay (observe s env) locals)
  v ← lift (map_err (multi_error name) (apply e.fn now))
  wrap_err (multi_error name) (
      derive_or_set (qualify name e.name) v (record {
        path = [];
        stage = name;
        origin = stage_type multi_expr;
        operation = codes "expr:" ++ e.name;
        expression = e.fn.expression;
        inputs = snapshot_refs_keyed end now (qualify_local name (local_names locals)) e.fn.refs;
        value = null;
      }))
  execute_exprs name env (insert_field e.name v locals) es

-- `Execute`
unfoldable pub execute_multi : MultiExpr → Bool → Action ⊤
execute_multi m done =
    if done
    then throw (multi_error m.name cancelled)
    else do env ← gets snapshot; execute_exprs m.name env end m.exprs

abbrev pub multi_stage : MultiExpr → Stage
multi_stage m = record {
  name = m.name;
  kind = multi_expr;
  depends_on = m.deps;
  execute = asking (execute_multi m);
}
