-- ===== src/Pipeline/Settings.antt =====
-- The stages of the package leave the settings of a Scope alone, its recorded order among them.
use rlng.Base.{Bool, List, ap}
use rlng.Base.Text.{Text}
use rlng.Scope.{RulesetIdentity}
use rlng.Pipeline.Alone.{KeepsModes}
use rlng.Value.{Arith}
use rlng.Scope.Frame.{settings, settings-IsBlind, output-settings}
use rlng.Stage.{Stage, table_stage}
use rlng.Table.{DecisionTable}
use rlng.Table.Frame.{execute_table-Unchanged}
use rlng.Multi.{MultiExpr, multi_stage}
use rlng.Multi.Frame.{execute_multi-Unchanged}
use rlng.Single.{SingleExpr, single_stage}
use rlng.Single.Laws.{execute_single_expr-Unchanged}
use rlng.Foreach.{ForEach, for_each_stage}
use rlng.Foreach.Elements.{execute_for_each-settings}
use rlng.Pipeline.Clocked.{KeepsOrder}

-- A decision table leaves the recorded order to the pipeline.
pub table_stage-KeepsOrder : (ops : Arith) (d : DecisionTable) → KeepsOrder (table_stage ops d)
table_stage-KeepsOrder ops d ctx x =
    ap (λ t. t.4)
      (execute_table-Unchanged ops settings d (settings-IsBlind d.name) (ctx x.asks) x.scope)

-- A MultiExpr leaves the recorded order to the pipeline.
pub multi_stage-KeepsOrder : (m : MultiExpr) → KeepsOrder (multi_stage m)
multi_stage-KeepsOrder m ctx x =
    ap (λ t. t.4)
      (execute_multi-Unchanged settings m (ctx x.asks) x.scope (settings-IsBlind m.name))

-- A SingleExpr leaves the recorded order to the pipeline.
pub single_stage-KeepsOrder : (ops : Arith) (e : SingleExpr) → KeepsOrder (single_stage ops e)
single_stage-KeepsOrder ops e ctx x =
    ap (λ t. t.4)
      (execute_single_expr-Unchanged ops settings e (ctx x.asks) x.scope
        (λ v d. output-settings e.output v d))

-- A foreach stage leaves the recorded order to the pipeline, whatever its inner pipeline does.
pub for_each_stage-KeepsOrder :
    (ops : Arith) (schedule : List Stage → List Stage) (f : ForEach)
    → KeepsOrder (for_each_stage ops schedule f)
for_each_stage-KeepsOrder ops schedule f ctx x =
    ap (λ t. t.4) (execute_for_each-settings ops f schedule ctx x)

-- A decision table leaves the settings that stages look at as they are.
pub table_stage-KeepsModes : (ops : Arith) (d : DecisionTable) → KeepsModes (table_stage ops d)
table_stage-KeepsModes ops d ctx x =
    ap (λ (t : Bool × Bool × RulesetIdentity × Bool × List Text). (t.0, t.1, t.2, t.3))
      (execute_table-Unchanged ops settings d (settings-IsBlind d.name) (ctx x.asks) x.scope)

-- A MultiExpr leaves the settings that stages look at as they are.
pub multi_stage-KeepsModes : (m : MultiExpr) → KeepsModes (multi_stage m)
multi_stage-KeepsModes m ctx x =
    ap (λ (t : Bool × Bool × RulesetIdentity × Bool × List Text). (t.0, t.1, t.2, t.3))
      (execute_multi-Unchanged settings m (ctx x.asks) x.scope (settings-IsBlind m.name))

-- A SingleExpr leaves the settings that stages look at as they are.
pub single_stage-KeepsModes : (ops : Arith) (e : SingleExpr) → KeepsModes (single_stage ops e)
single_stage-KeepsModes ops e ctx x =
    ap (λ (t : Bool × Bool × RulesetIdentity × Bool × List Text). (t.0, t.1, t.2, t.3))
      (execute_single_expr-Unchanged ops settings e (ctx x.asks) x.scope
        (λ v d. output-settings e.output v d))

-- A foreach stage leaves the settings that stages look at as they are.
pub for_each_stage-KeepsModes :
    (ops : Arith) (schedule : List Stage → List Stage) (f : ForEach)
    → KeepsModes (for_each_stage ops schedule f)
for_each_stage-KeepsModes ops schedule f ctx x =
    ap (λ (t : Bool × Bool × RulesetIdentity × Bool × List Text). (t.0, t.1, t.2, t.3))
      (execute_for_each-settings ops f schedule ctx x)
