-- ===== src/Stage.antt =====
-- pipe/stage.go: the Stage interface, as a record of what a stage answers. A context is asked for
-- its error at certain points: whether it is cancelled depends on how often it was asked before.
use rlng.Base.{ℕ, suc, Bool, List, ⊤}
use rlng.Base.Text.{Text}
use rlng.Error.{Result, StageType, decision_table}
use rlng.Value.{Arith}
use rlng.Scope.{Scope}
use rlng.Scope.Action.{Action}
use rlng.Table.{DecisionTable}
use rlng.Table.Execute.{execute_table}

abbrev pub Context : Type 0
Context = ℕ → Bool

-- The Scope, and how often the context was asked.
pub record Exec : Type 0 where
  pub scope : Scope
  pub asks : ℕ

abbrev pub Step : Type 0
Step = Exec → Result ⊤ × Exec

pub record Stage : Type 0 where
  pub name : Text
  pub kind : StageType
  pub depends_on : List Text
  pub execute : Context → Step

-- A stage that asks the context once, at its start.
abbrev pub asking : (Bool → Action ⊤) → Context → Step
asking m ctx x = let (r, s) = m (ctx x.asks) x.scope in (r, record { scope = s; asks = suc x.asks })

abbrev pub table_stage : Arith → DecisionTable → Stage
table_stage ops d = record {
  name = d.name;
  kind = decision_table;
  depends_on = d.deps;
  execute = asking (execute_table ops d);
}
