-- ===== src/Pipeline/Isolation.antt =====
-- Stages that keep to their namespace, and what a pipeline of them leaves alone.
use rlng.Base.{
  ◌≡◌, ◌≢◌, refl, ◌∙◌, Bool, true, false, Option, none, some, List, [], ◌∷◌, arith, ⊤, All, All-map,
  Among, All-within, Bool-cases, inl, inr,
}
use rlng.Base.Int.{eqb_ℤ, pos}
use rlng.Base.Text.{Text}
use rlng.Base.Dict.{Dict}
use rlng.Error.{Error, Result, ok, err}
use rlng.Value.{Arith}
use rlng.Table.{DecisionTable}
use rlng.Table.Frame.{execute_table-Keeps}
use rlng.Stage.{table_stage}
use rlng.Multi.{MultiExpr, multi_stage}
use rlng.Multi.Frame.{execute_multi-Keeps}
use rlng.Foreach.{ForEach, for_each_stage}
use rlng.Foreach.Elements.{execute_for_each-Keeps}
use rlng.Scope.{Scope}
use rlng.Scope.Action.{get, stamp_ruleset}
use rlng.Scope.Frame.{head_segment}
use rlng.Stage.{Context, Exec, Step, Stage}
use rlng.Pipeline.{names}
use rlng.Pipeline.Build.{Pipeline, PipelineOption, new_pipeline}
use rlng.Pipeline.Contents.{new_pipeline-All}
use rlng.Pipeline.Run.{
  record_stage, time_stage, after, asked, settle, run_sequential, run_level, run_levels, run_waves,
  reorder_stages, mark_concurrent, run,
}

-- The stage changes nothing at paths outside of its own namespace.
abbrev pub IsNamespaced : Stage → Type 0
IsNamespaced s =
    (q : Text) (ctx : Context) (x : Exec)
    → head_segment s.name ≢ head_segment q
    → get q (s.execute ctx x).1.scope ≡ get q x.scope

module _ (q : Text) where
  -- The stage changes nothing at `q`.
  abbrev pub StageKeeps : Stage → Type 0
  StageKeeps s = (ctx : Context) (x : Exec) → get q (s.execute ctx x).1.scope ≡ get q x.scope

  record_stage-get : (name : Text) (s : Scope) → get q (record_stage name s) ≡ get q s
  unfolding get
  record_stage-get name s = ground arith

  pub time_stage-reads :
      (ctx : Context) (s : Stage) (x : Exec)
      → get q (time_stage s.name (s.execute ctx) x).1.scope ≡ get q (s.execute ctx x).1.scope
  unfolding time_stage
  time_stage-reads ctx s x = ground (arith, record_stage-get s.name (s.execute ctx x).1.scope)

  pub time_stage-get :
      (ctx : Context) (s : Stage) (x : Exec)
      → StageKeeps s
      → get q (time_stage s.name (s.execute ctx) x).1.scope ≡ get q x.scope
  time_stage-get ctx s x keeps = time_stage-reads ctx s x ∙ keeps ctx x

  after-get :
      (x : Exec) (r : Result ⊤ × Exec) (next : Step)
      → get q r.1.scope ≡ get q x.scope
      → ((y : Exec) → get q (next y).1.scope ≡ get q y.scope)
      → get q (after r next).1.scope ≡ get q x.scope
  after-get x (ok done, y) next h k = k y ∙ h
  after-get x (err e, y) next h k = h

  run_sequential-get :
      (ctx : Context) (ss : List Stage) (x : Exec)
      → All StageKeeps ss
      → get q (run_sequential ctx ss x).1.scope ≡ get q x.scope
  unfolding run_sequential
  run_sequential-get ctx [] x h = refl
  run_sequential-get ctx (s ∷ ss) x h = elim (Bool-cases (ctx x.asks)) [
    | inl cancelled ↦ rw (cancelled, run_sequential)
    | inr going ↦
        rw (going, run_sequential)
          (after-get x (time_stage s.name (s.execute ctx) (asked x)) (run_sequential ctx ss)
            (time_stage-get ctx s (asked x) h.0) (λ y. run_sequential-get ctx ss y h.1))
  ]

  pub run_level-get :
      (ctx : Context) (ss : List Stage) (errs : Dict Error) (x : Exec)
      → All StageKeeps ss
      → get q (run_level ctx ss errs x).1.scope ≡ get q x.scope
  unfolding run_level
  run_level-get ctx [] errs x h = refl
  run_level-get ctx (s ∷ ss) errs x h =
      run_level-get ctx ss _ (time_stage s.name (s.execute ctx) x).1 h.1
      ∙ time_stage-get ctx s x h.0

  settle-get :
      (x y : Exec) (e : Option Error) (next : Step)
      → get q y.scope ≡ get q x.scope
      → ((z : Exec) → get q (next z).1.scope ≡ get q z.scope)
      → get q (settle e y next).1.scope ≡ get q x.scope
  settle-get x y none next h k = k y ∙ h
  settle-get x y (some e) next h k = h

  run_levels-get :
      (ctx : Context) (schedule : List Stage → List Stage) (ordered : List Stage)
      (levels : List (List Stage)) (x : Exec)
      → ((l : List Stage) → All StageKeeps l → All StageKeeps (schedule l))
      → All (All StageKeeps) levels
      → get q (run_levels ctx schedule ordered levels x).1.scope ≡ get q x.scope
  unfolding run_levels
  run_levels-get ctx schedule ordered [] x sh h = refl
  run_levels-get ctx schedule ordered (l ∷ ls) x sh h = elim (Bool-cases (ctx x.asks)) [
    | inl cancelled ↦ rw (cancelled, run_levels)
    | inr going ↦
        rw (going, run_levels)
          (settle-get x (run_level ctx (schedule l) [] (asked x)).1 _
            (run_levels ctx schedule ordered ls)
            (run_level-get ctx (schedule l) [] (asked x) (sh l h.0))
            (λ y. run_levels-get ctx schedule ordered ls y sh h.1))
  ]

  reorder-get : (topo : List Text) (s : Scope) → get q (reorder_stages topo s) ≡ get q s
  unfolding reorder_stages get
  reorder-get topo s = refl

  stamp-get : (p : Pipeline) (s : Scope) → get q (stamp_ruleset p.identity s) ≡ get q s
  unfolding stamp_ruleset get
  stamp-get p s = ground arith

  mark-get : (wide : Bool) (s : Scope) → get q (mark_concurrent wide s) ≡ get q s
  unfolding get
  mark-get true s = refl
  mark-get false s = refl

-- The stage keeps to its namespace, and the path lies outside of it.
abbrev pub Aside : Text → Stage → Type 0
Aside q s = IsNamespaced s × (head_segment s.name ≢ head_segment q)

Aside-Keeps : (q : Text) (ss : List Stage) → All (Aside q) ss → All (StageKeeps q) ss
Aside-Keeps q ss = All-map (Aside q) (StageKeeps q) ss (λ s h ctx x. h.0 q ctx x h.1)

run-get_ordered :
    (q : Text) (ctx : Context) (schedule : List Stage → List Stage) (p : Pipeline) (x : Exec)
    → ((l : List Stage) → All (λ s. Among s l) (schedule l))
    → All (Aside q) p.ordered
    → All (All (Aside q)) p.levels
    → get q (run ctx schedule p x).1.scope ≡ get q x.scope
unfolding run run_waves
run-get_ordered q ctx schedule p x sh ordered levels =
    elim (Bool-cases (eqb_ℤ p.max_parallel (pos 0))) [
      | inl sequential ↦
          rw (sequential, run)
            (run_sequential-get q ctx p.ordered _ (Aside-Keeps q p.ordered ordered)
              ∙ stamp-get q p x.scope)
      | inr waves ↦
          rw (waves, run)
            (reorder-get q (names p.ordered) _
              ∙ run_levels-get q ctx schedule p.ordered p.levels _
                  (λ l. All-within (StageKeeps q) l (schedule l) (sh l))
                  (All-map (All (Aside q)) (All (StageKeeps q)) p.levels (Aside-Keeps q) levels)
              ∙ mark-get q p.wide (stamp_ruleset p.identity x.scope)
              ∙ stamp-get q p x.scope)
    ]

-- Let every stage given to NewPipeline keep to its namespace and have a name whose first segment
-- is not that of the path `q`, and let the scheduler run in each level only stages of it. Then a
-- run, sequential or in waves, successful or not, does not change what is read at `q`.
pub run-get :
    (q : Text) (ctx : Context) (schedule : List Stage → List Stage) (stages : List Stage)
    (opts : List PipelineOption) (p : Pipeline) (x : Exec)
    → ((l : List Stage) → All (λ s. Among s l) (schedule l))
    → new_pipeline stages opts ≡ ok p
    → All (Aside q) stages
    → get q (run ctx schedule p x).1.scope ≡ get q x.scope
run-get q ctx schedule stages opts p x sh built aside =
    let (ordered, levels) = new_pipeline-All (Aside q) stages opts built aside in
    run-get_ordered q ctx schedule p x sh ordered levels

-- A decision table keeps to its namespace.
pub table_stage-IsNamespaced : (ops : Arith) (d : DecisionTable) → IsNamespaced (table_stage ops d)
table_stage-IsNamespaced ops d q ctx x apart =
    execute_table-Keeps ops q d apart (ctx x.asks) x.scope

-- A MultiExpr keeps to its namespace.
pub multi_stage-IsNamespaced : (m : MultiExpr) → IsNamespaced (multi_stage m)
multi_stage-IsNamespaced m q ctx x apart = execute_multi-Keeps q m (ctx x.asks) x.scope apart

-- A foreach stage keeps to its namespace, whatever its inner pipeline does.
pub for_each_stage-IsNamespaced :
    (ops : Arith) (schedule : List Stage → List Stage) (f : ForEach)
    → IsNamespaced (for_each_stage ops schedule f)
for_each_stage-IsNamespaced ops schedule f q ctx x apart =
    execute_for_each-Keeps ops q f apart schedule ctx x
