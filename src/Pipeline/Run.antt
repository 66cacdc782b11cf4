-- ===== src/Pipeline/Run.antt =====
-- Running a pipeline: `Run`, `runSequential`, `runWaves` and `runLevel`. The stages of a level run
-- one after another in an order that the scheduler chooses, `schedule`.
use rlng.Base.{suc, Bool, true, false, Option, none, some, List, [], ◌∷◌, ◌++◌, ⊤, if◌then◌else◌}
use rlng.Base.Int.{eqb_ℤ, pos}
use rlng.Base.Text.{Text}
use rlng.Base.Dict.{Dict, lookup, insert}
use rlng.Error.{Error, cancelled, panic, Result, ok, err}
use rlng.Scope.{Scope}
use rlng.Scope.Action.{stamp_ruleset}
use rlng.Stage.{Context, Exec, Step, Stage}
use rlng.Pipeline.{mem_text, names}
use rlng.Pipeline.Build.{Pipeline}

abbrev pub on_scope : (Scope → Scope) → Exec → Exec
on_scope f x = record x { scope = f x.scope }

-- What `timeStage` records of the order in which stages ran.
abbrev pub record_stage : Text → Scope → Scope
record_stage name s =
    if mem_text name s.stage_order
    then s
    else record s { stage_order = s.stage_order ++ (name ∷ []) }

abbrev pub is_panic : Result ⊤ → Bool
is_panic (err panic) = true
is_panic r = false

-- `timeStage`; a stage that panics is not recorded.
unfoldable pub time_stage : Text → Step → Step
time_stage name run x =
    let (r, x') = run x in (r, if is_panic r then x' else on_scope (record_stage name) x')

abbrev pub after : Result ⊤ × Exec → Step → Result ⊤ × Exec
after (ok done, x) next = next x
after (err e, x) next = (err e, x)

abbrev pub asked : Exec → Exec
asked x = record x { asks = suc x.asks }

-- `runSequential`
unfoldable pub run_sequential : Context → List Stage → Step
run_sequential ctx [] x = (ok tt, x)
run_sequential ctx (s ∷ ss) x =
    if ctx x.asks
    then (err cancelled, asked x)
    else after (time_stage s.name (s.execute ctx) (asked x)) (run_sequential ctx ss)

abbrev pub note_error : Text → Result ⊤ → Dict Error → Dict Error
note_error name (ok done) errs = errs
note_error name (err e) errs = insert name e errs

-- `runLevel`: every stage of the level runs, and the errors are kept by name.
unfoldable pub run_level : Context → List Stage → Dict Error → Exec → Dict Error × Exec
run_level ctx [] errs x = (errs, x)
run_level ctx (s ∷ ss) errs x =
    let (r, x') = time_stage s.name (s.execute ctx) x in
    run_level ctx ss (note_error s.name r errs) x'

-- The topo-earliest failure.
unfoldable pub first_error : List Stage → Dict Error → Option Error
first_error [] errs = none
first_error (s ∷ ss) errs = elim (lookup s.name errs) [
  | none ↦ first_error ss errs
  | some e ↦ some e
]

abbrev pub settle : Option Error → Exec → Step → Result ⊤ × Exec
settle none x next = next x
settle (some e) x next = (err e, x)

-- The loop of `runWaves` over the levels.
unfoldable pub run_levels :
    Context → (List Stage → List Stage) → List Stage → List (List Stage) → Step
run_levels ctx schedule ordered [] x = (ok tt, x)
run_levels ctx schedule ordered (level ∷ levels) x =
    if ctx x.asks
    then (err cancelled, asked x)
    else let (errs, x') = run_level ctx (schedule level) [] (asked x) in
      settle (first_error ordered errs) x' (run_levels ctx schedule ordered levels)

abbrev pub keep_ran : List Text → List Text → List Text
keep_ran ran [] = []
keep_ran ran (name ∷ topo) =
    if mem_text name ran then name ∷ keep_ran ran topo else keep_ran ran topo

-- `reorderStages`
unfoldable pub reorder_stages : List Text → Scope → Scope
reorder_stages topo s = record s { stage_order = keep_ran s.stage_order topo }

-- `runWaves`
unfoldable pub run_waves : Context → (List Stage → List Stage) → Pipeline → Step
run_waves ctx schedule p x =
    let (r, x') = run_levels ctx schedule p.ordered p.levels x in
    (r, on_scope (reorder_stages (names p.ordered)) x')

abbrev pub mark_concurrent : Bool → Scope → Scope
mark_concurrent wide s = if wide then record s { concurrent = true } else s

-- `Run`
unfoldable pub run : Context → (List Stage → List Stage) → Pipeline → Step
run ctx schedule p x =
    let x' = on_scope (stamp_ruleset p.identity) x in
    if eqb_ℤ p.max_parallel (pos 0)
    then run_sequential ctx p.ordered x'
    else run_waves ctx schedule p (on_scope (mark_concurrent p.wide) x')
