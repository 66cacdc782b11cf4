-- ===== src/Pipeline/Timed.antt =====
-- pipe/pipeline.go with the clock: `Run`, `runSequential`, `runWaves` and `runLevel` as they stamp
-- the timing of a Scope.
use rlng.Base.{Option, none, some, List, [], ◌∷◌, ⊤, if◌then◌else◌}
use rlng.Base.Int.{eqb_ℤ, pos}
use rlng.Base.Dict.{Dict}
use rlng.Error.{Error, cancelled, Result, ok, err}
use rlng.Scope.Action.{stamp_ruleset}
use rlng.Stage.{Context, Stage}
use rlng.Pipeline.{names}
use rlng.Pipeline.Build.{Pipeline}
use rlng.Pipeline.Run.{on_scope, asked, note_error, first_error, mark_concurrent}
use rlng.Pipeline.Timing.{
  Clock, Timed, on_exec, mark_started, mark_finished, timed_stage, reorder_timed,
}

abbrev pub TimedStep : Type 0
TimedStep = Timed → Result ⊤ × Timed

abbrev pub timed_after : Result ⊤ × Timed → TimedStep → Result ⊤ × Timed
timed_after (ok done, x) next = next x
timed_after (err e, x) next = (err e, x)

abbrev pub timed_settle : Option Error → Timed → TimedStep → Result ⊤ × Timed
timed_settle none x next = next x
timed_settle (some e) x next = (err e, x)

abbrev pub finish : Clock → Result ⊤ × Timed → Result ⊤ × Timed
finish clock (r, x) = (r, record x { timing = mark_finished clock x.timing })

module _ (clock : Clock) (ctx : Context) where
  unfoldable pub timed_sequential : List Stage → TimedStep
  timed_sequential [] x = (ok tt, x)
  timed_sequential (s ∷ ss) x =
      if ctx x.exec.asks
      then (err cancelled, on_exec asked x)
      else timed_after (timed_stage clock s.name (s.execute ctx) (on_exec asked x))
          (timed_sequential ss)

  unfoldable pub timed_level : List Stage → Dict Error → Timed → Dict Error × Timed
  timed_level [] errs x = (errs, x)
  timed_level (s ∷ ss) errs x =
      let (r, x') = timed_stage clock s.name (s.execute ctx) x in
      timed_level ss (note_error s.name r errs) x'

  unfoldable pub timed_levels :
      (List Stage → List Stage) → List Stage → List (List Stage) → TimedStep
  timed_levels schedule ordered [] x = (ok tt, x)
  timed_levels schedule ordered (level ∷ levels) x =
      if ctx x.exec.asks
      then (err cancelled, on_exec asked x)
      else let (errs, x') = timed_level (schedule level) [] (on_exec asked x) in
        timed_settle (first_error ordered errs) x' (timed_levels schedule ordered levels)

  unfoldable pub timed_waves : (List Stage → List Stage) → Pipeline → TimedStep
  timed_waves schedule p x =
      let (r, x') = timed_levels schedule p.ordered p.levels x in
      (r, on_exec (on_scope (reorder_timed (names p.ordered) x'.timing.stage_times)) x')

  -- `Run`, with `markStarted` first and the deferred `markFinished`.
  unfoldable pub timed_run : (List Stage → List Stage) → Pipeline → TimedStep
  timed_run schedule p x =
      let x1 = record x { timing = mark_started clock x.timing } in
      let x2 = on_exec (on_scope (stamp_ruleset p.identity)) x1 in
      finish clock (
        if eqb_ℤ p.max_parallel (pos 0)
        then timed_sequential p.ordered x2
        else timed_waves schedule p (on_exec (on_scope (mark_concurrent p.wide)) x2))
