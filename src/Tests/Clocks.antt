-- ===== src/Tests/Clocks.antt =====
-- A run in waves under a clock that counts its readings.
use rlng.Base.{◌≡◌, refl, suc, ◌*◌, [], ◌∷◌, true, false, some, Among-All, arith}
use rlng.Base.Int.{pos, ◌≤ℤ◌}
use rlng.Base.Text.{Text, codes, text_eq}
use rlng.Base.Dict.{lookup, insert}
use rlng.Error.{ok, single_expr}
use rlng.Scope.{no_ruleset}
use rlng.Stage.{Stage}
use rlng.Pipeline.{mem_text}
use rlng.Pipeline.Build.{Pipeline, with_concurrency}
use rlng.Pipeline.Run.{run}
use rlng.Pipeline.Timing.{
  Clock, Timed, timed_stage, elapsed, unstamped, stage_duration, stage_timings,
}
use rlng.Pipeline.Timed.{timed_sequential, timed_run}
use rlng.Pipeline.Clocked.{timed_run-eq-run}
use rlng.Pipeline.Tracked.{Agrees}
use rlng.Pipeline.Settings.{
  table_stage-KeepsOrder, multi_stage-KeepsOrder, for_each_stage-KeepsOrder,
}
use rlng.Pipeline.Durations.{IsMonotone, timed_run-Bounded}
use rlng.Table.{policy_single}
use rlng.Tests.Data.{exact, table, rule}
use rlng.Tests.Stages.{three, wide, built, listed_start, multi, for_each, in_order, never}

-- Reading number n is 5 n + 5.
abbrev ticking : Clock
ticking n = 5 * suc n

abbrev timed_start : Timed
timed_start = record { exec = listed_start; timing = unstamped }

unstamped_order : Agrees [] listed_start.scope.stage_order
unfolding lookup mem_text
unstamped_order = λ name. refl

timed_run-eq-run_example :
    ((timed_run ticking never in_order wide timed_start).0
      ≡ (run never in_order wide listed_start).0)
    × ((timed_run ticking never in_order wide timed_start).1.exec
        ≡ (run never in_order wide listed_start).1)
timed_run-eq-run_example =
    timed_run-eq-run ticking never in_order three (with_concurrency ∷ []) wide timed_start Among-All
      built
      (
        multi_stage-KeepsOrder multi,
        (
          for_each_stage-KeepsOrder exact in_order for_each,
          (table_stage-KeepsOrder exact (table "t" policy_single (rule true 1 ∷ []) []), tt),
        ),
      )
      unstamped_order

abbrev idle : Text → Stage
idle name = record {
  name = name;
  kind = single_expr;
  depends_on = [];
  execute = λ ctx x. (ok tt, x);
}

abbrev two_idle : Pipeline
two_idle = record {
  ordered = idle (codes "a") ∷ idle (codes "b") ∷ [];
  levels = [];
  identity = no_ruleset;
  max_parallel = pos 0;
  wide = false;
}

ticking-IsMonotone : IsMonotone ticking
ticking-IsMonotone n = omega arith

b_duration :
    stage_duration (codes "b") (timed_run ticking never in_order two_idle timed_start).1.timing
    ≡ some (pos 5)
unfolding timed_run timed_sequential timed_stage lookup insert text_eq elapsed
b_duration = refl

timed_run-Bounded_example :
    (pos 0 ≤ℤ pos 5)
    × (pos 5 ≤ℤ (timed_run ticking never in_order two_idle timed_start).1.timing.duration)
timed_run-Bounded_example =
    timed_run-Bounded ticking never in_order two_idle timed_start (codes "b") (pos 5)
      ticking-IsMonotone refl b_duration

timings :
    stage_timings
      (codes "a" ∷ codes "b" ∷ [])
      (timed_run ticking never in_order two_idle timed_start).1.timing
    ≡ (codes "a", pos 5) ∷ (codes "b", pos 5) ∷ []
unfolding stage_timings timed_run timed_sequential timed_stage lookup insert text_eq elapsed
timings = refl
