-- ===== src/Pipeline/Timing.antt =====
-- pipe/timing.go: the clock of a Scope and what it stamps. A reading is in nanoseconds after the
-- zero time; `clock n` is the answer to reading number n. The order of the stages is the
-- `stage_order` of the Scope.
use rlng.Base.{
  ℕ, suc, ◌-◌, ◌^◌, Bool, Option, none, some, List, [], ◌∷◌, ◌++◌, ⊤, not, ltb, leb, ◌==◌,
  if◌then◌else◌,
}
use rlng.Base.Int.{ℤ, pos, negsuc, sub_ℕ}
use rlng.Base.Text.{Text}
use rlng.Base.Dict.{Dict, lookup, insert, contains}
use rlng.Error.{Result}
use rlng.Scope.{Scope}
use rlng.Stage.{Exec, Step}
use rlng.Pipeline.Run.{on_scope, is_panic}

abbrev pub Clock : Type 0
Clock = ℕ → ℕ

-- `WithClock`; a nil clock is ignored.
abbrev pub with_clock : Option Clock → Clock → Clock
with_clock none current = current
with_clock (some clock) current = clock

pub record Timing : Type 0 where
  pub readings : ℕ
  pub started_at : ℕ
  pub duration : ℤ
  pub stage_times : Dict ℤ

-- What a run under a clock carries.
pub record Timed : Type 0 where
  pub exec : Exec
  pub timing : Timing

-- A Scope that no run has stamped, before the first reading.
abbrev pub unstamped : Timing
unstamped = record { readings = 0; started_at = 0; duration = pos 0; stage_times = [] }

-- `time.Time.Sub`, which stops at the bounds of int64.
unfoldable pub elapsed : ℕ → ℕ → ℤ
elapsed stop start =
    if leb start stop
    then (if ltb (stop - start) (2 ^ 63) then pos (stop - start) else pos (2 ^ 63 - 1))
    else (if leb (start - stop) (2 ^ 63) then sub_ℕ stop start else negsuc (2 ^ 63 - 1))

abbrev pub on_exec : (Exec → Exec) → Timed → Timed
on_exec f x = record x { exec = f x.exec }

-- `markStarted`
abbrev pub mark_started : Clock → Timing → Timing
mark_started clock t = record t { readings = suc t.readings; started_at = clock t.readings }

-- `markFinished`
abbrev pub mark_finished : Clock → Timing → Timing
mark_finished clock t = record t {
  readings = suc t.readings;
  duration = elapsed (clock t.readings) t.started_at;
}

-- `timeStage` on the order of the stages: by the recorded times.
abbrev pub note_order : Text → Dict ℤ → Scope → Scope
note_order name times s =
    if contains name times then s else record s { stage_order = s.stage_order ++ (name ∷ []) }

abbrev pub note_time : Text → ℤ → Timing → Timing
note_time name d t = record t { stage_times = insert name d t.stage_times }

abbrev pub read : Timing → Timing
read t = record t { readings = suc t.readings }

-- `timeStage`. The second reading and what follows are not reached when the stage panics.
unfoldable pub timed_stage : Clock → Text → Step → Timed → Result ⊤ × Timed
timed_stage clock name step x =
    let start = clock x.timing.readings in
    let (r, e) = step x.exec in
    let t = read x.timing in
    (
      r,
      if is_panic r then record { exec = e; timing = t } else record {
        exec = on_scope (note_order name t.stage_times) e;
        timing = note_time name (elapsed (clock t.readings) start) (read t);
      },
    )

abbrev pub kept_times : Dict ℤ → List Text → List Text
kept_times times [] = []
kept_times times (name ∷ topo) =
    if contains name times then name ∷ kept_times times topo else kept_times times topo

-- `reorderStages`
unfoldable pub reorder_timed : List Text → Dict ℤ → Scope → Scope
reorder_timed topo [] s = s
reorder_timed topo (t ∷ ts) s = record s { stage_order = kept_times (t ∷ ts) topo }

-- `StageDuration`
abbrev pub stage_duration : Text → Timing → Option ℤ
stage_duration name t = lookup name t.stage_times

abbrev or_zero : Option ℤ → ℤ
or_zero none = pos 0
or_zero (some d) = d

-- `StageTimings`
unfoldable pub stage_timings : List Text → Timing → List (Text × ℤ)
stage_timings [] t = []
stage_timings (name ∷ order) t = (name, or_zero (lookup name t.stage_times)) ∷ stage_timings order t

-- `StartedAt` and `Duration`; the flag is false at the zero time.
abbrev pub started_at : Timing → ℕ × Bool
started_at t = (t.started_at, not (t.started_at == 0))

abbrev pub duration : Timing → ℤ × Bool
duration t = (t.duration, not (t.started_at == 0))
