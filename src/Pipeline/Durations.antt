-- ===== src/Pipeline/Durations.antt =====
-- pipe/timing.go: what the recorded durations say under a clock that never goes back.
use rlng.Base.{
  ℕ, suc, ◌≡◌, ◌≤◌, refl, subst, Option, none, some, List, [], ◌∷◌, arith, ⊤, Bool-cases, inl, inr,
}
use rlng.Base.Int.{ℤ, pos, eqb_ℤ, ◌≤ℤ◌}
use rlng.Base.Text.{Text, text_eq}
use rlng.Base.Dict.{Dict, lookup, lookup-insert}
use rlng.Error.{Error, Result, ok, err}
use rlng.Scope.Action.{stamp_ruleset}
use rlng.Stage.{Context, Step, Stage}
use rlng.Pipeline.Build.{Pipeline}
use rlng.Pipeline.Run.{asked, note_error, is_panic, on_scope, mark_concurrent}
use rlng.Pipeline.Timing.{
  Clock, Timing, Timed, on_exec, timed_stage, elapsed, stage_duration, mark_started, note_time,
  read,
}
use rlng.Pipeline.Timed.{
  TimedStep, timed_after, timed_settle, timed_sequential, timed_level, timed_levels, timed_waves,
  timed_run, finish,
}

-- The clock never goes back.
abbrev pub IsMonotone : Clock → Type 0
IsMonotone clock = (n : ℕ) → clock n ≤ clock (suc n)

elapsed-bounds :
    (a b c d : ℕ) → a ≤ b → b ≤ c → c ≤ d → (pos 0 ≤ℤ elapsed c b) × (elapsed c b ≤ℤ elapsed d a)
unfolding elapsed
elapsed-bounds a b c d h k l = ground arith

elapsed-mono : (a b c : ℕ) → a ≤ b → b ≤ c → elapsed b a ≤ℤ elapsed c a
unfolding elapsed
elapsed-mono a b c h k = ground arith

abbrev Bounded : ℤ → Option ℤ → Type 0
Bounded total none = ⊤
Bounded total (some d) = (pos 0 ≤ℤ d) × (d ≤ℤ total)

-- Every recorded time lies between 0 and what has passed since the start.
abbrev Within : Clock → ℕ → Timing → Type 0
Within clock start t =
    (start ≤ clock t.readings)
    × ((name : Text) → Bounded (elapsed (clock t.readings) start) (stage_duration name t))
    × (t.started_at ≡ start)

Bounded-mono : (a b : ℤ) (o : Option ℤ) → a ≤ℤ b → Bounded a o → Bounded b o
Bounded-mono a b none h k = tt
Bounded-mono a b (some d) h k = (k.0, omega (arith, k.1, h))

module _ (clock : Clock) (mono : IsMonotone clock) (start : ℕ) where
  read-Within : (t : Timing) → Within clock start t → Within clock start (read t)
  read-Within t h = (
    omega (arith, h.0, mono t.readings),
    λ name.
        Bounded-mono _ _ (stage_duration name t)
          (elapsed-mono start (clock t.readings) (clock (suc t.readings)) h.0 (mono t.readings))
          (h.1 name),
    h.2,
  )

  note_time-Within :
      (name : Text) (t : Timing)
      → Within clock start t
      → Within clock start
          (note_time name (elapsed (clock (suc t.readings)) (clock t.readings)) (read (read t)))
  note_time-Within name t h =
      let (later, kept, from) = read-Within (read t) (read-Within t h) in
      (
        later,
        λ other. elim (Bool-cases (text_eq name other)) [
          | inl same ↦
              rw (lookup-insert, same)
                (elapsed-bounds start (clock t.readings) (clock (suc t.readings))
                  (clock (suc (suc t.readings))) h.0 (mono t.readings) (mono (suc t.readings)))
          | inr apart ↦ rw (lookup-insert, apart) (kept other)
        ],
        from,
      )

  timed_stage-Within :
      (name : Text) (step : Step) (x : Timed)
      → Within clock start x.timing
      → Within clock start (timed_stage clock name step x).1.timing
  unfolding timed_stage
  timed_stage-Within name step x h = elim (Bool-cases (is_panic (step x.exec).0)) [
    | inl p ↦ rw (p, timed_stage) (read-Within x.timing h)
    | inr p ↦ rw (p, timed_stage) (note_time-Within name x.timing h)
  ]

  timed_after-Within :
      (r : Result ⊤ × Timed) (f : TimedStep)
      → Within clock start r.1.timing
      → ((y : Timed) → Within clock start y.timing → Within clock start (f y).1.timing)
      → Within clock start (timed_after r f).1.timing
  timed_after-Within (ok done, y) f h next = next y h
  timed_after-Within (err e, y) f h next = h

  timed_settle-Within :
      (o : Option Error) (y : Timed) (f : TimedStep)
      → Within clock start y.timing
      → ((z : Timed) → Within clock start z.timing → Within clock start (f z).1.timing)
      → Within clock start (timed_settle o y f).1.timing
  timed_settle-Within none y f h next = next y h
  timed_settle-Within (some e) y f h next = h

  module _ (ctx : Context) where
    timed_sequential-Within :
        (ss : List Stage) (x : Timed)
        → Within clock start x.timing
        → Within clock start (timed_sequential clock ctx ss x).1.timing
    unfolding timed_sequential
    timed_sequential-Within [] x h = h
    timed_sequential-Within (s ∷ ss) x h = elim (Bool-cases (ctx x.exec.asks)) [
      | inl cancelled ↦ rw (cancelled, timed_sequential) h
      | inr going ↦
          rw (going, timed_sequential)
            (timed_after-Within _ (timed_sequential clock ctx ss)
              (timed_stage-Within s.name (s.execute ctx) (on_exec asked x) h)
              (timed_sequential-Within ss))
    ]

    timed_level-Within :
        (ss : List Stage) (errs : Dict Error) (x : Timed)
        → Within clock start x.timing
        → Within clock start (timed_level clock ctx ss errs x).1.timing
    unfolding timed_level
    timed_level-Within [] errs x h = h
    timed_level-Within (s ∷ ss) errs x h =
        timed_level-Within ss
          (note_error s.name (timed_stage clock s.name (s.execute ctx) x).0 errs)
          (timed_stage clock s.name (s.execute ctx) x).1
          (timed_stage-Within s.name (s.execute ctx) x h)

    timed_levels-Within :
        (schedule : List Stage → List Stage) (ordered : List Stage) (levels : List (List Stage))
        (x : Timed)
        → Within clock start x.timing
        → Within clock start (timed_levels clock ctx schedule ordered levels x).1.timing
    unfolding timed_levels
    timed_levels-Within schedule ordered [] x h = h
    timed_levels-Within schedule ordered (l ∷ ls) x h = elim (Bool-cases (ctx x.exec.asks)) [
      | inl cancelled ↦ rw (cancelled, timed_levels) h
      | inr going ↦
          rw (going, timed_levels)
            (timed_settle-Within _ _ (timed_levels clock ctx schedule ordered ls)
              (timed_level-Within (schedule l) [] (on_exec asked x) h)
              (timed_levels-Within schedule ordered ls))
    ]

timed_waves-Within :
    (clock : Clock) (mono : IsMonotone clock) (start : ℕ) (ctx : Context)
    (schedule : List Stage → List Stage) (p : Pipeline) (x : Timed)
    → Within clock start x.timing
    → Within clock start (timed_waves clock ctx schedule p x).1.timing
unfolding timed_waves
timed_waves-Within clock mono start ctx schedule p x h =
    timed_levels-Within clock mono start ctx schedule p.ordered p.levels x h

finish-Bounded :
    (clock : Clock) (start : ℕ) (r : Result ⊤ × Timed) (name : Text) (d : ℤ)
    → Within clock start r.1.timing
    → stage_duration name r.1.timing ≡ some d
    → (pos 0 ≤ℤ d) × (d ≤ℤ (finish clock r).1.timing.duration)
finish-Bounded clock start r name d h e =
    rw (h.2) (subst (Bounded (elapsed (clock r.1.timing.readings) start)) e (h.1 name))

-- Under a clock that never goes back, on a Scope without recorded times, whatever the stages do and
-- however the run ends, each stage's recorded duration is between 0 and the duration of the run.
pub timed_run-Bounded :
    (clock : Clock) (ctx : Context) (schedule : List Stage → List Stage) (p : Pipeline) (x : Timed)
    (name : Text) (d : ℤ)
    → IsMonotone clock
    → x.timing.stage_times ≡ []
    → stage_duration name (timed_run clock ctx schedule p x).1.timing ≡ some d
    → (pos 0 ≤ℤ d) × (d ≤ℤ (timed_run clock ctx schedule p x).1.timing.duration)
unfolding timed_run lookup
timed_run-Bounded clock ctx schedule p x name d mono fresh h =
    let x2 =
      on_exec (on_scope (stamp_ruleset p.identity))
        (record x { timing = mark_started clock x.timing }) in
    let base : Within clock (clock x.timing.readings) (mark_started clock x.timing) =
      (mono x.timing.readings, (λ other. rw (fresh, lookup) tt), refl) in
    elim (Bool-cases (eqb_ℤ p.max_parallel (pos 0))) [
      | inl sequential ↦
          rw (sequential, timed_run)
            (finish-Bounded clock _ (timed_sequential clock ctx p.ordered x2) name d
              (timed_sequential-Within clock mono _ ctx p.ordered x2 base)
              (rw (sequential, timed_run) at h))
      | inr waves ↦
          let x3 = on_exec (on_scope (mark_concurrent p.wide)) x2 in
          rw (waves, timed_run)
            (finish-Bounded clock _ (timed_waves clock ctx schedule p x3) name d
              (timed_waves-Within clock mono _ ctx schedule p x3 base) (rw (waves, timed_run) at h))
    ]
