-- ===== src/Pipeline/Clocked.antt =====
-- pipe/timing.go and pipeline.go: a run with the clock does what the run without it does.
use rlng.Base.{
  ◌≡◌, refl, sym, ◌∙◌, subst, Option-cases, Bool, true, false, List, [], ◌∷◌, arith, ⊤, All, Among,
  All-within, Bool-cases, inl, inr, ap,
}
use rlng.Base.Int.{eqb_ℤ, pos}
use rlng.Base.Text.{Text}
use rlng.Base.Dict.{Dict}
use rlng.Error.{Error, Result, ok, err}
use rlng.Scope.{Scope}
use rlng.Scope.Action.{stamp_ruleset}
use rlng.Stage.{Context, Exec, Step, Stage}
use rlng.Pipeline.{names, mem_text}
use rlng.Pipeline.Build.{Pipeline, PipelineOption, new_pipeline}
use rlng.Pipeline.Contents.{new_pipeline-All}
use rlng.Pipeline.Run.{
  time_stage, after, asked, settle, run_sequential, run_level, run_levels, run_waves, is_panic,
  reorder_stages, mark_concurrent, run, note_error, first_error, on_scope,
}
use rlng.Pipeline.Timing.{Clock, Timing, Timed, on_exec, timed_stage, mark_started}
use rlng.Pipeline.Tracked.{Agrees, Agrees-insert, reorder_timed-eq}
use rlng.Pipeline.Timed.{
  TimedStep, timed_after, timed_settle, timed_sequential, timed_level, timed_levels, timed_waves,
  timed_run,
}

-- The stage leaves the recorded order of the Scope's stages to the pipeline.
abbrev pub KeepsOrder : Stage → Type 0
KeepsOrder s =
    (ctx : Context) (x : Exec) → (s.execute ctx x).1.scope.stage_order ≡ x.scope.stage_order

-- The same error or success in the same state, and the times agree with the order.
abbrev Refines : Result ⊤ × Timed → Result ⊤ × Exec → Type 0
Refines t b =
    (t.0 ≡ b.0) × (t.1.exec ≡ b.1) × Agrees t.1.timing.stage_times t.1.exec.scope.stage_order

abbrev Tracked : Timed → Type 0
Tracked x = Agrees x.timing.stage_times x.exec.scope.stage_order

abbrev RefinesLevel : Dict Error × Timed → Dict Error × Exec → Type 0
RefinesLevel t b =
    (t.0 ≡ b.0) × (t.1.exec ≡ b.1) × Agrees t.1.timing.stage_times t.1.exec.scope.stage_order

timed_after-Refines :
    (t : Result ⊤ × Timed) (b : Result ⊤ × Exec) (f : TimedStep) (g : Step)
    → Refines t b
    → ((y : Timed) → Tracked y → Refines (f y) (g y.exec))
    → Refines (timed_after t f) (after b g)
timed_after-Refines (ok done, y) b f g (r, e, k) next = rw (sym r, sym e) (next y k)
timed_after-Refines (err e, y) b f g (r, d, k) next = rw (sym r, sym d) (refl, refl, k)

timed_settle-Refines :
    (ordered : List Stage) (t : Dict Error × Timed) (b : Dict Error × Exec) (f : TimedStep)
    (g : Step)
    → RefinesLevel t b
    → ((y : Timed) → Tracked y → Refines (f y) (g y.exec))
    → Refines
        (timed_settle (first_error ordered t.0) t.1 f)
        (settle (first_error ordered b.0) b.1 g)
timed_settle-Refines ordered (errs, y) b f g (r, e, k) next =
    rw (sym r, sym e)
      (elim (Option-cases (first_error ordered errs)) [
        | inl f0 ↦ rw f0 (next y k)
        | inr (x, f0) ↦ rw f0 (refl, refl, k)
      ])

stamp-order : (p : Pipeline) (s : Scope) → (stamp_ruleset p.identity s).stage_order ≡ s.stage_order
unfolding stamp_ruleset
stamp-order p s = ground arith

mark-order : (wide : Bool) (s : Scope) → (mark_concurrent wide s).stage_order ≡ s.stage_order
mark-order true s = refl
mark-order false s = refl

abbrev started : Clock → Pipeline → Timed → Timed
started clock p x =
    on_exec (on_scope (stamp_ruleset p.identity))
      (record x { timing = mark_started clock x.timing })

module _ (clock : Clock) (ctx : Context) where
  timed_stage-Refines_at :
      (name : Text) (ran : Result ⊤ × Exec) (t : Timing)
      → Agrees t.stage_times ran.1.scope.stage_order
      → Refines
          (timed_stage clock name (λ y. ran) (record { exec = ran.1; timing = t }))
          (time_stage name (λ y. ran) ran.1)
  unfolding timed_stage time_stage
  timed_stage-Refines_at name (r, e) t h = elim (Bool-cases (is_panic r)) [
    | inl p ↦ rw p (refl, refl, h)
    | inr p ↦ rw (p, h name) (refl, refl, Agrees-insert name _ t.stage_times e.scope h)
  ]

  timed_stage-Refines :
      (s : Stage) (x : Timed)
      → KeepsOrder s
      → Tracked x
      → Refines
          (timed_stage clock s.name (s.execute ctx) x)
          (time_stage s.name (s.execute ctx) x.exec)
  unfolding timed_stage time_stage
  timed_stage-Refines s x keeps h =
      let t = λ (name : Text). h name ∙ ap (mem_text name) (sym (keeps ctx x.exec)) in
      timed_stage-Refines_at s.name (s.execute ctx x.exec) x.timing t

  timed_sequential-Refines :
      (ss : List Stage) (x : Timed)
      → All KeepsOrder ss
      → Tracked x
      → Refines (timed_sequential clock ctx ss x) (run_sequential ctx ss x.exec)
  unfolding timed_sequential run_sequential
  timed_sequential-Refines [] x h k = (refl, refl, k)
  timed_sequential-Refines (s ∷ ss) x h k = elim (Bool-cases (ctx x.exec.asks)) [
    | inl cancelled ↦ rw (cancelled, timed_sequential, run_sequential) (refl, refl, k)
    | inr going ↦
        rw (going, timed_sequential, run_sequential)
          (timed_after-Refines (timed_stage clock s.name (s.execute ctx) (on_exec asked x))
            (time_stage s.name (s.execute ctx) (asked x.exec)) (timed_sequential clock ctx ss)
            (run_sequential ctx ss) (timed_stage-Refines s (on_exec asked x) h.0 k)
            (λ y. timed_sequential-Refines ss y h.1))
  ]

  timed_level-Refines :
      (ss : List Stage) (errs : Dict Error) (x : Timed)
      → All KeepsOrder ss
      → Tracked x
      → RefinesLevel (timed_level clock ctx ss errs x) (run_level ctx ss errs x.exec)
  unfolding timed_level run_level
  timed_level-Refines [] errs x h k = (refl, refl, k)
  timed_level-Refines (s ∷ ss) errs x h k =
      let (r, e, t) = timed_stage-Refines s x h.0 k in
      let y = timed_stage clock s.name (s.execute ctx) x in
      subst
        (λ (b : Result ⊤ × Exec).
          RefinesLevel (timed_level clock ctx ss (note_error s.name y.0 errs) y.1)
            (run_level ctx ss (note_error s.name b.0 errs) b.1))
        (λ i. (r i, e i)) (timed_level-Refines ss (note_error s.name y.0 errs) y.1 h.1 t)

  timed_levels-Refines :
      (schedule : List Stage → List Stage) (ordered : List Stage) (levels : List (List Stage))
      (x : Timed)
      → ((l : List Stage) → All (λ s. Among s l) (schedule l))
      → All (All KeepsOrder) levels
      → Tracked x
      → Refines
          (timed_levels clock ctx schedule ordered levels x)
          (run_levels ctx schedule ordered levels x.exec)
  unfolding timed_levels run_levels
  timed_levels-Refines schedule ordered [] x sh h k = (refl, refl, k)
  timed_levels-Refines schedule ordered (l ∷ ls) x sh h k = elim (Bool-cases (ctx x.exec.asks)) [
    | inl cancelled ↦ rw (cancelled, timed_levels, run_levels) (refl, refl, k)
    | inr going ↦
        rw (going, timed_levels, run_levels)
          (timed_settle-Refines ordered (timed_level clock ctx (schedule l) [] (on_exec asked x))
            (run_level ctx (schedule l) [] (asked x.exec))
            (timed_levels clock ctx schedule ordered ls) (run_levels ctx schedule ordered ls)
            (timed_level-Refines (schedule l) [] (on_exec asked x)
              (All-within KeepsOrder l (schedule l) (sh l) h.0) k)
            (λ y. timed_levels-Refines schedule ordered ls y sh h.1))
  ]

  timed_waves-eq :
      (schedule : List Stage → List Stage) (p : Pipeline) (x : Timed)
      → ((l : List Stage) → All (λ s. Among s l) (schedule l))
      → All (All KeepsOrder) p.levels
      → Tracked x
      → ((timed_waves clock ctx schedule p x).0 ≡ (run_waves ctx schedule p x.exec).0)
        × ((timed_waves clock ctx schedule p x).1.exec ≡ (run_waves ctx schedule p x.exec).1)
  unfolding timed_waves run_waves
  timed_waves-eq schedule p x sh h k =
      let (r, e, t) = timed_levels-Refines schedule p.ordered p.levels x sh h k in
      let y = (timed_levels clock ctx schedule p.ordered p.levels x).1 in
      (
        r,
        (λ i.
              on_scope
                (λ s. reorder_timed-eq (names p.ordered) y.timing.stage_times y.exec.scope t i)
                y.exec)
            ∙ ap (on_scope (reorder_stages (names p.ordered))) e,
      )

  timed_run-eq_ordered :
      (schedule : List Stage → List Stage) (p : Pipeline) (x : Timed)
      → ((l : List Stage) → All (λ s. Among s l) (schedule l))
      → All KeepsOrder p.ordered
      → All (All KeepsOrder) p.levels
      → Tracked x
      → ((timed_run clock ctx schedule p x).0 ≡ (run ctx schedule p x.exec).0)
        × ((timed_run clock ctx schedule p x).1.exec ≡ (run ctx schedule p x.exec).1)
  unfolding timed_run run
  timed_run-eq_ordered schedule p x sh ordered levels k =
      let x1 = started clock p x in
      let k1 = λ (t : Text). k t ∙ ap (mem_text t) (sym (stamp-order p x.exec.scope)) in
      elim (Bool-cases (eqb_ℤ p.max_parallel (pos 0))) [
        | inl sequential ↦
            let (r, e, t) = timed_sequential-Refines p.ordered x1 ordered k1 in
            rw (sequential, timed_run, run) (r, e)
        | inr waves ↦
            let (r, e) =
              timed_waves-eq schedule p (on_exec (on_scope (mark_concurrent p.wide)) x1) sh levels
                (λ (t : Text). k1 t ∙ ap (mem_text t) (sym (mark-order p.wide x1.exec.scope))) in
            rw (waves, timed_run, run) (r, e)
      ]

-- Let every stage given to NewPipeline leave the recorded order of stages to the pipeline, let the
-- scheduler run in each level only stages of it, and let the Scope have a time for exactly the
-- stages in its order, as one has that no run has stamped. Then a run with the clock, sequential or
-- in waves, returns what the run without one returns and leaves the same Scope, order included.
pub timed_run-eq-run :
    (clock : Clock) (ctx : Context) (schedule : List Stage → List Stage) (stages : List Stage)
    (opts : List PipelineOption) (p : Pipeline) (x : Timed)
    → ((l : List Stage) → All (λ s. Among s l) (schedule l))
    → new_pipeline stages opts ≡ ok p
    → All KeepsOrder stages
    → Agrees x.timing.stage_times x.exec.scope.stage_order
    → ((timed_run clock ctx schedule p x).0 ≡ (run ctx schedule p x.exec).0)
      × ((timed_run clock ctx schedule p x).1.exec ≡ (run ctx schedule p x.exec).1)
timed_run-eq-run clock ctx schedule stages opts p x sh built keeps k =
    let (ordered, levels) = new_pipeline-All KeepsOrder stages opts built keeps in
    timed_run-eq_ordered clock ctx schedule p x sh ordered levels k
