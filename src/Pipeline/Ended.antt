-- ===== src/Pipeline/Ended.antt =====
-- A run that nobody cancels has run every stage of the pipeline.
use rlng.Base.{
  ℕ, zero, suc, ◌≡◌, refl, sym, subst, Bool, true, false, List, [], ◌∷◌, ◌++◌, All, Among,
  Bool-cases, inl, inr, All-Among, All-of, arith, All-Among,
}
use rlng.Base.Int.{pos, eqb_ℤ}
use rlng.Base.Dict.{Dict}
use rlng.Value.{Fields}
use rlng.Error.{ok}
use rlng.Scope.{Scope, RulesetIdentity}
use rlng.Scope.Action.{stamp_ruleset}
use rlng.Stage.{Context, Exec, Stage}
use rlng.Pipeline.{compute_levels, levels_from, level_of, place}
use rlng.Pipeline.Build.{Pipeline, PipelineOption, new_pipeline}
use rlng.Pipeline.Built.{new_pipeline-IsBuilt}
use rlng.Pipeline.Contents.{new_pipeline-All}
use rlng.Pipeline.Liveness.{IsGood, Delivers, IsOne, run_sequential-Reached, run_levels-Finished}
use rlng.Pipeline.Run.{on_scope, run_waves, reorder_stages, mark_concurrent, run}

module _ (P : Stage → Type 0) where
  All-left : (xs ys : List Stage) → All P (xs ++ ys) → All P xs × All P ys
  All-left [] ys h = (tt, h)
  All-left (x ∷ xs) ys h = let (l, r) = All-left xs ys h.1 in ((h.0, l), r)

  -- A stage that is placed at a level is there, with all that was there before.
  place-back :
      (n : ℕ) (s : Stage) (levels : List (List Stage))
      → All (All P) (place n s levels)
      → P s × All (All P) levels
  unfolding place
  place-back zero s [] h = (h.0.0, tt)
  place-back zero s (l ∷ ls) h =
      let (before, one) = All-left l (s ∷ []) h.0 in (one.0, (before, h.1))
  place-back (suc n) s [] h = ((place-back n s [] h.1).0, tt)
  place-back (suc n) s (l ∷ ls) h = let (one, rest) = place-back n s ls h.1 in (one, (h.0, rest))

  levels_from-back :
      (ss : List Stage) (lvl_of : Dict ℕ) (levels : List (List Stage))
      → All (All P) (levels_from ss lvl_of levels)
      → All P ss × All (All P) levels
  unfolding levels_from
  levels_from-back [] lvl_of levels h = (tt, h)
  levels_from-back (s ∷ ss) lvl_of levels h =
      let (later, placed) = levels_from-back ss _ _ h in
      let (one, rest) = place-back (level_of lvl_of s.depends_on 0) s levels placed in
      ((one, later), rest)

-- In waves, what holds of every stage of the levels holds of every stage of the order.
levels-back :
    (P : Stage → Type 0) (stages : List Stage) (opts : List PipelineOption) {p : Pipeline}
    → new_pipeline stages opts ≡ ok p
    → eqb_ℤ p.max_parallel (pos 0) ≡ false
    → All (All P) p.levels
    → All P p.ordered
unfolding compute_levels
levels-back P stages opts {p} built waves h =
    let (unique, known, sorted, levels) = new_pipeline-IsBuilt stages opts built in
    elim levels [
      | inl computed ↦ (levels_from-back P p.ordered [] [] (subst (All (All P)) computed h)).0
      | inr unused ↦ ground (arith, waves, unused.1)
    ]

stamp-same :
    (id : RulesetIdentity) (s : Scope)
    → ((stamp_ruleset id s).store ≡ s.store) × ((stamp_ruleset id s).strict ≡ s.strict)
unfolding stamp_ruleset
stamp-same id s = (ground arith, ground arith)

mark-same :
    (wide : Bool) (s : Scope)
    → ((mark_concurrent wide s).store ≡ s.store) × ((mark_concurrent wide s).strict ≡ s.strict)
mark-same true s = (refl, refl)
mark-same false s = (refl, refl)

module _ (Good : Fields → Bool → Type 0) (Done : Stage → Fields → Type 0) where
  IsGood-same :
      (s t : Scope)
      → (t.store ≡ s.store) × (t.strict ≡ s.strict)
      → IsGood Good Done s
      → IsGood Good Done t
  IsGood-same s t e good =
      subst (λ (m : Fields). Good m t.strict) (sym e.0)
        (subst (λ (q : Bool). Good s.store q) (sym e.1) good)

  -- Let `Good` be an invariant of the data and the strictness of a Scope, and `Done` say of each
  -- stage when it is done. Let each stage given to NewPipeline, from any Scope that is good, return no
  -- error, leave the Scope good and itself done, and undo no stage that is done. Let the context
  -- never be cancelled, and let the scheduler run in each level all its stages and no others. Then a
  -- run from a good Scope, sequential or in waves, returns no error, and leaves a good Scope on which
  -- every stage of the pipeline is done.
  pub run-ok :
      (ctx : Context) (schedule : List Stage → List Stage) (stages : List Stage)
      (opts : List PipelineOption) (p : Pipeline) (x : Exec)
      → ((n : ℕ) → ctx n ≡ false)
      → ((l : List Stage) → All (λ s. Among s l) (schedule l))
      → ((l : List Stage) → All (λ s. Among s (schedule l)) l)
      → new_pipeline stages opts ≡ ok p
      → All (Delivers Good Done ctx stages) stages
      → Good x.scope.store x.scope.strict
      → let r = run ctx schedule p x in
        (r.0 ≡ ok tt)
        × Good r.1.scope.store r.1.scope.strict
        × All (λ s. Done s r.1.scope.store) p.ordered
  unfolding run run_waves reorder_stages
  run-ok ctx schedule stages opts p x going within whole built h good =
      let one =
        All-of {P = IsOne Good Done ctx stages} stages
          (λ s m. (m, All-Among (Delivers Good Done ctx stages) stages s h m)) in
      let (ordered, levels) = new_pipeline-All (IsOne Good Done ctx stages) stages opts built one in
      let s = stamp_ruleset p.identity x.scope in
      let stamped = IsGood-same x.scope s (stamp-same p.identity x.scope) good in
      elim (Bool-cases (eqb_ℤ p.max_parallel (pos 0))) [
        | inl in_order ↦
            let (ended, at) =
              run_sequential-Reached Good Done ctx going stages p.ordered
                (on_scope (stamp_ruleset p.identity) x) ordered stamped in
            rw (in_order, run) (ended, at.0, at.1)
        | inr waves ↦
            let t = mark_concurrent p.wide s in
            let (ended, at) =
              run_levels-Finished Good Done ctx going stages schedule p.ordered p.levels
                (on_scope (mark_concurrent p.wide) (on_scope (stamp_ruleset p.identity) x)) within
                whole levels (IsGood-same s t (mark-same p.wide s) stamped) in
            rw (waves, run) (ended, at.0, levels-back (λ o. Done o _) stages opts built waves at.1)
      ]
