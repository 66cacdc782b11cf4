-- ===== src/Pipeline/Liveness.antt =====
-- A run that nobody cancels, of stages that do what they are for, comes to its end and has run them
-- all.
use rlng.Base.{
  arith, ℕ, ◌≡◌, refl, sym, subst, Bool, false, List, [], ◌∷◌, ⊤, All, All-within, All-Among,
  All-map, All-of, Among,
}
use rlng.Base.Dict.{Dict}
use rlng.Value.{Fields}
use rlng.Error.{Error, Result, ok}
use rlng.Scope.{Scope}
use rlng.Stage.{Context, Exec, Stage}
use rlng.Pipeline.Run.{asked, time_stage, run_sequential, run_level, run_levels}
use rlng.Pipeline.Waves.{first_error-none}

module _ (Good : Fields → Bool → Type 0) (Done : Stage → Fields → Type 0) where
  abbrev pub IsGood : Scope → Type 0
  IsGood s = Good s.store s.strict

  -- From a good Scope the stage returns no error, leaves the Scope good and what it is for done,
  -- and undoes nothing that is done of the stages.
  abbrev pub Delivers : Context → List Stage → Stage → Type 0
  Delivers ctx stages s =
      (x : Exec)
      → IsGood x.scope
      → ((s.execute ctx x).0 ≡ ok tt)
        × IsGood (s.execute ctx x).1.scope
        × Done s (s.execute ctx x).1.scope.store
        × ((t : Stage)
            → Among t stages
            → Done t x.scope.store
            → Done t (s.execute ctx x).1.scope.store)

  -- The Scope is good, all of `ss` is done, and nothing that was done of `stages` is undone.
  abbrev pub Reached : List Stage → List Stage → Scope → Scope → Type 0
  Reached stages ss s t =
      IsGood t
      × All (λ o. Done o t.store) ss
      × ((o : Stage) → Among o stages → Done o s.store → Done o t.store)

  abbrev pub IsOne : Context → List Stage → Stage → Type 0
  IsOne ctx stages s = Among s stages × Delivers ctx stages s

  Reached-cons :
      (stages ss : List Stage) (s : Stage) (a b c : Scope)
      → Among s stages
      → Reached stages (s ∷ []) a b
      → Reached stages ss b c
      → Reached stages (s ∷ ss) a c
  Reached-cons stages ss s a b c m first rest =
      (rest.0, (rest.2 s m first.1.0, rest.1), λ o n d. rest.2 o n (first.2 o n d))

  -- Scopes with the same data and the same strictness are reached alike.
  Reached-same :
      (stages ss : List Stage) (a b c : Scope)
      → b.store ≡ c.store
      → b.strict ≡ c.strict
      → Reached stages ss a b
      → Reached stages ss a c
  Reached-same stages ss a b c store strict h = (
    subst (λ (m : Fields). Good m c.strict) store (subst (λ (q : Bool). Good b.store q) strict h.0),
    subst (λ (m : Fields). All (λ o. Done o m) ss) store h.1,
    λ o m d. subst (λ (f : Fields). Done o f) store (h.2 o m d),
  )

  module _ (ctx : Context) (going : (n : ℕ) → ctx n ≡ false) (stages : List Stage) where
    time_stage-Reached :
        (s : Stage) (x : Exec)
        → Delivers ctx stages s
        → IsGood x.scope
        → let r = time_stage s.name (s.execute ctx) x in
          (r.0 ≡ ok tt) × Reached stages (s ∷ []) x.scope r.1.scope
    unfolding time_stage
    time_stage-Reached s x d good =
        let (fine, after, done, kept) = d x good in
        (
          fine,
          Reached-same stages (s ∷ []) x.scope (s.execute ctx x).1.scope
              (time_stage s.name (s.execute ctx) x).1.scope (ground arith) (ground arith)
              (after, (done, tt), kept),
        )

    run_sequential-next :
        (s : Stage) (ss : List Stage) (x : Exec)
        → (time_stage s.name (s.execute ctx) (asked x)).0 ≡ ok tt
        → run_sequential ctx (s ∷ ss) x
          ≡ run_sequential ctx ss (time_stage s.name (s.execute ctx) (asked x)).1
    unfolding run_sequential
    run_sequential-next s ss x fine = rw (going x.asks, fine, run_sequential) refl

    run_level-next :
        (s : Stage) (ss : List Stage) (errs : Dict Error) (x : Exec)
        → (time_stage s.name (s.execute ctx) x).0 ≡ ok tt
        → run_level ctx (s ∷ ss) errs x
          ≡ run_level ctx ss errs (time_stage s.name (s.execute ctx) x).1
    unfolding run_level
    run_level-next s ss errs x fine = rw (fine, run_level) refl

    run_levels-next :
        (schedule : List Stage → List Stage) (ordered l : List Stage) (ls : List (List Stage))
        (x : Exec)
        → (run_level ctx (schedule l) [] (asked x)).0 ≡ []
        → run_levels ctx schedule ordered (l ∷ ls) x
          ≡ run_levels ctx schedule ordered ls (run_level ctx (schedule l) [] (asked x)).1
    unfolding run_levels
    run_levels-next schedule ordered l ls x clean =
        rw (going x.asks, clean, first_error-none ordered, run_levels) refl

    pub run_sequential-Reached :
        (ss : List Stage) (x : Exec)
        → All (IsOne ctx stages) ss
        → IsGood x.scope
        → let r = run_sequential ctx ss x in (r.0 ≡ ok tt) × Reached stages ss x.scope r.1.scope
    unfolding run_sequential
    run_sequential-Reached [] x h good = (refl, (good, tt, λ o m d. d))
    run_sequential-Reached (s ∷ ss) x h good =
        let (fine, first) = time_stage-Reached s (asked x) h.0.1 good in
        let y = (time_stage s.name (s.execute ctx) (asked x)).1 in
        let (ended, rest) = run_sequential-Reached ss y h.1 first.0 in
        let next = run_sequential ctx ss y in
        subst (λ (r : Result ⊤ × Exec). (r.0 ≡ ok tt) × Reached stages (s ∷ ss) x.scope r.1.scope)
          (sym (run_sequential-next s ss x fine))
          (ended, Reached-cons stages ss s x.scope y.scope next.1.scope h.0.0 first rest)

    run_level-Reached :
        (ss : List Stage) (errs : Dict Error) (x : Exec)
        → All (IsOne ctx stages) ss
        → IsGood x.scope
        → let r = run_level ctx ss errs x in (r.0 ≡ errs) × Reached stages ss x.scope r.1.scope
    unfolding run_level
    run_level-Reached [] errs x h good = (refl, (good, tt, λ o m d. d))
    run_level-Reached (s ∷ ss) errs x h good =
        let (fine, first) = time_stage-Reached s x h.0.1 good in
        let y = (time_stage s.name (s.execute ctx) x).1 in
        let (ended, rest) = run_level-Reached ss errs y h.1 first.0 in
        let next = run_level ctx ss errs y in
        subst (λ (r : Dict Error × Exec). (r.0 ≡ errs) × Reached stages (s ∷ ss) x.scope r.1.scope)
          (sym (run_level-next s ss errs x fine))
          (ended, Reached-cons stages ss s x.scope y.scope next.1.scope h.0.0 first rest)

    -- As `Reached`, of levels.
    abbrev pub Finished : List (List Stage) → Scope → Scope → Type 0
    Finished levels s t =
        IsGood t
        × All (All (λ o. Done o t.store)) levels
        × ((o : Stage) → Among o stages → Done o s.store → Done o t.store)

    Finished-cons :
        (ss l : List Stage) (levels : List (List Stage)) (a b c : Scope)
        → All (λ o. Among o stages) l
        → All (λ o. Among o ss) l
        → Reached stages ss a b
        → Finished levels b c
        → Finished (l ∷ levels) a c
    Finished-cons ss l levels a b c within run_all first rest = (
      rest.0,
      (
        All-of {P = λ o. Done o c.store} l (λ o m.
            rest.2 o (All-Among (λ t. Among t stages) l o within m) (
              All-Among (λ t. Done t b.store) ss o first.1
                (All-Among (λ t. Among t ss) l o run_all m))),
        rest.1,
      ),
      λ o n d. rest.2 o n (first.2 o n d),
    )

    pub run_levels-Finished :
        (schedule : List Stage → List Stage) (ordered : List Stage) (levels : List (List Stage))
        (x : Exec)
        → ((l : List Stage) → All (λ s. Among s l) (schedule l))
        → ((l : List Stage) → All (λ s. Among s (schedule l)) l)
        → All (All (IsOne ctx stages)) levels
        → IsGood x.scope
        → let r = run_levels ctx schedule ordered levels x in
          (r.0 ≡ ok tt) × Finished levels x.scope r.1.scope
    unfolding run_levels
    run_levels-Finished schedule ordered [] x within whole h good = (refl, (good, tt, λ o m d. d))
    run_levels-Finished schedule ordered (l ∷ ls) x within whole h good =
        let (clean, first) =
          run_level-Reached (schedule l) [] (asked x)
            (All-within (IsOne ctx stages) l (schedule l) (within l) h.0) good in
        let y = (run_level ctx (schedule l) [] (asked x)).1 in
        let (ended, rest) = run_levels-Finished schedule ordered ls y within whole h.1 first.0 in
        let next = run_levels ctx schedule ordered ls y in
        subst (λ (r : Result ⊤ × Exec). (r.0 ≡ ok tt) × Finished (l ∷ ls) x.scope r.1.scope)
          (sym (run_levels-next schedule ordered l ls x clean))
          (
            ended,
            Finished-cons (schedule l) l ls x.scope y.scope next.1.scope
                (All-map (IsOne ctx stages) (λ o. Among o stages) l (λ o one. one.0) h.0) (whole l)
                first rest,
          )
