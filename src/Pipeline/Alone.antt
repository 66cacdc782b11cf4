-- ===== src/Pipeline/Alone.antt =====
-- pipe/pipeline.go: the stages of a level do not disturb one another.
use rlng.Base.{
  arith, Bool, ◌≡◌, ◌≢◌, ◌⊎◌, refl, sym, subst, ap, ◌∙◌, Bool-cases, Option-cases, inl, inr, Option,
  none, some, List, [], ◌∷◌, ⊤, All, All-Among, Among,
}
use rlng.Base.Text.{Text, text_eq, text_eq_iff}
use rlng.Base.Dict.{Dict, lookup, lookup-insert, lookup-insert_self}
use rlng.Error.{Error, Result, ok, err}
use rlng.Scope.{Scope, RulesetIdentity}
use rlng.Scope.Action.{get}
use rlng.Scope.Frame.{head_segment}
use rlng.Stage.{Context, Exec, Step, Stage}
use rlng.Pipeline.Run.{time_stage, note_error, run_level, first_error}
use rlng.Pipeline.Isolation.{
  IsNamespaced, StageKeeps, time_stage-reads, time_stage-get, run_level-get,
}

-- The path lies in the namespace of the stage.
abbrev pub Holds : Stage → Text → Type 0
Holds s q = head_segment s.name ≡ head_segment q

-- The path lies in the namespace of no stage of the level.
abbrev pub IsOutside : List Stage → Text → Type 0
IsOutside level q = All (λ o. head_segment o.name ≢ head_segment q) level

-- The settings of a Scope that stages look at.
abbrev pub modes : Scope → Bool × Bool × RulesetIdentity × Bool
modes s = (s.strict, s.provenance, s.identity, s.concurrent)

-- The stage leaves these settings as they are.
abbrev pub KeepsModes : Stage → Type 0
KeepsModes s = (ctx : Context) (x : Exec) → modes (s.execute ctx x).1.scope ≡ modes x.scope

-- Two scopes have the same settings and read the same but in the namespaces of the other stages of
-- the level.
abbrev pub AgreeFor : Stage → List Stage → Scope → Scope → Type 0
AgreeFor s level a b =
    (modes a ≡ modes b) × ((q : Text) → Holds s q ⊎ IsOutside level q → get q a ≡ get q b)

-- The stage reads nothing that the other stages of the level write: what it returns and what it
-- leaves in its namespace are the same from Scopes that differ only there.
abbrev pub IgnoresOthers : List Stage → Context → Stage → Type 0
IgnoresOthers level ctx s =
    (x y : Exec)
    → AgreeFor s level x.scope y.scope
    → ((s.execute ctx x).0 ≡ (s.execute ctx y).0)
      × ((q : Text) → Holds s q → get q (s.execute ctx x).1.scope ≡ get q (s.execute ctx y).1.scope)

-- No two namespaces are the same.
abbrev pub AreApart : List Stage → Type 0
AreApart [] = ⊤
AreApart (s ∷ ss) = All (λ o. head_segment s.name ≢ head_segment o.name) ss × AreApart ss

abbrev pub error_of : Result ⊤ → Option Error
error_of (ok done) = none
error_of (err e) = some e

-- What the level leaves of the stage is what the stage leaves alone, from `x`.
abbrev pub IsAlone : Context → Stage → Exec → Dict Error × Exec → Type 0
IsAlone ctx s x r =
    (lookup s.name r.0 ≡ error_of (s.execute ctx x).0)
    × ((q : Text) → Holds s q → get q r.1.scope ≡ get q (s.execute ctx x).1.scope)

lookup-note_error :
    (k name : Text) (r : Result ⊤) (errs : Dict Error)
    → head_segment name ≢ head_segment k
    → lookup k (note_error name r errs) ≡ lookup k errs
lookup-note_error k name (ok done) errs h = refl
lookup-note_error k name (err e) errs h = elim (Bool-cases (text_eq name k)) [
  | inl same ↦ absurd (h (ap head_segment ((text_eq_iff name k).0 same)))
  | inr apart ↦ rw (lookup-insert, apart) refl
]

lookup-note_error_own :
    (name : Text) (r : Result ⊤) (errs : Dict Error)
    → lookup name errs ≡ none
    → lookup name (note_error name r errs) ≡ error_of r
lookup-note_error_own name (ok done) errs h = h
lookup-note_error_own name (err e) errs h = lookup-insert_self name e errs

time_stage-result : (name : Text) (step : Step) (x : Exec) → (time_stage name step x).0 ≡ (step x).0
unfolding time_stage
time_stage-result name step x = refl

module _ (ctx : Context) where
  time_stage-modes :
      (s : Stage) (x : Exec)
      → KeepsModes s
      → modes (time_stage s.name (s.execute ctx) x).1.scope ≡ modes x.scope
  unfolding time_stage
  time_stage-modes s x keeps = ground (arith, keeps ctx x)

  run_level-lookup :
      (ss : List Stage) (k : Text) (errs : Dict Error) (x : Exec)
      → All (λ o. head_segment k ≢ head_segment o.name) ss
      → lookup k (run_level ctx ss errs x).0 ≡ lookup k errs
  unfolding run_level time_stage
  run_level-lookup [] k errs x h = refl
  run_level-lookup (s ∷ ss) k errs x h =
      run_level-lookup ss k _ _ h.1
      ∙ lookup-note_error k s.name (s.execute ctx x).0 errs (λ e. h.0 (sym e))

  apart-Keeps :
      (s : Stage) (q : Text) (ss : List Stage)
      → Holds s q
      → All (λ o. head_segment s.name ≢ head_segment o.name) ss
      → All IsNamespaced ss
      → All (StageKeeps q) ss
  apart-Keeps s q [] h a n = tt
  apart-Keeps s q (o ∷ ss) h a n =
      ((λ c x. n.0 q c x (λ e. a.0 (h ∙ sym e))), apart-Keeps s q ss h a.1 n.1)

  module _ (level : List Stage) (x0 : Exec) where
    IsAlone-first :
        (s : Stage) (ss : List Stage) (errs : Dict Error) (x : Exec)
        → All (λ o. head_segment s.name ≢ head_segment o.name) ss
        → All IsNamespaced ss
        → lookup s.name errs ≡ none
        → IgnoresOthers level ctx s
        → AgreeFor s level x.scope x0.scope
        → IsAlone ctx s x0 (run_level ctx (s ∷ ss) errs x)
    unfolding run_level
    IsAlone-first s ss errs x apart spaced unset ignores agree =
        let y = time_stage s.name (s.execute ctx) x in
        let (same, reads) = ignores x x0 agree in
        (
          run_level-lookup ss s.name (note_error s.name y.0 errs) y.1 apart
              ∙ lookup-note_error_own s.name y.0 errs unset
              ∙ ap error_of (time_stage-result s.name (s.execute ctx) x ∙ same),
          λ q h.
              run_level-get q ctx ss (note_error s.name y.0 errs) y.1
                (apart-Keeps s q ss h apart spaced)
              ∙ time_stage-reads q ctx s x
              ∙ reads q h,
        )

    -- A stage of the level other than `s` changes nothing that `s` may read.
    AgreeFor-after :
        (s t : Stage) (x : Exec)
        → Among t level
        → IsNamespaced t
        → KeepsModes t
        → head_segment t.name ≢ head_segment s.name
        → AgreeFor s level x.scope x0.scope
        → AgreeFor s level (time_stage t.name (t.execute ctx) x).1.scope x0.scope
    AgreeFor-after s t x m spaced keeps apart agree = (
      time_stage-modes t x keeps ∙ agree.0,
      λ q held. elim held [
        | inl h ↦
            time_stage-get q ctx t x (λ c z. spaced q c z (λ e. apart (e ∙ sym h)))
            ∙ agree.1 q (inl h)
        | inr out ↦
            time_stage-get q ctx t x (λ c z.
              spaced q c z (All-Among (λ o. head_segment o.name ≢ head_segment q) level t out m))
            ∙ agree.1 q (inr out)
      ],
    )

    IsAlone-among :
        (s : Stage) (ss : List Stage) (errs : Dict Error) (x : Exec)
        → Among s ss
        → AreApart ss
        → All IsNamespaced ss
        → All KeepsModes ss
        → All (λ t. Among t level) ss
        → lookup s.name errs ≡ none
        → IgnoresOthers level ctx s
        → AgreeFor s level x.scope x0.scope
        → IsAlone ctx s x0 (run_level ctx ss errs x)
    unfolding run_level
    IsAlone-among s [] errs x m apart spaced keeps within unset ignores agree = elim m [ ]
    IsAlone-among s (t ∷ ss) errs x (inl e) apart spaced keeps within unset ignores agree =
        subst
          (λ (u : Stage).
            lookup u.name errs ≡ none
            → IgnoresOthers level ctx u
            → AgreeFor u level x.scope x0.scope
            → IsAlone ctx u x0 (run_level ctx (t ∷ ss) errs x))
          (sym e) (IsAlone-first t ss errs x apart.0 spaced.1) unset ignores agree
    IsAlone-among s (t ∷ ss) errs x (inr m) apart spaced keeps within unset ignores agree =
        let other = All-Among (λ o. head_segment t.name ≢ head_segment o.name) ss s apart.0 m in
        let y = time_stage t.name (t.execute ctx) x in
        IsAlone-among s ss (note_error t.name y.0 errs) y.1 m apart.1 spaced.1 keeps.1 within.1
          (lookup-note_error s.name t.name y.0 errs other ∙ unset) ignores
          (AgreeFor-after s t x within.0 spaced.0 keeps.0 other agree)

-- Let the stages of a level keep to their namespaces, no two of which are the same, and leave the
-- settings of the Scope alone, and let the stage `s` among them read nothing that the others write:
-- it does the same on any two Scopes with the same settings that differ only there. Then, in
-- whatever order `order` the scheduler runs stages of the level, `s` among them, the level records
-- for `s` the error that `s` returns alone on the Scope at the level's start, or none, and leaves in
-- its namespace what `s` leaves there alone.
pub run_level-IsAlone :
    (ctx : Context) (level order : List Stage) (s : Stage) (x : Exec)
    → Among s order
    → AreApart order
    → All IsNamespaced order
    → All KeepsModes order
    → All (λ t. Among t level) order
    → IgnoresOthers level ctx s
    → IsAlone ctx s x (run_level ctx order [] x)
unfolding lookup
run_level-IsAlone ctx level order s x m apart spaced keeps within ignores =
    IsAlone-among ctx level x s order [] x m apart spaced keeps within refl ignores
      (refl, λ q h. refl)

-- `s` runs in both orders and reads nothing that the others write, or has a namespace of its own
-- outside of both.
abbrev pub IsSettled : Context → List Stage → List Stage → List Stage → Stage → Type 0
IsSettled ctx level a b s =
    (Among s a × Among s b × IgnoresOthers level ctx s)
    ⊎ (All (λ o. head_segment s.name ≢ head_segment o.name) a
        × All (λ o. head_segment s.name ≢ head_segment o.name) b)

-- An order of stages of the level that keep to namespaces, no two of which are the same, and leave
-- the settings of the Scope alone.
abbrev pub IsOrderOf : List Stage → List Stage → Type 0
IsOrderOf level order =
    AreApart order × All IsNamespaced order × All KeepsModes order × All (λ t. Among t level) order

lookup-settled :
    (ctx : Context) (level a b : List Stage) (x : Exec) (s : Stage)
    → IsOrderOf level a
    → IsOrderOf level b
    → IsSettled ctx level a b s
    → lookup s.name (run_level ctx a [] x).0 ≡ lookup s.name (run_level ctx b [] x).0
lookup-settled ctx level a b x s h k (inl (m, n, ignores)) =
    (run_level-IsAlone ctx level a s x m h.0 h.1 h.2 h.3 ignores).0
    ∙ sym (run_level-IsAlone ctx level b s x n k.0 k.1 k.2 k.3 ignores).0
lookup-settled ctx level a b x s h k (inr (m, n)) =
    run_level-lookup ctx a s.name [] x m ∙ sym (run_level-lookup ctx b s.name [] x n)

-- Let two orders hold stages of a level that keep to namespaces, no two of which are the same, and
-- leave the settings of the Scope alone. Let each stage of the pipeline be in both orders and read
-- nothing that the others of the level write, or have a namespace of its own outside of both. Then
-- the error that is reported for the level is the same in both orders.
pub first_error-run_level :
    (ctx : Context) (ordered level a b : List Stage) (x : Exec)
    → IsOrderOf level a
    → IsOrderOf level b
    → All (IsSettled ctx level a b) ordered
    → first_error ordered (run_level ctx a [] x).0 ≡ first_error ordered (run_level ctx b [] x).0
unfolding first_error
first_error-run_level ctx [] level a b x h k settled = refl
first_error-run_level ctx (s ∷ ss) level a b x h k settled =
    let same = lookup-settled ctx level a b x s h k settled.0 in
    elim (Option-cases (lookup s.name (run_level ctx b [] x).0)) [
      | inl e ↦
          rw (same ∙ e, e, first_error) (first_error-run_level ctx ss level a b x h k settled.1)
      | inr (f, e) ↦ rw (same ∙ e, e, first_error)
    ]
