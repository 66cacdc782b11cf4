-- ===== src/Engine/Evaluated.antt =====
-- engine.go: what an evaluation keeps of its input.
use rlng.Base.{
  ◌≡◌, ◌≢◌, refl, subst, sym, ap, ◌∙◌, ◌+◌, true, Option-cases, [], ◌∷◌, inl, inr, Option, none,
  some, List, arith, ⊤, All, Among,
}
use rlng.Base.Text.{Text}
use rlng.Value.{Value, obj, dec, Decimal, Fields, end, field}
use rlng.Value.Access.{lookup_field}
use rlng.Value.Reflect.{GoValue, pointer, struct}
use rlng.Error.{Error, Result, ok, err, Cases, Result-Cases}
use rlng.Scope.{Scope, ScopeOption, new_scope, snapshot, clone_value, clone_fields}
use rlng.Scope.Path.{lookup_path, split_dots, walk}
use rlng.Scope.Roundtrip.{lookup_path-eq-walk}
use rlng.Scope.Action.{get}
use rlng.Stage.{Context, Exec, Stage}
use rlng.Pipeline.Build.{PipelineOption, new_pipeline}
use rlng.Pipeline.Run.{run}
use rlng.Pipeline.Isolation.{Aside, run-get}
use rlng.Engine.Seed.{restore_decimals}
use rlng.Engine.Keys.{decimal_at, is_distinct, is_nested, below}
use rlng.Engine.Restored.{restore_decimals-below}
use rlng.Engine.{Engine, flatten, evaluate, evaluate_scope, scope_of}

mutual
  unfolding clone_value

  clone_value-eq : (v : Value) (depth : _) → clone_value v depth ≡ v
  clone_value-eq (obj m) depth = ground (arith, clone_fields-eq m (depth + 1))
  clone_value-eq v depth = ground arith

  clone_fields-eq : (m : Fields) (depth : _) → clone_fields m depth ≡ m
  clone_fields-eq end depth = refl
  clone_fields-eq (field k v m) depth =
      ground (arith, clone_value-eq v depth, clone_fields-eq m depth)

pub snapshot-store : (s : Scope) → snapshot s ≡ s.store
unfolding snapshot
snapshot-store s = ground (arith, clone_fields-eq s.store 0)

new_scope-store : (seed : Fields) (opts : List ScopeOption) → (new_scope seed opts).store ≡ seed
unfolding new_scope
new_scope-store seed opts = clone_fields-eq seed 0

scope_of-ok : (r : Result ⊤ × Exec) (u : ⊤) → r.0 ≡ ok u → scope_of r ≡ ok r.1.scope
scope_of-ok (ok done, x) u h = refl
scope_of-ok (err e, x) u h = cc

scope_of-err : (r : Result ⊤ × Exec) (e : Error) → r.0 ≡ err e → scope_of r ≡ err e
scope_of-err (ok done, x) e h = cc
scope_of-err (err f, x) e h = cc

-- What an evaluation returns after a run: a result of which `P` holds, or the error of the run.
abbrev pub Outcome : (Fields → Type 0) → Result ⊤ → Result Fields → Type 0
Outcome P (ok done) r = (out : Fields) × (r ≡ ok out) × P out
Outcome P (err e) r = r ≡ err e

below-none : (ks : List Text) → below ks none ≡ none
unfolding below
below-none [] = refl
below-none (k ∷ ks) = refl

walk-eq-below : (ks : List Text) (v : Value) → walk ks v ≡ below ks (some v)
unfolding walk below
walk-eq-below [] v = refl
walk-eq-below (k ∷ ks) (obj m) = elim (Option-cases (lookup_field k m)) [
  | inl e ↦ rw (e, walk) (sym (below-none ks))
  | inr (w, e) ↦ rw (e, walk) (walk-eq-below ks w)
]
walk-eq-below (k ∷ ks) v = ground arith

-- The seed of an input that holds a decimal is what the decoder gives, with its decimals put back.
flatten-restored :
    (decode : GoValue → Result Fields) (v : GoValue) (path : List Text) (d : Decimal) (m : Fields)
    → decimal_at v path ≡ some d
    → decode v ≡ ok m
    → flatten decode v ≡ ok (restore_decimals v m)
unfolding flatten decimal_at
flatten-restored decode (pointer v) path d m h e = rw e refl
flatten-restored decode (struct whole ms) path d m h e = rw e refl
flatten-restored decode v path d m h e = ground arith

module _ (decode : GoValue → Result Fields) (ctx : Context)
    (schedule : List Stage → List Stage) where
  -- The run of an evaluation, from a Scope made of the seed.
  abbrev pub run_from : Engine → Fields → Result ⊤ × Exec
  run_from e seed =
      run ctx schedule e.pipeline (record { scope = new_scope seed e.scope_opts; asks = 0 })

  evaluate-ok :
      (e : Engine) (input : GoValue) (seed : Fields) (u : ⊤)
      → flatten decode input ≡ ok seed
      → (run_from e seed).0 ≡ ok u
      → evaluate decode ctx schedule e input ≡ ok (run_from e seed).1.scope.store
  unfolding evaluate evaluate_scope
  evaluate-ok e input seed u flat p =
      rw (flat, scope_of-ok (run_from e seed) u p)
        (ap (λ m. ok m) (snapshot-store (run_from e seed).1.scope))

  evaluate-err :
      (e : Engine) (input : GoValue) (seed : Fields) (f : Error)
      → flatten decode input ≡ ok seed
      → (run_from e seed).0 ≡ err f
      → evaluate decode ctx schedule e input ≡ err f
  unfolding evaluate evaluate_scope
  evaluate-err e input seed f flat p = rw (flat, scope_of-err (run_from e seed) f p) refl

  evaluate-get :
      (e : Engine) (stages : List Stage) (opts : List PipelineOption) (input : GoValue)
      (seed : Fields) (q : Text)
      → ((l : List Stage) → All (λ s. Among s l) (schedule l))
      → new_pipeline stages opts ≡ ok e.pipeline
      → All (Aside q) stages
      → flatten decode input ≡ ok seed
      → Outcome
          (λ out. lookup_path out q ≡ lookup_path seed q)
          (run_from e seed).0
          (evaluate decode ctx schedule e input)
  unfolding get
  evaluate-get e stages opts input seed q sh built aside flat =
      elim (Result-Cases (run_from e seed).0) [
        | Cases.bad f p ↦ rw p (evaluate-err e input seed f flat p)
        | Cases.good u p ↦ rw p (
          (run_from e seed).1.scope.store,
          evaluate-ok e input seed u flat p,
          run-get q ctx schedule stages opts e.pipeline _ sh built aside
              ∙ ap (λ m. lookup_path m q) (new_scope-store seed e.scope_opts),
        )
      ]

  -- Let the engine's pipeline be what NewPipeline returned for stages that keep to their namespaces,
  -- none of which holds the path `q`, and let the scheduler run in each level only stages of it. Let
  -- the input have a decimal under the keys of `q`, no struct in it two exported members with one
  -- key, and let mapstructure decode it and leave a map under every key on the way. Where the run
  -- succeeds, Evaluate returns a result that holds the same decimal at `q`; where it fails, Evaluate
  -- returns its error.
  pub evaluate-decimal :
      (e : Engine) (stages : List Stage) (opts : List PipelineOption) (input : GoValue) (m : Fields)
      (q : Text) (d : Decimal)
      → ((l : List Stage) → All (λ s. Among s l) (schedule l))
      → new_pipeline stages opts ≡ ok e.pipeline
      → All (Aside q) stages
      → q ≢ []
      → is_distinct input ≡ true
      → decimal_at input (split_dots q) ≡ some d
      → decode input ≡ ok m
      → is_nested (split_dots q) (some (obj m)) ≡ true
      → Outcome
          (λ out. lookup_path out q ≡ some (dec d))
          (run_from e (restore_decimals input m)).0
          (evaluate decode ctx schedule e input)
  evaluate-decimal e stages opts input m q d sh built aside full apart at dm nested =
      let kept =
        lookup_path-eq-walk (restore_decimals input m) q full
        ∙ walk-eq-below (split_dots q) (obj (restore_decimals input m))
        ∙ restore_decimals-below input (split_dots q) d m apart at nested in
      subst
        (λ (o : Option Value).
          Outcome (λ out. lookup_path out q ≡ o) (run_from e (restore_decimals input m)).0
            (evaluate decode ctx schedule e input))
        kept
        (evaluate-get e stages opts input (restore_decimals input m) q sh built aside
          (flatten-restored decode input (split_dots q) d m at dm))
