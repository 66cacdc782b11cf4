-- ===== src/Config/Steps.antt =====
-- The steps of a Build that succeeds, and the identity that its options leave.
use rlng.Base.{
  ◌≡◌, refl, ap, ◌∙◌, sym, Bool, true, false, some, List, [], ◌∷◌, ◌++◌, arith, All, All-append,
}
use rlng.Base.Text.{Text}
use rlng.Value.{Arith}
use rlng.Error.{ok, Cases, Result-Cases, ok_injective}
use rlng.Expr.Options.{Compiler}
use rlng.Scope.{RulesetIdentity}
use rlng.Stage.{Stage}
use rlng.Pipeline.Build.{
  Pipeline, PipelineConfig, PipelineOption, with_ruleset, with_concurrency, with_max_parallel,
  unbounded, bounded, new_pipeline,
}
use rlng.Codec.{Wire}
use rlng.Config.{StageDefs, no_more, stage_then, PipelineDef}
use rlng.Config.Decimals.{hydrate_constants}
use rlng.Config.Canonical.{Digest, hash_canonical}
use rlng.Config.Stages.{build_stages}
use rlng.Config.Build.{
  BuildConfig, BuildOption, configured, configure_all, with_lint_errors, with_strict,
  build_concurrently, with_schema, with_ruleset_version, build_bounded, setup_of, check_definition,
  pipeline_options, assemble, build_hydrated, build_with, build,
}

-- Not `with_ruleset`.
abbrev pub concurrent : PipelineOption → Bool
concurrent (with_ruleset id) = false
concurrent with_concurrency = true
concurrent (with_max_parallel n) = true

configure_all-identity :
    (c : PipelineConfig) (os : List PipelineOption)
    → All (λ o. concurrent o ≡ true) os
    → (rlng.Pipeline.Build.configure_all c os).identity ≡ c.identity
unfolding rlng.Pipeline.Build.configure_all
configure_all-identity c [] h = refl
configure_all-identity c (with_ruleset id ∷ os) h = ground arith
configure_all-identity c (with_concurrency ∷ os) h =
    configure_all-identity (record c { mode = unbounded }) os h.1
configure_all-identity c (with_max_parallel n ∷ os) h =
    configure_all-identity (record c { mode = bounded n }) os h.1

pub with_ruleset-identity :
    (id : RulesetIdentity) (os : List PipelineOption)
    → All (λ o. concurrent o ≡ true) os
    → (rlng.Pipeline.Build.configured (with_ruleset id ∷ os)).identity ≡ id
unfolding rlng.Pipeline.Build.configure_all
with_ruleset-identity id os h = configure_all-identity _ os h

pub configure_all-concurrent :
    (c : BuildConfig) (opts : List BuildOption)
    → All (λ o. concurrent o ≡ true) c.concurrency
    → All (λ o. concurrent o ≡ true) (configure_all c opts).concurrency
unfolding configure_all
configure_all-concurrent c [] h = h
configure_all-concurrent c (with_lint_errors ∷ os) h =
    configure_all-concurrent (record c { lint_errors = true }) os h
configure_all-concurrent c (with_strict ∷ os) h =
    configure_all-concurrent (record c { strict = true }) os h
configure_all-concurrent c (build_concurrently ∷ os) h =
    configure_all-concurrent (record c { concurrency = c.concurrency ++ with_concurrency ∷ [] }) os
      (All-append (λ o. concurrent o ≡ true) c.concurrency (with_concurrency ∷ []) h (refl, tt))
configure_all-concurrent c (with_schema env ∷ os) h =
    configure_all-concurrent (record c { schema = env }) os h
configure_all-concurrent c (with_ruleset_version v ∷ os) h =
    configure_all-concurrent (record c { version = v }) os h
configure_all-concurrent c (build_bounded n ∷ os) h =
    configure_all-concurrent (record c { concurrency = c.concurrency ++ with_max_parallel n ∷ [] })
      os
      (All-append (λ o. concurrent o ≡ true) c.concurrency (with_max_parallel n ∷ []) h (refl, tt))

-- What the steps of a successful Build returned.
module _ (w : Wire) (digest : Digest) (ops : Arith) (compiler : Compiler)
    (schedule : List Stage → List Stage) where
  abbrev pub IsBuiltFrom : BuildConfig → PipelineDef → Pipeline → PipelineDef → Type 0
  IsBuiltFrom cfg d p x =
      (y : PipelineDef) × (ss : List Stage) × (h : Text) × (hydrate_constants w d ≡ ok y)
      × (check_definition cfg y ≡ ok tt)
      × (build_stages ops compiler schedule (setup_of cfg y) y.stages ≡ ok ss)
      × (hash_canonical w digest y ≡ ok h)
      × (new_pipeline ss (pipeline_options cfg y h) ≡ ok p)
      × (x ≡ record y { hash_memo = some h })

  hydrated-steps :
      (cfg : BuildConfig) (d y : PipelineDef) (p : Pipeline) (x : PipelineDef)
      → hydrate_constants w d ≡ ok y
      → build_hydrated w digest ops compiler schedule cfg y ≡ ok (p, x)
      → IsBuiltFrom cfg d p x
  hydrated-steps cfg d y p x hydrated e = elim (Result-Cases (check_definition cfg y)) [
    | Cases.bad z failed ↦ ground arith
    | Cases.good tt checked ↦
        elim (Result-Cases (build_stages ops compiler schedule (setup_of cfg y) y.stages)) [
          | Cases.bad z failed ↦ ground arith
          | Cases.good ss built ↦ elim (Result-Cases (hash_canonical w digest y)) [
            | Cases.bad z failed ↦ ground arith
            | Cases.good h hashed ↦
                elim (Result-Cases (new_pipeline ss (pipeline_options cfg y h))) [
                  | Cases.bad z failed ↦ ground arith
                  | Cases.good q made ↦
                      let same =
                        ok_injective
                          (rw (build_hydrated, checked, built, assemble, hashed, made) at e) in
                      (
                        y,
                        ss,
                        h,
                        hydrated,
                        checked,
                        built,
                        hashed,
                        made ∙ ap (λ r. ok r.0) same,
                        sym (ap (λ r. r.1) same),
                      )
                ]
          ]
        ]
  ]

  with-steps :
      (cfg : BuildConfig) (d : PipelineDef) (sds : StageDefs) (p : Pipeline) (x : PipelineDef)
      → build_with w digest ops compiler schedule cfg d sds ≡ ok (p, x)
      → IsBuiltFrom cfg d p x
  with-steps cfg d no_more p x e = ground arith
  with-steps cfg d (stage_then sd sds) p x e = elim (Result-Cases (hydrate_constants w d)) [
    | Cases.bad z failed ↦ ground arith
    | Cases.good y hydrated ↦ hydrated-steps cfg d y p x hydrated (rw (build_with, hydrated) at e)
  ]

  pub build-steps :
      (opts : List BuildOption) (d : PipelineDef) (p : Pipeline) (x : PipelineDef)
      → build w digest ops compiler schedule opts d ≡ ok (p, x)
      → IsBuiltFrom (configured opts) d p x
  unfolding build
  build-steps opts d p x e = with-steps (configured opts) d d.stages p x e
