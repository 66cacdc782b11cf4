-- ===== src/Config/Build.antt =====
-- config/build.go and config/build_options.go: a definition compiled into a Pipeline. On success the
-- definition is returned as the call leaves it, hydrated and with its hash kept.
use rlng.Base.{
  Bool, true, false, ◌&&◌, ◌||◌, not, Option, none, some, List, [], ◌∷◌, ◌++◌, ⊤, if◌then◌else◌,
}
use rlng.Base.Int.{ℤ}
use rlng.Base.Text.{Text, codes}
use rlng.Value.{Fields, Arith}
use rlng.Error.{
  config_error, no_stages, schema_required, unhashable_def, lint_error, Finding, Result, ok, err,
  bind, map_err,
}
use rlng.Expr.Options.{Compiler}
use rlng.Stage.{Stage}
use rlng.Pipeline.Build.{
  Pipeline, PipelineOption, with_ruleset, with_concurrency, with_max_parallel, new_pipeline,
}
use rlng.Codec.{Wire}
use rlng.Config.{StageDefs, no_more, stage_then, PipelineDef, has_any}
use rlng.Config.Setup.{Setup}
use rlng.Config.Stages.{build_stages}
use rlng.Config.Decimals.{hydrate_constants}
use rlng.Config.Canonical.{Digest, hash_canonical}
use rlng.Config.Lint.{lint}
use rlng.Config.Chains.{validate_as_chains}

pub record BuildConfig : Type 0 where
  pub lint_errors : Bool
  pub schema : Option Fields
  pub strict : Bool
  pub version : Text
  pub concurrency : List PipelineOption

-- `schema none` is `WithSchema(nil)`.
pub data BuildOption : Type 0 where
  with_lint_errors with_strict build_concurrently : BuildOption
  with_schema : Option Fields → BuildOption
  with_ruleset_version : Text → BuildOption
  build_bounded : ℤ → BuildOption

abbrev configure : BuildConfig → BuildOption → BuildConfig
configure c with_lint_errors = record c { lint_errors = true }
configure c with_strict = record c { strict = true }
configure c (with_schema env) = record c { schema = env }
configure c (with_ruleset_version v) = record c { version = v }
configure c build_concurrently = record c { concurrency = c.concurrency ++ with_concurrency ∷ [] }
configure c (build_bounded n) = record c { concurrency = c.concurrency ++ with_max_parallel n ∷ [] }

unfoldable pub configure_all : BuildConfig → List BuildOption → BuildConfig
configure_all c [] = c
configure_all c (o ∷ os) = configure_all (configure c o) os

abbrev pub configured : List BuildOption → BuildConfig
configured opts =
    configure_all
      (record {
        lint_errors = false;
        schema = none;
        strict = false;
        version = [];
        concurrency = [];
      })
      opts

abbrev pub schema_or : Fields → Option Fields → Fields
schema_or declared none = declared
schema_or declared (some env) = env

abbrev pub version_or : Text → Text → Text
version_or declared [] = declared
version_or declared (c ∷ v) = c ∷ v

abbrev refuse_smells : Bool → List Finding → Result ⊤
refuse_smells true (f ∷ fs) = err (lint_error (f ∷ fs))
refuse_smells _ _ = ok tt

abbrev require_schema : Bool → Fields → Result ⊤
require_schema strict schema =
    if strict && not (has_any schema)
    then err (config_error [] (codes "schema") schema_required)
    else ok tt

abbrev pub setup_of : BuildConfig → PipelineDef → Setup
setup_of cfg d =
    let schema = schema_or d.schema cfg.schema in
    record { constants = d.constants; schema = schema; strict = cfg.strict || has_any schema }

-- The checks of `Build` that come before the stages are built.
unfoldable pub check_definition : BuildConfig → PipelineDef → Result ⊤
check_definition cfg d = bind (validate_as_chains d.stages []) (λ _.
    bind (refuse_smells cfg.lint_errors (lint d))
      (λ _. require_schema cfg.strict (schema_or d.schema cfg.schema)))

abbrev pub pipeline_options : BuildConfig → PipelineDef → Text → List PipelineOption
pipeline_options cfg d h =
    with_ruleset (record { hash = h; version = version_or d.version cfg.version }) ∷ cfg.concurrency

module _ (w : Wire) (digest : Digest) where
  module _ (ops : Arith) (compiler : Compiler) (schedule : List Stage → List Stage) where
    abbrev pub assemble : BuildConfig → PipelineDef → List Stage → Result (Pipeline × PipelineDef)
    assemble cfg d stages =
        bind (map_err (λ _. config_error [] [] unhashable_def) (hash_canonical w digest d)) (λ h.
          bind (map_err (config_error [] []) (new_pipeline stages (pipeline_options cfg d h)))
            (λ p. ok (p, record d { hash_memo = some h })))

    abbrev pub build_hydrated : BuildConfig → PipelineDef → Result (Pipeline × PipelineDef)
    build_hydrated cfg d =
        bind (check_definition cfg d) (λ _.
          bind (build_stages ops compiler schedule (setup_of cfg d) d.stages) (assemble cfg d))

    abbrev pub build_with : BuildConfig → PipelineDef → StageDefs → Result (Pipeline × PipelineDef)
    build_with cfg d no_more = err (config_error [] [] no_stages)
    build_with cfg d (stage_then sd sds) = bind (hydrate_constants w d) (build_hydrated cfg)

    -- `Build`
    unfoldable pub build : List BuildOption → PipelineDef → Result (Pipeline × PipelineDef)
    build opts d = build_with (configured opts) d d.stages
