-- ===== src/Engine.antt =====
-- engine.go and typed_engine.go. What mapstructure and reflection make of an input that is no map
-- is a parameter.
pub mod Seed
pub mod Keys
pub mod Restored
pub mod Evaluated
use rlng.Base.{ℕ, Option, none, some, List, [], ◌∷◌, ◌++◌, ⊤}
use rlng.Base.Int.{ℤ}
use rlng.Value.{null, obj, Fields}
use rlng.Value.Reflect.{GoValue, nil_pointer, plain}
use rlng.Engine.Seed.{restore_decimals}
use rlng.Config.Sources.{World, Body, yaml, from_bytes}
use rlng.Config.Parse.{parse}
use rlng.Error.{
  Error, nil_input, nil_pipeline, nil_mapper, concurrency_requires_config, Result, ok, err, bind,
}
use rlng.Scope.{Scope, ScopeOption, new_scope, snapshot}
use rlng.Stage.{Context, Exec, Stage}
use rlng.Pipeline.Build.{Pipeline}
use rlng.Pipeline.Run.{run}
use rlng.Mapper.{Mapper, map_scope}
use rlng.Config.{PipelineDef}
use rlng.Config.Build.{BuildOption, build_concurrently, build_bounded}

pub record EngineConfig : Type 0 where
  pub scope_opts : List ScopeOption
  pub build_opts : List BuildOption

pub data EngineOption : Type 0 where
  with_scope_options : List ScopeOption → EngineOption
  with_engine_concurrency : EngineOption
  with_engine_max_parallel : ℤ → EngineOption

abbrev configure : EngineConfig → EngineOption → EngineConfig
configure c (with_scope_options opts) = record c { scope_opts = c.scope_opts ++ opts }
configure c with_engine_concurrency = record c {
  build_opts = c.build_opts ++ build_concurrently ∷ [];
}
configure c (with_engine_max_parallel n) = record c {
  build_opts = c.build_opts ++ build_bounded n ∷ [];
}

unfoldable pub configure_all : EngineConfig → List EngineOption → EngineConfig
configure_all c [] = c
configure_all c (o ∷ os) = configure_all (configure c o) os

-- `newEngineConfig`
unfoldable pub new_engine_config : List EngineOption → EngineConfig
new_engine_config opts = configure_all (record { scope_opts = []; build_opts = [] }) opts

pub record Engine : Type 0 where
  pub pipeline : Pipeline
  pub scope_opts : List ScopeOption

pub record TypedEngine : Type 0 where
  pub pipeline : Pipeline
  pub mapper : Mapper
  pub scope_opts : List ScopeOption

abbrev unless_concurrent : {A : Type 0} → EngineConfig → A → Result A
unless_concurrent cfg a = elim cfg.build_opts [
  | [] ↦ ok a
  | _ ∷ _ ↦ err concurrency_requires_config
]

-- `New`; no pipeline is nil.
unfoldable pub new_engine : Option Pipeline → List EngineOption → Result Engine
new_engine none opts = err nil_pipeline
new_engine (some p) opts =
    let cfg = new_engine_config opts in
    unless_concurrent cfg (record { pipeline = p; scope_opts = cfg.scope_opts })

-- `NewTypedEngine`
unfoldable pub new_typed_engine :
    Option Pipeline → Option Mapper → List EngineOption → Result TypedEngine
new_typed_engine none m opts = err nil_pipeline
new_typed_engine (some p) none opts = err nil_mapper
new_typed_engine (some p) (some m) opts =
    let cfg = new_engine_config opts in
    unless_concurrent cfg (record { pipeline = p; mapper = m; scope_opts = cfg.scope_opts })

-- `NewFromProvider`: `parsed` is what the provider gives, and `make` is Build.
unfoldable pub new_from_provider :
    Result PipelineDef
    → (List BuildOption → PipelineDef → Result (Pipeline × PipelineDef))
    → List EngineOption
    → Result Engine
new_from_provider parsed make opts =
    let cfg = new_engine_config opts in
    bind parsed (λ def.
      bind (make cfg.build_opts def)
        (λ built. ok (record { pipeline = built.0; scope_opts = cfg.scope_opts })))

-- `NewTypedFromProvider`
unfoldable pub new_typed_from_provider :
    Result PipelineDef
    → (List BuildOption → PipelineDef → Result (Pipeline × PipelineDef))
    → Option Mapper
    → List EngineOption
    → Result TypedEngine
new_typed_from_provider parsed make none opts = err nil_mapper
new_typed_from_provider parsed make (some m) opts =
    let cfg = new_engine_config opts in
    bind parsed (λ def.
      bind (make cfg.build_opts def)
        (λ built. ok (record { pipeline = built.0; mapper = m; scope_opts = cfg.scope_opts })))

-- `NewFromYAML` and `NewTypedFromYAML`
module _ (decode_yaml decode_json : Body → PipelineDef × Option Error) where
  abbrev parsed_yaml : List ℕ → World → Result PipelineDef
  parsed_yaml content w = (parse decode_yaml decode_json (from_bytes yaml content) w).0

  unfoldable pub new_from_yaml :
      List ℕ
      → World
      → (List BuildOption → PipelineDef → Result (Pipeline × PipelineDef))
      → List EngineOption
      → Result Engine
  new_from_yaml content w make opts = new_from_provider (parsed_yaml content w) make opts

  unfoldable pub new_typed_from_yaml :
      List ℕ
      → World
      → (List BuildOption → PipelineDef → Result (Pipeline × PipelineDef))
      → Option Mapper
      → List EngineOption
      → Result TypedEngine
  new_typed_from_yaml content w make m opts =
      new_typed_from_provider (parsed_yaml content w) make m opts

-- `flatten`, where `decode` is mapstructure on what is no map: a map seeds the Scope as it is, and
-- the decimals of a struct are put back.
unfoldable pub flatten : (GoValue → Result Fields) → GoValue → Result Fields
flatten decode (plain (obj m)) = ok m
flatten decode (plain null) = err nil_input
flatten decode nil_pointer = err nil_input
flatten decode v = bind (decode v) (λ m. ok (restore_decimals v m))

abbrev pub scope_of : Result ⊤ × Exec → Result Scope
scope_of (ok done, x) = ok x.scope
scope_of (err e, x) = err e

module _ (decode : GoValue → Result Fields) (ctx : Context)
    (schedule : List Stage → List Stage) where
  abbrev pub run_seeded : Pipeline → List ScopeOption → Fields → Result Scope
  run_seeded p opts seed =
      scope_of (run ctx schedule p (record { scope = new_scope seed opts; asks = 0 }))

  -- `EvaluateScope`
  unfoldable pub evaluate_scope : Engine → GoValue → Result Scope
  evaluate_scope e input = bind (flatten decode input) (run_seeded e.pipeline e.scope_opts)

  -- `Evaluate`
  unfoldable pub evaluate : Engine → GoValue → Result Fields
  evaluate e input = bind (evaluate_scope e input) (λ sc. ok (snapshot sc))

  -- `TypedEngine.Evaluate`
  unfoldable pub evaluate_typed :
      {R : Type 0} → (Fields → Result R) → TypedEngine → GoValue → Result R
  evaluate_typed into e input = bind (flatten decode input) (λ seed.
      bind (run_seeded e.pipeline e.scope_opts seed) (λ sc. map_scope into e.mapper (snapshot sc)))
