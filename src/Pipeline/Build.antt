-- ===== src/Pipeline/Build.antt =====
-- `NewPipeline` and its options.
use rlng.Base.{
  Bool, false, ◌&&◌, ◌||◌, not, Option, none, some, List, [], ◌∷◌, length, ltb, if◌then◌else◌,
}
use rlng.Base.Int.{ℤ, pos, negsuc, ltb_ℤ, eqb_ℤ}
use rlng.Base.Text.{Text}
use rlng.Error.{duplicate_stage, unknown_dependency, invalid_max_parallel, Result, ok, err, bind}
use rlng.Scope.{RulesetIdentity, no_ruleset}
use rlng.Stage.{Stage}
use rlng.Pipeline.{mem_text, names, topo_sort, compute_levels}

-- `max_parallel` is 0 for sequential, -1 for unbounded.
pub record Pipeline : Type 0 where
  pub ordered : List Stage
  pub levels : List (List Stage)
  pub identity : RulesetIdentity
  pub max_parallel : ℤ
  pub wide : Bool

pub data ConcurrencyMode : Type 0 where
  sequential unbounded : ConcurrencyMode
  bounded : ℤ → ConcurrencyMode

pub record PipelineConfig : Type 0 where
  pub identity : RulesetIdentity
  pub mode : ConcurrencyMode

pub data PipelineOption : Type 0 where
  with_ruleset : RulesetIdentity → PipelineOption
  with_concurrency : PipelineOption
  with_max_parallel : ℤ → PipelineOption

abbrev configure : PipelineConfig → PipelineOption → PipelineConfig
configure c (with_ruleset id) = record c { identity = id }
configure c with_concurrency = record c { mode = unbounded }
configure c (with_max_parallel n) = record c { mode = bounded n }

unfoldable pub configure_all : PipelineConfig → List PipelineOption → PipelineConfig
configure_all c [] = c
configure_all c (o ∷ os) = configure_all (configure c o) os

abbrev pub invalid_bound : ConcurrencyMode → Option ℤ
invalid_bound (bounded n) = if ltb_ℤ n (pos 1) then some n else none
invalid_bound _ = none

abbrev pub parallelism : ConcurrencyMode → ℤ
parallelism sequential = pos 0
parallelism unbounded = negsuc 0
parallelism (bounded n) = n

-- The first name that two stages share.
unfoldable pub first_duplicate : List Text → List Stage → Option Text
first_duplicate seen [] = none
first_duplicate seen (s ∷ ss) =
    let rest = first_duplicate (s.name ∷ seen) ss in
    if mem_text s.name seen then some s.name else rest

abbrev pub unknown_in : Text → List Text → List Text → Option (Text × Text)
unknown_in name [] known = none
unknown_in name (dep ∷ deps) known =
    if mem_text dep known then unknown_in name deps known else some (name, dep)

-- The first dependency that names no stage.
unfoldable pub first_unknown : List Stage → List Text → Option (Text × Text)
first_unknown [] known = none
first_unknown (s ∷ ss) known = elim (unknown_in s.name s.depends_on known) [
  | none ↦ first_unknown ss known
  | some e ↦ some e
]

abbrev is_wide : List (List Stage) → Bool
is_wide [] = false
is_wide (l ∷ ls) = ltb 1 (length l) || is_wide ls

abbrev pub assemble : RulesetIdentity → ℤ → List Stage → Pipeline
assemble id parallel ordered =
    let levels = compute_levels ordered in
    let waves = not (eqb_ℤ parallel (pos 0)) in
    record {
      ordered = ordered;
      levels = if waves then levels else [];
      identity = id;
      max_parallel = parallel;
      wide = waves && not (eqb_ℤ parallel (pos 1)) && is_wide levels;
    }

abbrev pub build_known : List Stage → RulesetIdentity → ℤ → Option (Text × Text) → Result Pipeline
build_known stages id parallel (some (name, dep)) = err (unknown_dependency name dep)
build_known stages id parallel none =
    bind (topo_sort stages) (λ ordered. ok (assemble id parallel ordered))

abbrev pub build_distinct : List Stage → RulesetIdentity → ℤ → Option Text → Result Pipeline
build_distinct stages id parallel (some name) = err (duplicate_stage name)
build_distinct stages id parallel none =
    build_known stages id parallel (first_unknown stages (names stages))

abbrev pub build_valid : List Stage → PipelineConfig → Option ℤ → Result Pipeline
build_valid stages cfg (some n) = err (invalid_max_parallel n)
build_valid stages cfg none =
    build_distinct stages cfg.identity (parallelism cfg.mode) (first_duplicate [] stages)

abbrev pub configured : List PipelineOption → PipelineConfig
configured opts = configure_all (record { identity = no_ruleset; mode = sequential }) opts

-- `NewPipeline`: the checks of the options, of the names and of the dependencies, and the order.
unfoldable pub new_pipeline : List Stage → List PipelineOption → Result Pipeline
new_pipeline stages opts =
    build_valid stages (configured opts) (invalid_bound (configured opts).mode)
