-- ===== src/Config/Lint.antt =====
-- config/lint.go: the advisory findings on decision tables.
use rlng.Base.{
  ℕ, suc, Bool, true, ◌||◌, Option, none, some, List, [], ◌∷◌, ◌++◌, ◌==◌, if◌then◌else◌, ltb,
}
use rlng.Base.Text.{Text, codes, text_eq}
use rlng.Error.{Finding, unreachable_rule, missing_default}
use rlng.Expr.{trim_space}
use rlng.Config.{
  RuleDef, StageFields, StageDef, StageDefs, stage_def, no_more, stage_then, PipelineDef,
}

-- `isFirstMatch`
unfoldable pub is_first_match : Text → Bool
is_first_match [] = true
is_first_match (c ∷ s) = text_eq (c ∷ s) (codes "single") || text_eq (c ∷ s) (codes "unique")

-- `strings.TrimPrefix(s, "(")`
abbrev trim_open : Text → Text
trim_open [] = []
trim_open (c ∷ s) = if c == b'(' then s else c ∷ s

-- `strings.TrimSuffix(s, ")")`
unfoldable pub trim_close : Text → Text
trim_close [] = []
trim_close (c ∷ []) = if c == b')' then [] else c ∷ []
trim_close (c ∷ d ∷ s) = c ∷ trim_close (d ∷ s)

-- `isCatchAll`
unfoldable pub is_catch_all : Text → Bool
is_catch_all condition =
    let s = trim_space (trim_close (trim_open (trim_space condition))) in
    text_eq s (codes "true") || text_eq s (codes "1 == 1")

-- The first catch-all of the rules, from the number of the first one.
unfoldable pub catch_all_from : ℕ → List RuleDef → Option ℕ
catch_all_from i [] = none
catch_all_from i (r ∷ rs) =
    let rest = catch_all_from (suc i) rs in
    if is_catch_all r.condition.expression then some i else rest

unfoldable pub unreachable_from : Text → ℕ → ℕ → List RuleDef → List Finding
unreachable_from stage first i [] = []
unreachable_from stage first i (r ∷ rs) =
    let rest = unreachable_from stage first (suc i) rs in
    if ltb first i
    then record { stage = stage; rule = some i; code = unreachable_rule } ∷ rest
    else rest

abbrev no_match : StageFields → List Finding
no_match d = elim d.default [
  | [] ↦ record { stage = d.name; rule = none; code = missing_default } ∷ []
  | _ ∷ _ ↦ []
]

abbrev pub lint_rules : StageFields → Option ℕ → List Finding
lint_rules d none = no_match d
lint_rules d (some first) = unreachable_from d.name first 0 d.rules

-- `lintTable`
unfoldable pub lint_table : StageFields → List Finding
lint_table d = if is_first_match d.hit_policy then lint_rules d (catch_all_from 0 d.rules) else []

abbrev pub lint_stage : StageDef → List Finding
lint_stage (stage_def d inner) =
    if text_eq d.kind (codes "decision-table") then lint_table d else []

unfoldable pub lint_stages : StageDefs → List Finding
lint_stages no_more = []
lint_stages (stage_then sd sds) = lint_stage sd ++ lint_stages sds

-- `Lint`: the inner stages of a foreach are not visited.
unfoldable pub lint : PipelineDef → List Finding
lint d = lint_stages d.stages
