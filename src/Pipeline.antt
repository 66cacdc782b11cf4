-- ===== src/Pipeline.antt =====
-- pipe/pipeline.go: building a pipeline. `topoSort` is Kahn's algorithm in passes over the stages
-- in their given order; `findCycle` and `computeLevels`.
pub mod Build
pub mod Topology
pub mod Levels
pub mod Complete
pub mod Acyclic
pub mod Run
pub mod Timing
pub mod Timed
pub mod Tracked
pub mod Clocked
pub mod Settings
pub mod Durations
pub mod Contents
pub mod Dependencies
pub mod Built
pub mod Waves
pub mod Isolation
pub mod Alone
pub mod Liveness
pub mod Ended
pub mod Pigeonhole
pub mod Cycles
use rlng.Base.{
  ℕ, zero, suc, ◌+◌, ◌≡◌, Bool, true, false, not, ◌&&◌, ◌||◌, Option, none, some, List, [], ◌∷◌,
  ◌++◌, map, length, ltb, leb, ◌==◌, if◌then◌else◌,
}
use rlng.Base.Text.{Text, text_eq}
use rlng.Base.Dict.{Dict, lookup, insert}
use rlng.Error.{Error, cycle_error, out_of_fuel, Result, ok, err}
use rlng.Stage.{Stage}

unfoldable pub mem_text : Text → List Text → Bool
mem_text t [] = false
mem_text t (u ∷ us) = text_eq u t || mem_text t us

abbrev pub names : List Stage → List Text
names stages = map (λ s. s.name) stages

-- `depsSatisfied`. The set `emitted` holds the names of the stages in `ordered`.
unfoldable pub all_emitted : List Text → List Stage → Bool
all_emitted [] ordered = true
all_emitted (dep ∷ deps) ordered = mem_text dep (names ordered) && all_emitted deps ordered

abbrev pub ready : Stage → List Stage → Bool
ready s ordered = not (mem_text s.name (names ordered)) && all_emitted s.depends_on ordered

-- The `for` loop of `topoSort`: one pass over the stages.
unfoldable pub emit_pass : List Stage → List Stage → List Stage
emit_pass [] ordered = ordered
emit_pass (s ∷ ss) ordered = emit_pass ss (if ready s ordered then ordered ++ (s ∷ []) else ordered)

abbrev pub stage_at : Text → List Stage → Option Stage
stage_at name [] = none
stage_at name (s ∷ ss) = if text_eq s.name name then some s else stage_at name ss

-- The first dependency that is not emitted; the loop keeps `cur` where there is none.
abbrev pub first_unmet : List Text → List Stage → Text → Text
first_unmet [] ordered cur = cur
first_unmet (dep ∷ deps) ordered cur =
    if mem_text dep (names ordered) then first_unmet deps ordered cur else dep

abbrev pub depends_of : Option Stage → List Text
depends_of none = []
depends_of (some s) = s.depends_on

-- `path[posOf[cur]:]`
abbrev pub from_first : Text → List Text → List Text
from_first cur [] = []
from_first cur (t ∷ ts) = if text_eq t cur then t ∷ ts else from_first cur ts

-- The second loop of `findCycle`; `path` is in the order of the walk.
unfoldable pub follow : ℕ → List Stage → List Stage → List Text → Text → List Text
follow zero stages ordered path cur = []
follow (suc fuel) stages ordered path cur =
    let next = first_unmet (depends_of (stage_at cur stages)) ordered cur in
    let rest = follow fuel stages ordered (path ++ (cur ∷ [])) next in
    if mem_text cur path then from_first cur path ++ (cur ∷ []) else rest

abbrev pub first_waiting : List Stage → List Stage → Text
first_waiting [] ordered = []
first_waiting (s ∷ ss) ordered =
    if mem_text s.name (names ordered) then first_waiting ss ordered else s.name

unfoldable pub find_cycle : List Stage → List Stage → List Text
find_cycle stages ordered =
    follow (length stages + 2) stages ordered [] (first_waiting stages ordered)

-- The outer loop of `topoSort`, on fuel.
unfoldable pub topo_loop : ℕ → List Stage → List Stage → Result (List Stage)
topo_loop zero stages ordered = err out_of_fuel
topo_loop (suc fuel) stages ordered =
    let next = emit_pass stages ordered in
    let rest = topo_loop fuel stages next in
    if leb (length stages) (length ordered)
    then ok ordered
    else if length next == length ordered
    then err (cycle_error (find_cycle stages ordered))
    else rest

unfoldable pub topo_sort : List Stage → Result (List Stage)
topo_sort stages = topo_loop (length stages + 1) stages []

abbrev pub level_or_zero : Option ℕ → ℕ
level_or_zero none = 0
level_or_zero (some n) = n

-- The level of a stage, from the levels of its dependencies.
unfoldable pub level_of : Dict ℕ → List Text → ℕ → ℕ
level_of lvl_of [] lvl = lvl
level_of lvl_of (dep ∷ deps) lvl =
    let d = level_or_zero (lookup dep lvl_of) + 1 in
    level_of lvl_of deps (if ltb lvl d then d else lvl)

unfoldable pub place : ℕ → Stage → List (List Stage) → List (List Stage)
place zero s [] = (s ∷ []) ∷ []
place zero s (l ∷ ls) = (l ++ (s ∷ [])) ∷ ls
place (suc n) s [] = [] ∷ place n s []
place (suc n) s (l ∷ ls) = l ∷ place n s ls

unfoldable pub levels_from : List Stage → Dict ℕ → List (List Stage) → List (List Stage)
levels_from [] lvl_of levels = levels
levels_from (s ∷ ss) lvl_of levels =
    let lvl = level_of lvl_of s.depends_on 0 in
    levels_from ss (insert s.name lvl lvl_of) (place lvl s levels)

-- `computeLevels`
unfoldable pub compute_levels : List Stage → List (List Stage)
compute_levels ordered = levels_from ordered [] []
