-- ===== src/Tests/Graphs.antt =====
-- The theorems on orders, levels and cycles at three stages.
use rlng.Base.{ℕ, ◌≡◌, ◌≢◌, refl, true, List, [], ◌∷◌, arith, String}
use rlng.Base.Text.{Text, codes, text_eq}
use rlng.Base.Dict.{lookup, insert}
use rlng.Error.{out_of_fuel, cycle_error, ok, err}
use rlng.Stage.{Stage, table_stage}
use rlng.Pipeline.{
  mem_text, all_emitted, emit_pass, topo_loop, topo_sort, level_of, place, levels_from,
  compute_levels,
}
use rlng.Pipeline.{find_cycle, follow}
use rlng.Pipeline.Cycles.{IsCycle, topo_sort-IsCycle}
use rlng.Pipeline.Topology.{topo_sort-ne-out_of_fuel}
use rlng.Pipeline.Complete.{IsDistinct}
use rlng.Pipeline.Acyclic.{IsRanked}
use rlng.Pipeline.Dependencies.{IsTopological, IsStratified, compute_levels-IsStratified}
use rlng.Base.{false, none, ◌==◌, All}
use rlng.Stage.{Exec}
use rlng.Tests.Data.{scope}
use rlng.Pipeline.{names}
use rlng.Pipeline.Run.{run_levels, run_sequential}
use rlng.Pipeline.Waves.{singletons, run_levels-eq-run_sequential}
use rlng.Base.Int.{pos}
use rlng.Scope.{no_ruleset}
use rlng.Pipeline.Build.{
  Pipeline, with_max_parallel, configure_all, configured, invalid_bound, first_duplicate,
  first_unknown, new_pipeline,
}
use rlng.Pipeline.Built.{new_pipeline_sound, new_pipeline_total}
use rlng.Table.{policy_single}
use rlng.Tests.Data.{exact, rule, table}
use mathlib.Core.List.{Perm}

abbrev stage : String → List Text → Stage
stage name deps = table_stage exact (table name policy_single (rule true 1 ∷ []) deps)

-- `c` depends on `b` and `a`, `b` on `a`.
abbrev a : Stage
a = stage "a" []

abbrev b : Stage
b = stage "b" (codes "a" ∷ [])

abbrev c : Stage
c = stage "c" (codes "b" ∷ codes "a" ∷ [])

abbrev given_order : List Stage
given_order = c ∷ b ∷ a ∷ []

sorted : topo_sort given_order ≡ ok (a ∷ b ∷ c ∷ [])
unfolding topo_sort topo_loop emit_pass all_emitted mem_text text_eq
sorted = refl

distinct : IsDistinct given_order
unfolding mem_text text_eq
distinct = (refl, (refl, (refl, tt)))

-- The last letter of a name, as its rank.
abbrev rank : Text → ℕ
rank [] = 0
rank (x ∷ s) = x

ranked : IsRanked rank given_order
unfolding mem_text text_eq
ranked = (((refl, omega arith), ((refl, omega arith), tt)), (((refl, omega arith), tt), (tt, tt)))

compute_levels-IsStratified_example : IsStratified [] (compute_levels (a ∷ b ∷ c ∷ []))
compute_levels-IsStratified_example = compute_levels-IsStratified given_order sorted

topo_sort-ne-out_of_fuel_example : topo_sort given_order ≢ err out_of_fuel
topo_sort-ne-out_of_fuel_example = topo_sort-ne-out_of_fuel given_order

-- The levels of three stages of which the second alone has a dependency are not their order.
abbrev free : Stage
free = stage "free" []

levels_out_of_order : compute_levels (a ∷ b ∷ free ∷ []) ≡ (a ∷ free ∷ []) ∷ (b ∷ []) ∷ []
unfolding compute_levels levels_from level_of place lookup insert text_eq
levels_out_of_order = refl

abbrev ordered_pipeline : Pipeline
ordered_pipeline = record {
  ordered = a ∷ b ∷ c ∷ [];
  levels = [];
  identity = no_ruleset;
  max_parallel = pos 0;
  wide = false;
}

built : new_pipeline given_order [] ≡ ok ordered_pipeline
unfolding new_pipeline configure_all first_duplicate first_unknown topo_sort topo_loop emit_pass
    all_emitted mem_text text_eq
built = refl

new_pipeline_sound_example : Perm (a ∷ b ∷ c ∷ []) given_order × IsTopological [] (a ∷ b ∷ c ∷ [])
new_pipeline_sound_example = new_pipeline_sound given_order [] ordered_pipeline built

valid_bound : invalid_bound (configured (with_max_parallel (pos 2) ∷ [])).mode ≡ none
unfolding configure_all
valid_bound = refl

new_pipeline_total_example :
    (p : Pipeline) × (new_pipeline given_order (with_max_parallel (pos 2) ∷ []) ≡ ok p)
new_pipeline_total_example =
    new_pipeline_total rank given_order (with_max_parallel (pos 2) ∷ []) valid_bound distinct ranked

listed_names : All (λ s. mem_text s.name (names (a ∷ b ∷ c ∷ [])) ≡ true) (a ∷ b ∷ c ∷ [])
unfolding mem_text text_eq
listed_names = (refl, (refl, (refl, tt)))

abbrev at_start : Exec
at_start = record { scope = scope; asks = 0 }

run_levels-eq-run_sequential_example :
    run_levels (λ n. n == 9) (λ l. l) (a ∷ b ∷ c ∷ []) (singletons (a ∷ b ∷ c ∷ [])) at_start
    ≡ run_sequential (λ n. n == 9) (a ∷ b ∷ c ∷ []) at_start
run_levels-eq-run_sequential_example =
    run_levels-eq-run_sequential (λ n. n == 9) (λ l. l) (a ∷ b ∷ c ∷ []) (a ∷ b ∷ c ∷ []) at_start
      (λ s. refl) listed_names

-- `d` depends on `a` and `e`, and `e` on `d`.
abbrev tied : List Stage
tied = stage "d" (codes "a" ∷ codes "e" ∷ []) ∷ a ∷ stage "e" (codes "d" ∷ []) ∷ []

abbrev tie : List Text
tie = codes "d" ∷ codes "e" ∷ codes "d" ∷ []

tied-refused : topo_sort tied ≡ err (cycle_error tie)
unfolding topo_sort topo_loop emit_pass all_emitted mem_text text_eq find_cycle follow
tied-refused = refl

tied-IsDistinct : IsDistinct tied
unfolding mem_text text_eq
tied-IsDistinct = (refl, (refl, (refl, tt)))

tied-known : All (λ s. All (λ dep. mem_text dep (names tied) ≡ true) s.depends_on) tied
unfolding mem_text text_eq
tied-known = ((refl, (refl, tt)), (tt, ((refl, tt), tt)))

topo_sort-IsCycle_example : IsCycle tied tie
topo_sort-IsCycle_example = topo_sort-IsCycle tied tie tied-IsDistinct tied-known tied-refused
