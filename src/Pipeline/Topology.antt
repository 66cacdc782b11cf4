-- ===== src/Pipeline/Topology.antt =====
-- Correctness of `topoSort`: it ends, its result is in dependency order, and a pass only moves
-- stages that are ready.
use rlng.Base.{
  ℕ, zero, suc, ◌+◌, ◌≤◌, ◌<◌, ◌≡◌, ◌≢◌, inl, inr, true, false, List, [], ◌∷◌, ◌++◌, length,
  length-append, arith, leb, ◌==◌, Bool-cases, append_assoc, append-nil,
}
use rlng.Error.{out_of_fuel, ok, err, ok_injective}
use rlng.Stage.{Stage}
use rlng.Pipeline.{mem_text, names, all_emitted, ready, emit_pass, topo_loop, topo_sort}

-- After the stages of `before`, each stage of the list comes once and after its dependencies.
abbrev pub IsSorted : List Stage → List Stage → Type 0
IsSorted before [] = Unit
IsSorted before (s ∷ ss) =
    (all_emitted s.depends_on before ≡ true)
    × (mem_text s.name (names before) ≡ false)
    × IsSorted (before ++ (s ∷ [])) ss

IsSorted-one : (before : List Stage) (s : Stage) → ready s before ≡ true → IsSorted before (s ∷ [])
IsSorted-one before s r = ground arith

pub IsSorted-snoc :
    (before ss : List Stage) (s : Stage)
    → IsSorted before ss
    → ready s (before ++ ss) ≡ true
    → IsSorted before (ss ++ s ∷ [])
IsSorted-snoc before [] s h r = IsSorted-one before s (rw append-nil at r)
IsSorted-snoc before (x ∷ ss) s h r =
    (h.0, h.1, IsSorted-snoc (before ++ (x ∷ [])) ss s h.2 (rw append_assoc r))

emit_pass-IsSorted :
    (ss ordered : List Stage) → IsSorted [] ordered → IsSorted [] (emit_pass ss ordered)
unfolding emit_pass
emit_pass-IsSorted [] ordered h = h
emit_pass-IsSorted (s ∷ ss) ordered h = elim (Bool-cases (ready s ordered)) [
  | inl now ↦
      rw now (emit_pass-IsSorted ss (ordered ++ (s ∷ [])) (IsSorted-snoc [] ordered s h now))
  | inr later ↦ rw later (emit_pass-IsSorted ss ordered h)
]

pub length-le-emit_pass : (ss ordered : List Stage) → length ordered ≤ length (emit_pass ss ordered)
unfolding emit_pass
length-le-emit_pass [] ordered = omega arith
length-le-emit_pass (s ∷ ss) ordered = ground (
  arith,
  length-le-emit_pass ss ordered,
  length-le-emit_pass ss (ordered ++ (s ∷ [])),
  length-append ordered (s ∷ []),
)

topo_loop-ne-out_of_fuel :
    (fuel : ℕ) (stages ordered : List Stage)
    → length stages < fuel + length ordered
    → 0 < fuel
    → topo_loop fuel stages ordered ≢ err out_of_fuel
unfolding topo_loop
topo_loop-ne-out_of_fuel zero stages ordered h p = elim p [ ]
topo_loop-ne-out_of_fuel (suc zero) stages ordered h p = ground arith
topo_loop-ne-out_of_fuel (suc (suc fuel)) stages ordered h p = ground (
  arith,
  topo_loop-ne-out_of_fuel (suc fuel) stages (emit_pass stages ordered),
  length-le-emit_pass stages ordered,
)

topo_loop-IsSorted :
    (fuel : ℕ) (stages ordered : List Stage) {result : List Stage}
    → IsSorted [] ordered
    → topo_loop fuel stages ordered ≡ ok result
    → IsSorted [] result × (length stages ≤ length result)
unfolding topo_loop
topo_loop-IsSorted zero stages ordered h e = ground arith
topo_loop-IsSorted (suc fuel) stages ordered h e =
    elim (Bool-cases (leb (length stages) (length ordered))) [
      | inl done ↦
          let same = ok_injective (rw (done, topo_loop) at e) in rw (← same) (h, ground arith)
      | inr more ↦ elim (Bool-cases (length (emit_pass stages ordered) == length ordered)) [
        | inl stalled ↦ ground arith
        | inr progress ↦
            topo_loop-IsSorted fuel stages (emit_pass stages ordered)
              (emit_pass-IsSorted stages ordered h) (ground arith)
      ]
    ]

-- topoSort ends within its fuel on every set of stages, so its loop terminates.
pub topo_sort-ne-out_of_fuel : (stages : List Stage) → topo_sort stages ≢ err out_of_fuel
unfolding topo_sort
topo_sort-ne-out_of_fuel stages =
    topo_loop-ne-out_of_fuel (length stages + 1) stages [] (omega arith) (omega arith)

pub topo_sort-IsSorted :
    (stages : List Stage) {ordered : List Stage}
    → topo_sort stages ≡ ok ordered
    → IsSorted [] ordered × (length stages ≤ length ordered)
unfolding topo_sort
topo_sort-IsSorted stages e = topo_loop-IsSorted (length stages + 1) stages [] tt e
