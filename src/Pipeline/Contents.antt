-- ===== src/Pipeline/Contents.antt =====
-- The stages of a pipeline are those it was built from.
use rlng.Base.{
  ℕ, zero, suc, ◌+◌, ◌≡◌, List, [], ◌∷◌, ◌++◌, arith, All, All-append, Bool-cases, inl, inr, sym,
  subst, length, leb, ◌==◌,
}
use rlng.Base.Dict.{Dict}
use rlng.Error.{ok, ok_injective}
use rlng.Stage.{Stage}
use rlng.Pipeline.{
  ready, emit_pass, topo_loop, topo_sort, level_of, place, levels_from, compute_levels,
}
use rlng.Pipeline.Build.{Pipeline, PipelineOption, new_pipeline}
use rlng.Pipeline.Built.{new_pipeline-IsBuilt}

module _ (P : Stage → Type 0) where
  emit_pass-All :
      (ss ordered : List Stage) → All P ss → All P ordered → All P (emit_pass ss ordered)
  unfolding emit_pass
  emit_pass-All [] ordered h k = k
  emit_pass-All (s ∷ ss) ordered h k = elim (Bool-cases (ready s ordered)) [
    | inl now ↦
        rw now
          (emit_pass-All ss (ordered ++ s ∷ []) h.1 (All-append P ordered (s ∷ []) k (h.0, tt)))
    | inr later ↦ rw later (emit_pass-All ss ordered h.1 k)
  ]

  topo_loop-All :
      (fuel : ℕ) (stages ordered : List Stage) {result : List Stage}
      → All P stages
      → All P ordered
      → topo_loop fuel stages ordered ≡ ok result
      → All P result
  unfolding topo_loop
  topo_loop-All zero stages ordered h k e = ground arith
  topo_loop-All (suc fuel) stages ordered h k e =
      elim (Bool-cases (leb (length stages) (length ordered))) [
        | inl done ↦ rw (← ok_injective (rw (done, topo_loop) at e)) k
        | inr more ↦ elim (Bool-cases (length (emit_pass stages ordered) == length ordered)) [
          | inl stalled ↦ ground arith
          | inr progress ↦
              topo_loop-All fuel stages (emit_pass stages ordered) h
                (emit_pass-All stages ordered h k) (ground arith)
        ]
      ]

  place-All :
      (n : ℕ) (s : Stage) (levels : List (List Stage))
      → P s
      → All (All P) levels
      → All (All P) (place n s levels)
  unfolding place
  place-All zero s [] h k = ((h, tt), tt)
  place-All zero s (l ∷ ls) h k = (All-append P l (s ∷ []) k.0 (h, tt), k.1)
  place-All (suc n) s [] h k = (tt, place-All n s [] h k)
  place-All (suc n) s (l ∷ ls) h k = (k.0, place-All n s ls h k.1)

  levels_from-All :
      (ss : List Stage) (lvl_of : Dict ℕ) (levels : List (List Stage))
      → All P ss
      → All (All P) levels
      → All (All P) (levels_from ss lvl_of levels)
  unfolding levels_from
  levels_from-All [] lvl_of levels h k = k
  levels_from-All (s ∷ ss) lvl_of levels h k =
      levels_from-All ss _ _ h.1 (place-All (level_of lvl_of s.depends_on 0) s levels h.0 k)

  -- What holds of all stages given to NewPipeline holds of all stages of the pipeline.
  pub new_pipeline-All :
      (stages : List Stage) (opts : List PipelineOption) {p : Pipeline}
      → new_pipeline stages opts ≡ ok p
      → All P stages
      → All P p.ordered × All (All P) p.levels
  unfolding topo_sort compute_levels
  new_pipeline-All stages opts {p} e h =
      let (unique, known, sorted, levels) = new_pipeline-IsBuilt stages opts e in
      let ordered = topo_loop-All (length stages + 1) stages [] h tt sorted in
      (
        ordered,
        elim levels [
          | inl computed ↦
              subst (All (All P)) (sym computed) (levels_from-All p.ordered [] [] ordered tt)
          | inr unused ↦ subst (All (All P)) (sym unused.0) tt
        ],
      )
