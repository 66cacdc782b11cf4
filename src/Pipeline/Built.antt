-- ===== src/Pipeline/Built.antt =====
-- What a pipeline that NewPipeline returns is like.
use rlng.Base.{
  ◌≡◌, refl, ◌⊎◌, inl, inr, true, false, none, List, [], ◌∷◌, arith, All, All-map, ℕ, Option-cases,
  Bool-cases,
}
use mathlib.Core.List.{Perm}
use rlng.Base.Int.{ℤ, pos, eqb_ℤ}
use rlng.Base.Text.{Text, text_eq_iff}
use rlng.Error.{ok, Cases, Result-Cases, ok_injective}
use rlng.Scope.{RulesetIdentity}
use rlng.Stage.{Stage}
use rlng.Pipeline.{mem_text, names, topo_sort, compute_levels}
use rlng.Pipeline.Build.{
  Pipeline, PipelineOption, parallelism, assemble, first_duplicate, first_unknown, invalid_bound,
  unknown_in, configured, new_pipeline,
}
use rlng.Pipeline.Complete.{IsDistinct, topo_sort-perm}
use rlng.Pipeline.Acyclic.{IsRanked, topo_sort_total}
use rlng.Pipeline.Dependencies.{IsTopological, topo_sort-IsTopological}

-- The checks passed and the parts were computed from the stages.
abbrev pub IsBuilt : List Stage → Pipeline → Type 0
IsBuilt stages p =
    (first_duplicate [] stages ≡ none)
    × (first_unknown stages (names stages) ≡ none)
    × (topo_sort stages ≡ ok p.ordered)
    × ((p.levels ≡ compute_levels p.ordered)
        ⊎ ((p.levels ≡ []) × (eqb_ℤ p.max_parallel (pos 0) ≡ true)))

assemble-levels :
    (id : RulesetIdentity) (n : ℤ) (ordered : List Stage)
    → ((assemble id n ordered).levels ≡ compute_levels ordered)
      ⊎ (((assemble id n ordered).levels ≡ []) × (eqb_ℤ n (pos 0) ≡ true))
assemble-levels id n ordered = elim (Bool-cases (eqb_ℤ n (pos 0))) [
  | inl none_asked ↦ inr (rw none_asked, none_asked)
  | inr waves ↦ inl (rw waves)
]

pub new_pipeline-IsBuilt :
    (stages : List Stage) (opts : List PipelineOption) {p : Pipeline}
    → new_pipeline stages opts ≡ ok p
    → IsBuilt stages p
unfolding new_pipeline
new_pipeline-IsBuilt stages opts {p} e =
    let cfg = configured opts in
    elim (Option-cases (invalid_bound cfg.mode)) [
      | inr (n, bad) ↦ ground arith
      | inl valid ↦ elim (Option-cases (first_duplicate [] stages)) [
        | inr (name, dup) ↦ ground arith
        | inl distinct ↦ elim (Option-cases (first_unknown stages (names stages))) [
          | inr (pair, missing) ↦ ground arith
          | inl known ↦ elim (Result-Cases (topo_sort stages)) [
            | Cases.bad x cycle ↦ ground arith
            | Cases.good ordered sorted ↦
                let same = ok_injective (rw (valid, distinct, known, sorted) at e) in
                rw (← same) (
                  distinct,
                  known,
                  sorted,
                  assemble-levels cfg.identity (parallelism cfg.mode) ordered,
                )
          ]
        ]
      ]
    ]

mem-of_fresh :
    (t : Text) (seen : List Text) (ss : List Stage)
    → All (λ x. mem_text x.name (t ∷ seen) ≡ false) ss
    → (mem_text t (names ss) ≡ false) × All (λ x. mem_text x.name seen ≡ false) ss
unfolding mem_text
mem-of_fresh t seen [] h = (refl, tt)
mem-of_fresh t seen (s ∷ ss) h =
    let (m, all) = mem-of_fresh t seen ss h.1 in
    (ground (arith, text_eq_iff s.name t, text_eq_iff t s.name), (ground arith, all))

IsDistinct-of_none :
    (seen : List Text) (ss : List Stage)
    → first_duplicate seen ss ≡ none
    → IsDistinct ss × All (λ x. mem_text x.name seen ≡ false) ss
unfolding first_duplicate
IsDistinct-of_none seen [] h = (tt, tt)
IsDistinct-of_none seen (s ∷ ss) h =
    let (d, fresh) = IsDistinct-of_none (s.name ∷ seen) ss (ground arith) in
    let (m, all) = mem-of_fresh s.name seen ss fresh in ((m, d), (ground arith, all))

-- A pipeline that NewPipeline returns has each of the given stages exactly once, in an order in
-- which each stage stands after stages with the names of all its dependencies.
pub new_pipeline_sound :
    (stages : List Stage) (opts : List PipelineOption) (p : Pipeline)
    → new_pipeline stages opts ≡ ok p
    → Perm p.ordered stages × IsTopological [] p.ordered
new_pipeline_sound stages opts p e =
    let (unique, known, sorted, levels) = new_pipeline-IsBuilt stages opts e in
    let (d, fresh) = IsDistinct-of_none [] stages unique in
    (topo_sort-perm stages d sorted, (topo_sort-IsTopological stages sorted).0)

unseen :
    (t : Text) (seen : List Text) (ss : List Stage)
    → mem_text t (names ss) ≡ false
    → All (λ x. mem_text x.name seen ≡ false) ss
    → All (λ x. mem_text x.name (t ∷ seen) ≡ false) ss
unfolding mem_text
unseen t seen [] m h = tt
unseen t seen (s ∷ ss) m h = (
  ground (arith, text_eq_iff s.name t, text_eq_iff t s.name, h.0),
  unseen t seen ss (ground arith) h.1,
)

seen_none :
    (seen : List Text) (ss : List Stage)
    → IsDistinct ss
    → All (λ x. mem_text x.name seen ≡ false) ss
    → first_duplicate seen ss ≡ none
unfolding first_duplicate
seen_none seen [] d h = refl
seen_none seen (s ∷ ss) d h =
    ground (arith, seen_none (s.name ∷ seen) ss d.1 (unseen s.name seen ss d.0 h.1), h.0)

All-known :
    (name : Text) (deps known : List Text)
    → All (λ dep. mem_text dep known ≡ true) deps
    → unknown_in name deps known ≡ none
All-known name [] known h = refl
All-known name (dep ∷ deps) known h = ground (arith, All-known name deps known h.1)

unknown_none :
    (ss : List Stage) (known : List Text)
    → All (λ s. All (λ dep. mem_text dep known ≡ true) s.depends_on) ss
    → first_unknown ss known ≡ none
unfolding first_unknown
unknown_none [] known h = refl
unknown_none (s ∷ ss) known h =
    ground (arith, All-known s.name s.depends_on known h.0, unknown_none ss known h.1)

none_seen : (ss : List Stage) → All (λ x. mem_text x.name [] ≡ false) ss
unfolding mem_text
none_seen [] = tt
none_seen (s ∷ ss) = (refl, none_seen ss)

-- NewPipeline returns a pipeline wherever the bound of the options is valid, the names are distinct,
-- and some rank falls along every dependency, each of which names a stage.
pub new_pipeline_total :
    (rank : Text → ℕ) (stages : List Stage) (opts : List PipelineOption)
    → invalid_bound (configured opts).mode ≡ none
    → IsDistinct stages
    → IsRanked rank stages
    → (p : Pipeline) × (new_pipeline stages opts ≡ ok p)
unfolding new_pipeline
new_pipeline_total rank stages opts valid d r =
    let cfg = configured opts in
    let (ordered, sorted) = topo_sort_total rank stages d r in
    (
      assemble cfg.identity (parallelism cfg.mode) ordered,
      rw (
        valid,
        seen_none [] stages d (none_seen stages),
        unknown_none stages (names stages)
            (All-map _ _ stages (λ s. All-map _ _ s.depends_on (λ dep k. k.0)) r),
        sorted,
      ),
    )

-- The pipeline has the identity that its options leave.
pub new_pipeline-identity :
    (stages : List Stage) (opts : List PipelineOption) {p : Pipeline}
    → new_pipeline stages opts ≡ ok p
    → p.identity ≡ (configured opts).identity
unfolding new_pipeline
new_pipeline-identity stages opts {p} e =
    let cfg = configured opts in
    elim (Option-cases (invalid_bound cfg.mode)) [
      | inr (n, bad) ↦ ground arith
      | inl valid ↦ elim (Option-cases (first_duplicate [] stages)) [
        | inr (name, dup) ↦ ground arith
        | inl distinct ↦ elim (Option-cases (first_unknown stages (names stages))) [
          | inr (pair, missing) ↦ ground arith
          | inl known ↦ elim (Result-Cases (topo_sort stages)) [
            | Cases.bad x cycle ↦ ground arith
            | Cases.good ordered sorted ↦
                rw (← ok_injective (rw (valid, distinct, known, sorted) at e)) refl
          ]
        ]
      ]
    ]
