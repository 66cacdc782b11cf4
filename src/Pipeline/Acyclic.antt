-- ===== src/Pipeline/Acyclic.antt =====
-- `topoSort` reports a cycle only where there is one: a ranked set of stages is ordered.
use rlng.Base.{
  ℕ, zero, suc, ◌+◌, ◌<◌, ◌≡◌, refl, sym, ap, inl, inr, true, false, List, [], ◌∷◌, ◌++◌, length,
  length-append, arith, leb, ◌==◌, Bool-cases, subst, Among, All, All-map, Among-All, All-of,
  perm-length,
}
use rlng.Base.Text.{Text, text_eq, text_eq_iff}
use rlng.Error.{ok}
use rlng.Stage.{Stage}
use rlng.Pipeline.{mem_text, names, all_emitted, ready, emit_pass, topo_loop, topo_sort}
use rlng.Pipeline.Topology.{length-le-emit_pass}
use rlng.Pipeline.Complete.{IsDistinct, missing, Complete, emit_pass-Complete, missing-none}
use mathlib.Core.List.Perm

-- Each dependency of each stage names a stage of smaller rank.
abbrev pub IsRanked : (Text → ℕ) → List Stage → Type 0
IsRanked rank stages =
    All
      (λ s.
        All (λ dep. (mem_text dep (names stages) ≡ true) × (rank dep < rank s.name)) s.depends_on)
      stages

stalled-ready :
    (ss ordered : List Stage)
    → length (emit_pass ss ordered) ≡ length ordered
    → All (λ s. ready s ordered ≡ false) ss
unfolding emit_pass
stalled-ready [] ordered h = tt
stalled-ready (s ∷ ss) ordered h = elim (Bool-cases (ready s ordered)) [
  | inl now ↦
      absurd (
        ground
          (arith, length-le-emit_pass ss (ordered ++ (s ∷ [])), length-append ordered (s ∷ [])))
  | inr later ↦ (later, stalled-ready ss ordered (rw (later, emit_pass) at h))
]

stage_named :
    (t : Text) (ss : List Stage)
    → mem_text t (names ss) ≡ true
    → (s : Stage) × Among s ss × (s.name ≡ t)
unfolding mem_text
stage_named t [] h = ground arith
stage_named t (s ∷ ss) h = elim (Bool-cases (text_eq s.name t)) [
  | inl same ↦ (s, inl refl, (text_eq_iff s.name t).0 same)
  | inr other ↦ let (x, m, e) = stage_named t ss (ground arith) in (x, inr m, e)
]

all_at : (P : Stage → Type 0) (s : Stage) (ss : List Stage) → All P ss → Among s ss → P s
all_at P s [] h m = elim m [ ]
all_at P s (x ∷ ss) h (inl e) = subst P (sym e) h.0
all_at P s (x ∷ ss) h (inr m) = all_at P s ss h.1 m

all_emitted_of :
    (deps : List Text) (ordered : List Stage)
    → All (λ dep. mem_text dep (names ordered) ≡ true) deps
    → all_emitted deps ordered ≡ true
unfolding all_emitted
all_emitted_of [] ordered h = refl
all_emitted_of (dep ∷ deps) ordered h = ground (arith, all_emitted_of deps ordered h.1)

module _ (rank : Text → ℕ) (stages ordered : List Stage) (ranked : IsRanked rank stages)
    (stalled : All (λ s. ready s ordered ≡ false) stages) where
  emitted_below :
      (bound : ℕ) (s : Stage)
      → Among s stages
      → rank s.name < bound
      → mem_text s.name (names ordered) ≡ true
  emitted_below zero s m h = elim h [ ]
  emitted_below (suc bound) s m h =
      let deps =
        all_at
          (λ x.
            All (λ dep. (mem_text dep (names stages) ≡ true) × (rank dep < rank x.name))
              x.depends_on)
          s stages ranked m in
      let done = all_emitted_of s.depends_on ordered (
        All-map _ _ s.depends_on
          (λ dep p.
            let (x, mx, e) = stage_named dep stages p.0 in
            subst (λ t. mem_text t (names ordered) ≡ true) e
              (emitted_below bound x mx (ground (arith, ap rank e))))
          deps) in
      ground (arith, all_at (λ x. ready x ordered ≡ false) s stages stalled m, done)

missing_nil :
    (ordered ss : List Stage)
    → All (λ s. mem_text s.name (names ordered) ≡ true) ss
    → missing ordered ss ≡ []
unfolding missing
missing_nil ordered [] h = refl
missing_nil ordered (s ∷ ss) h = ground (arith, missing_nil ordered ss h.1)

all_emitted-of_stalled :
    (rank : Text → ℕ) (stages ordered : List Stage)
    → IsRanked rank stages
    → length (emit_pass stages ordered) ≡ length ordered
    → missing ordered stages ≡ []
all_emitted-of_stalled rank stages ordered ranked h = missing_nil ordered stages (
    All-of stages (λ s m.
      emitted_below rank stages ordered ranked (stalled-ready stages ordered h) (suc (rank s.name))
        s m (omega arith)))

topo_loop_total :
    (rank : Text → ℕ) (fuel : ℕ) (stages ordered : List Stage)
    → IsDistinct stages
    → IsRanked rank stages
    → Complete stages ordered
    → length stages < fuel + length ordered
    → 0 < fuel
    → (result : List Stage) × (topo_loop fuel stages ordered ≡ ok result)
unfolding topo_loop
topo_loop_total rank zero stages ordered d r c h p = elim p [ ]
topo_loop_total rank (suc fuel) stages ordered d r c h p =
    elim (Bool-cases (leb (length stages) (length ordered))) [
      | inl done ↦ (ordered, rw (done, topo_loop))
      | inr more ↦ elim (Bool-cases (length (emit_pass stages ordered) == length ordered)) [
        | inl stalled ↦
            let none_left = all_emitted-of_stalled rank stages ordered r (ground arith) in
            absurd (
              ground
                (arith, perm-length c, length-append ordered (missing ordered stages), none_left))
        | inr progress ↦
            let (result, e) =
              topo_loop_total rank fuel stages (emit_pass stages ordered) d r
                (emit_pass-Complete stages d stages ordered (Among-All stages) c)
                (ground (arith, length-le-emit_pass stages ordered)) (ground arith) in
            (result, rw (more, progress, topo_loop) e)
      ]
    ]

-- If the names are distinct and some rank falls along every dependency, then topoSort returns an
-- order: it reports a cycle only where no such rank exists.
pub topo_sort_total :
    (rank : Text → ℕ) (stages : List Stage)
    → IsDistinct stages
    → IsRanked rank stages
    → (ordered : List Stage) × (topo_sort stages ≡ ok ordered)
unfolding topo_sort
topo_sort_total rank stages d r =
    topo_loop_total rank (length stages + 1) stages [] d r (rw missing-none (Perm.refl stages))
      (omega arith) (omega arith)
