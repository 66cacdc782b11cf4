-- ===== src/Pipeline/Dependencies.antt =====
-- The order and the levels of the stages, stated with names alone.
use rlng.Base.{
  ◌≤◌, ◌≡◌, refl, sym, inl, inr, true, List, [], ◌∷◌, ◌++◌, arith, All, All-map, Among, subst,
  length, ap, Bool-cases,
}
use rlng.Base.Text.{Text, text_eq, text_eq_iff}
use rlng.Error.{ok}
use rlng.Stage.{Stage}
use rlng.Pipeline.{mem_text, names, all_emitted, topo_sort, compute_levels}
use rlng.Pipeline.Topology.{IsSorted, topo_sort-IsSorted}
use rlng.Pipeline.Levels.{IsLayered, compute_levels-IsLayered}

-- Every dependency of the stage is one of the names.
abbrev pub IsMet : List Text → Stage → Type 0
IsMet before s = All (λ dep. Among dep before) s.depends_on

-- After the names of `before`, each stage comes after its dependencies and under a new name.
abbrev pub IsTopological : List Text → List Stage → Type 0
IsTopological before [] = Unit
IsTopological before (s ∷ ss) =
    IsMet before s × (¬ (Among s.name before)) × IsTopological (before ++ s.name ∷ []) ss

-- Each stage of each level has its dependencies among `before` or in the levels before its own.
abbrev pub IsStratified : List Text → List (List Stage) → Type 0
IsStratified before [] = Unit
IsStratified before (l ∷ ls) = All (IsMet before) l × IsStratified (before ++ names l) ls

Among-of_mem : (t : Text) (us : List Text) → mem_text t us ≡ true → Among t us
unfolding mem_text
Among-of_mem t [] h = ground arith
Among-of_mem t (u ∷ us) h = elim (Bool-cases (text_eq u t)) [
  | inl same ↦ inl (sym ((text_eq_iff u t).0 same))
  | inr other ↦ inr (Among-of_mem t us (ground arith))
]

mem-of_Among : (t : Text) (us : List Text) → Among t us → mem_text t us ≡ true
unfolding mem_text
mem-of_Among t [] m = elim m [ ]
mem-of_Among t (u ∷ us) (inl e) = ground (arith, text_eq_iff u t)
mem-of_Among t (u ∷ us) (inr m) = ground (arith, mem-of_Among t us m)

met_of_emitted :
    (deps : List Text) (ordered : List Stage)
    → all_emitted deps ordered ≡ true
    → All (λ dep. Among dep (names ordered)) deps
unfolding all_emitted
met_of_emitted [] ordered h = tt
met_of_emitted (dep ∷ deps) ordered h =
    (Among-of_mem dep (names ordered) (ground arith), met_of_emitted deps ordered (ground arith))

names-append : (a b : List Stage) → names (a ++ b) ≡ names a ++ names b
names-append [] b = refl
names-append (s ∷ a) b = ap (λ l. s.name ∷ l) (names-append a b)

IsTopological-of_sorted :
    (before ss : List Stage) → IsSorted before ss → IsTopological (names before) ss
IsTopological-of_sorted before [] h = tt
IsTopological-of_sorted before (s ∷ ss) h = (
  met_of_emitted s.depends_on before h.0,
  (λ m. ground (arith, mem-of_Among s.name (names before) m, h.1)),
  subst (λ l. IsTopological l ss) (names-append before (s ∷ []))
      (IsTopological-of_sorted (before ++ (s ∷ [])) ss h.2),
)

IsStratified-of_layered :
    (before : List Stage) (ls : List (List Stage))
    → IsLayered before ls
    → IsStratified (names before) ls
IsStratified-of_layered before [] h = tt
IsStratified-of_layered before (l ∷ ls) h = (
  All-map _ _ l (λ s. met_of_emitted s.depends_on before) h.0,
  subst (λ k. IsStratified k ls) (names-append before l)
      (IsStratified-of_layered (before ++ l) ls h.1),
)

-- In an order that topoSort returns, each stage stands after stages with the names of all its
-- dependencies and has a name that no earlier stage has, and there are at least as many stages as
-- were given.
pub topo_sort-IsTopological :
    (stages : List Stage) {ordered : List Stage}
    → topo_sort stages ≡ ok ordered
    → IsTopological [] ordered × (length stages ≤ length ordered)
topo_sort-IsTopological stages {ordered} e =
    let (sorted, full) = topo_sort-IsSorted stages e in
    (IsTopological-of_sorted [] ordered sorted, full)

-- In the levels that computeLevels makes of an order returned by topoSort, every dependency of a
-- stage is the name of a stage in an earlier level.
pub compute_levels-IsStratified :
    (stages : List Stage) {ordered : List Stage}
    → topo_sort stages ≡ ok ordered
    → IsStratified [] (compute_levels ordered)
compute_levels-IsStratified stages {ordered} e =
    IsStratified-of_layered [] (compute_levels ordered) (compute_levels-IsLayered stages e)
