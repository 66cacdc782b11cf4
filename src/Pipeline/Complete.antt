-- ===== src/Pipeline/Complete.antt =====
-- `topoSort` keeps every stage: with distinct names its result is a permutation of its input.
use rlng.Base.{
  ℕ, zero, suc, ◌+◌, ◌≡◌, refl, ap, inl, inr, true, false, ◌||◌, List, [], ◌∷◌, ◌++◌, length,
  length-append, arith, leb, ◌==◌, if◌then◌else◌, Bool-cases, subst, append_assoc, append-nil,
  Among, All, Among-All, perm-length,
}
use mathlib.Core.List.{Perm}
use mathlib.Core.List.Perm
use rlng.Base.Text.{Text, text_eq, text_eq_iff, text_eq_refl}
use rlng.Error.{ok, ok_injective}
use rlng.Stage.{Stage}
use rlng.Pipeline.Topology.{topo_sort-IsSorted}
use rlng.Pipeline.{mem_text, names, ready, emit_pass, topo_loop, topo_sort}

-- No name occurs twice.
abbrev pub IsDistinct : List Stage → Type 0
IsDistinct [] = Unit
IsDistinct (s ∷ ss) = (mem_text s.name (names ss) ≡ false) × IsDistinct ss

-- The stages that are not emitted.
unfoldable pub missing : List Stage → List Stage → List Stage
missing ordered [] = []
missing ordered (s ∷ ss) =
    let rest = missing ordered ss in if mem_text s.name (names ordered) then rest else s ∷ rest

mem_text-names-snoc :
    (t : Text) (o : List Stage) (s : Stage)
    → mem_text t (names (o ++ s ∷ [])) ≡ mem_text t (names o) || text_eq s.name t
unfolding mem_text
mem_text-names-snoc t [] s = ground arith
mem_text-names-snoc t (x ∷ o) s = ground (arith, mem_text-names-snoc t o s)

mem_text_of_Among : (s : Stage) (l : List Stage) → Among s l → mem_text s.name (names l) ≡ true
unfolding mem_text
mem_text_of_Among s [] m = elim m [ ]
mem_text_of_Among s (x ∷ l) (inl e) =
    ground (arith, ap (λ (t : Stage). t.name) e, text_eq_iff x.name s.name)
mem_text_of_Among s (x ∷ l) (inr m) = ground (arith, mem_text_of_Among s l m)

missing-snoc_fresh :
    (s : Stage) (o l : List Stage)
    → mem_text s.name (names l) ≡ false
    → missing (o ++ s ∷ []) l ≡ missing o l
unfolding missing mem_text
missing-snoc_fresh s o [] h = refl
missing-snoc_fresh s o (x ∷ l) h = ground (
  arith,
  missing-snoc_fresh s o l,
  mem_text-names-snoc x.name o s,
  text_eq_iff x.name s.name,
  text_eq_iff s.name x.name,
)

missing-snoc_head :
    (s : Stage) (o l : List Stage)
    → IsDistinct (s ∷ l)
    → mem_text s.name (names o) ≡ false
    → Perm (s ∷ missing (o ++ s ∷ []) (s ∷ l)) (missing o (s ∷ l))
unfolding missing
missing-snoc_head s o l d h =
    rw (mem_text-names-snoc s.name o s, text_eq_refl s.name, h, missing-snoc_fresh s o l d.0)
      (Perm.refl _)

other_name :
    (s x : Stage) (l : List Stage)
    → Among s l
    → mem_text x.name (names l) ≡ false
    → text_eq s.name x.name ≡ false
other_name s x l m h = ground (
  arith,
  mem_text_of_Among s l m,
  text_eq_iff s.name x.name,
  ap (λ (t : Text). mem_text t (names l)) {x = s.name} {y = x.name},
)

missing-snoc-perm :
    (s : Stage) (o l : List Stage)
    → IsDistinct l
    → Among s l
    → mem_text s.name (names o) ≡ false
    → Perm (s ∷ missing (o ++ s ∷ []) l) (missing o l)
unfolding missing
missing-snoc-perm s o [] d m h = elim m [ ]
missing-snoc-perm s o (x ∷ l) d (inl e) h =
    subst (λ y. IsDistinct (y ∷ l) → Perm (s ∷ missing (o ++ s ∷ []) (y ∷ l)) (missing o (y ∷ l))) e
      (λ d'. missing-snoc_head s o l d' h) d
missing-snoc-perm s o (x ∷ l) d (inr m) h =
    let same : mem_text x.name (names (o ++ s ∷ [])) ≡ mem_text x.name (names o) =
      ground (arith, mem_text-names-snoc x.name o s, other_name s x l m d.0) in
    elim (Bool-cases (mem_text x.name (names o))) [
      | inl out ↦ rw (missing, same, out) (missing-snoc-perm s o l d.1 m h)
      | inr stays ↦
          rw (missing, same, stays)
            (Perm.trans (Perm.swap _ _ _) (Perm.cons x (missing-snoc-perm s o l d.1 m h)))
    ]

-- What is emitted and what is missing make up the stages.
abbrev pub Complete : List Stage → List Stage → Type 0
Complete stages ordered = Perm (ordered ++ missing ordered stages) stages

pub emit_pass-Complete :
    (stages : List Stage)
    → IsDistinct stages
    → (ss ordered : List Stage) → All (λ s. Among s stages) ss
    → Complete stages ordered
    → Complete stages (emit_pass ss ordered)
unfolding emit_pass
emit_pass-Complete stages d [] ordered m c = c
emit_pass-Complete stages d (s ∷ ss) ordered m c = elim (Bool-cases (ready s ordered)) [
  | inl now ↦ rw now (
      emit_pass-Complete stages d ss (ordered ++ (s ∷ [])) m.1 (
        rw append_assoc (
          Perm.trans
            (Perm.append_left ordered (missing-snoc-perm s ordered stages d m.0 (ground arith)))
            c)))
  | inr later ↦ rw later (emit_pass-Complete stages d ss ordered m.1 c)
]

topo_loop-Complete :
    (fuel : ℕ) (stages ordered : List Stage) {result : List Stage}
    → IsDistinct stages
    → Complete stages ordered
    → topo_loop fuel stages ordered ≡ ok result
    → Complete stages result
unfolding topo_loop
topo_loop-Complete zero stages ordered d c e = ground arith
topo_loop-Complete (suc fuel) stages ordered d c e =
    elim (Bool-cases (leb (length stages) (length ordered))) [
      | inl done ↦ rw (← ok_injective (rw (done, topo_loop) at e)) c
      | inr more ↦ elim (Bool-cases (length (emit_pass stages ordered) == length ordered)) [
        | inl stalled ↦ ground arith
        | inr progress ↦
            topo_loop-Complete fuel stages (emit_pass stages ordered) d
              (emit_pass-Complete stages d stages ordered (Among-All stages) c) (ground arith)
      ]
    ]

pub missing-none : (stages : List Stage) → missing [] stages ≡ stages
unfolding missing mem_text
missing-none [] = refl
missing-none (s ∷ ss) = ap (λ l. s ∷ l) (missing-none ss)

-- With distinct names topoSort returns each given stage exactly once.
pub topo_sort-perm :
    (stages : List Stage) {ordered : List Stage}
    → IsDistinct stages
    → topo_sort stages ≡ ok ordered
    → Perm ordered stages
unfolding topo_sort
topo_sort-perm stages {ordered} d e =
    let c =
      topo_loop-Complete (length stages + 1) stages [] d (rw missing-none (Perm.refl stages)) e in
    let full = topo_sort-IsSorted stages e in
    no_rest (missing ordered stages)
      (omega (arith, perm-length c, length-append ordered (missing ordered stages), full.1)) c
  where
    no_rest :
        (rest : List Stage) → length rest ≡ 0 → Perm (ordered ++ rest) stages → Perm ordered stages
    no_rest [] h p = rw append-nil at p
    no_rest (s ∷ ss) h p = absurd (omega arith)
