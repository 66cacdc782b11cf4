-- ===== src/Scope/Lineage/Order.antt =====
-- A lineage lists the derivations of a value's inputs before its own.
use rlng.Base.{
  ℕ, zero, suc, ◌≤◌, ◌<◌, ◌≡◌, ◌⊎◌, inl, inr, Bool, true, false, List, [], ◌∷◌, ◌++◌, arith, All,
  All-map, if◌then◌else◌, Bool-cases, append_assoc, append-nil, subst, ap, sym,
}
use rlng.Base.Text.{Text, text_eq, text_eq_iff, text_eq_refl}
use rlng.Base.Dict.{Dict}
use rlng.Scope.{Scope, Derivation}
use rlng.Scope.Lineage.{
  mem_path, derivations_for, sorted_inputs, Walk, enter, visit_inputs, visit_one, visit_derivations,
  collect_lineage, no_walk, lineage, max_lineage_depth,
}
use rlng.Scope.Lineage.Distinct.{paths, mem_path-snoc}
use rlng.Scope.Lineage.Found.{derivations_for-All}

abbrev Collected : Walk → Derivation → Type 0
Collected w d = mem_path d.path (paths w.out) ≡ true

module _ (ds : Dict Derivation) where
  -- Every derivation found for an input of `d` has its path among those of `before`.
  abbrev pub IsSupplied : List Derivation → Derivation → Type 0
  IsSupplied before d =
      All (λ id. All (λ e. mem_path e.path (paths before) ≡ true) (derivations_for ds id))
        (sorted_inputs d.inputs)

  -- After `before`, each derivation comes after those found for its inputs.
  abbrev pub IsOrdered : List Derivation → List Derivation → Type 0
  IsOrdered before [] = Unit
  IsOrdered before (d ∷ l) = IsSupplied before d × IsOrdered (before ++ d ∷ []) l

  IsOrdered-snoc :
      (before l : List Derivation) (d : Derivation)
      → IsOrdered before l
      → IsSupplied (before ++ l) d
      → IsOrdered before (l ++ d ∷ [])
  IsOrdered-snoc before [] d h s = (rw append-nil at s, tt)
  IsOrdered-snoc before (e ∷ l) d h s =
      (h.0, IsOrdered-snoc (before ++ e ∷ []) l d h.1 (rw append_assoc s))

  -- What is found for each input of `d` has a smaller rank than `d`.
  abbrev pub FallsAt : (Text → ℕ) → Derivation → Type 0
  FallsAt rank d =
      All (λ id. All (λ e. rank e.path < rank d.path) (derivations_for ds id))
        (sorted_inputs d.inputs)

  -- Visited paths of a rank below `r` are collected.
  abbrev IsSettled : (Text → ℕ) → ℕ → Walk → Type 0
  IsSettled rank r w =
      (t : Text) → mem_path t w.visited ≡ true → rank t < r → mem_path t (paths w.out) ≡ true

  -- What is collected stays so, and what is newly visited is collected.
  abbrev GoesOn : Walk → Walk → Type 0
  GoesOn w w' =
      ((t : Text) → mem_path t (paths w.out) ≡ true → mem_path t (paths w'.out) ≡ true)
      × ((t : Text)
          → mem_path t w'.visited ≡ true
          → (mem_path t w.visited ≡ true) ⊎ (mem_path t (paths w'.out) ≡ true))

  GoesOn-trans : (a b c : Walk) → GoesOn a b → GoesOn b c → GoesOn a c
  GoesOn-trans a b c (m, v) (m', v') = (
    λ t x. m' t (m t x),
    λ t x. elim (v' t x) [
      | inr there ↦ inr there
      | inl before ↦ elim (v t before) [ inl first ↦ inl first | inr mid ↦ inr (m' t mid) ]
    ],
  )

  IsSettled-on :
      (rank : Text → ℕ) (r : ℕ) (w w' : Walk)
      → GoesOn w w'
      → IsSettled rank r w
      → IsSettled rank r w'
  IsSettled-on rank r w w' (m, v) s t x below = elim (v t x) [
    | inl before ↦ m t (s t before below)
    | inr there ↦ there
  ]

  -- A walk that collects the targets in order.
  abbrev Collects : List Derivation → Walk → Walk → Type 0
  Collects targets w w' = IsOrdered [] w'.out × All (Collected w') targets × GoesOn w w'

  module _ (rank : Text → ℕ) (left : ℕ) (go : Text → Walk → Walk)
      (goes : (r : ℕ) (key : Text) (w : Walk)
        → All (λ d. rank d.path < r) (derivations_for ds key)
        → r ≤ left
        → IsSettled rank r w
        → IsOrdered [] w.out
        → Collects (derivations_for ds key) w (go key w)) where
    visit_inputs-Collects :
        (r : ℕ) (ids : List Text) (w : Walk)
        → All (λ id. All (λ e. rank e.path < r) (derivations_for ds id)) ids
        → r ≤ left
        → IsSettled rank r w
        → IsOrdered [] w.out
        → IsOrdered [] (visit_inputs go ids w).out
          × All (λ id. All (Collected (visit_inputs go ids w)) (derivations_for ds id)) ids
          × GoesOn w (visit_inputs go ids w)
    unfolding visit_inputs
    visit_inputs-Collects r [] w h le s o = (o, tt, ((λ t x. x), (λ t x. inl x)))
    visit_inputs-Collects r (id ∷ ids) w h le s o =
        let (o1, c1, g1) = goes r id w h.0 le s o in
        let (o2, c2, g2) =
          visit_inputs-Collects r ids (go id w) h.1 le (IsSettled-on rank r w (go id w) g1 s) o1 in
        (
          o2,
          (
            All-map (Collected (go id w)) (Collected (visit_inputs go ids (go id w)))
                (derivations_for ds id) (λ d. g2.0 d.path) c1,
            c2,
          ),
          GoesOn-trans w (go id w) (visit_inputs go ids (go id w)) g1 g2,
        )

    visit_one-Collects :
        (d : Derivation) (w : Walk)
        → FallsAt rank d
        → rank d.path ≤ left
        → IsSettled rank (rank d.path) w
        → IsOrdered [] w.out
        → IsOrdered [] (visit_one go d w).out
          × Collected (visit_one go d w) d
          × GoesOn w (visit_one go d w)
    unfolding mem_path
    visit_one-Collects d w falls le s o =
        let (o1, c1, g1) =
          visit_inputs-Collects (rank d.path) (sorted_inputs d.inputs) (enter d.path w) falls le
            (λ t x below. elim (Bool-cases (text_eq d.path t)) [
              | inl same ↦ absurd (ground (arith, ap rank ((text_eq_iff d.path t).0 same)))
              | inr other ↦ s t (ground arith) below
            ])
            o in
        let w1 = visit_inputs go (sorted_inputs d.inputs) (enter d.path w) in
        (
          IsOrdered-snoc [] w1.out d o1 c1,
          ground (arith, mem_path-snoc d.path w1.out d, text_eq_refl d.path),
          (
            (λ t x. ground (arith, mem_path-snoc t w1.out d, g1.0 t)),
            (λ t x. elim (g1.1 t x) [
              | inr there ↦ inr (ground (arith, mem_path-snoc t w1.out d))
              | inl entered ↦ elim (Bool-cases (text_eq d.path t)) [
                | inl same ↦ inr (ground (arith, mem_path-snoc t w1.out d))
                | inr other ↦ inl (ground arith)
              ]
            ]),
          ),
        )

    step :
        (d : Derivation) (l : List Derivation) (w : Walk) (b : Bool)
        → mem_path d.path w.visited ≡ b
        → visit_derivations go (d ∷ l) w
          ≡ visit_derivations go l (if b then w else visit_one go d w)
    unfolding visit_derivations
    step d l w b e = ap (λ c. visit_derivations go l (if c then w else visit_one go d w)) e

    visit_derivations-Collects :
        (r : ℕ) (l : List Derivation) (w : Walk)
        → All (FallsAt rank) l
        → All (λ d. rank d.path < r) l
        → r ≤ suc left
        → IsSettled rank r w
        → IsOrdered [] w.out
        → Collects l w (visit_derivations go l w)
    unfolding visit_derivations
    visit_derivations-Collects r [] w f h le s o = (o, tt, ((λ t x. x), (λ t x. inl x)))
    visit_derivations-Collects r (d ∷ l) w f h le s o =
        elim (Bool-cases (mem_path d.path w.visited)) [
          | inl seen ↦
              let (o2, c2, g2) = visit_derivations-Collects r l w f.1 h.1 le s o in
              subst (Collects (d ∷ l) w) (sym (step d l w true seen))
                (o2, (g2.0 d.path (s d.path seen h.0), c2), g2)
          | inr fresh ↦
              let (o1, c1, g1) =
                visit_one-Collects d w f.0 (omega (arith, h.0))
                  (λ t x below. s t x (omega (arith, h.0))) o in
              let (o2, c2, g2) =
                visit_derivations-Collects r l (visit_one go d w) f.1 h.1 le
                  (IsSettled-on rank r w (visit_one go d w) g1 s) o1 in
              subst (Collects (d ∷ l) w) (sym (step d l w false fresh)) (
                o2,
                (g2.0 d.path c1, c2),
                GoesOn-trans w (visit_one go d w) (visit_derivations go l (visit_one go d w)) g1 g2,
              )
        ]

  collect_lineage-Collects :
      (rank : Text → ℕ)
      → All (λ e. FallsAt rank e.1) ds
      → (left r : ℕ) (key : Text) (w : Walk) → All (λ d. rank d.path < r) (derivations_for ds key)
      → r ≤ left
      → IsSettled rank r w
      → IsOrdered [] w.out
      → Collects (derivations_for ds key) w (collect_lineage ds left key w)
  unfolding collect_lineage
  collect_lineage-Collects rank falls zero r key w h le s o = (
    o,
    All-map (λ d. rank d.path < r) (Collected w) (derivations_for ds key)
        (λ d below. absurd (omega arith)) h,
    ((λ t x. x), (λ t x. inl x)),
  )
  collect_lineage-Collects rank falls (suc left) r key w h le s o =
      visit_derivations-Collects rank left (collect_lineage ds left)
        (collect_lineage-Collects rank falls left) r (derivations_for ds key) w
        (derivations_for-All (FallsAt rank) ds key falls) h le s o

-- Let provenance be tracked, let some rank fall from each recorded derivation to those found for
-- its inputs, and let it be less than the depth bound at those found for the path. Then Lineage
-- lists these, and each derivation that it lists comes after those found for its inputs.
pub lineage-IsOrdered :
    (rank : Text → ℕ) (path : Text) (s : Scope)
    → s.provenance ≡ true
    → All (λ e. FallsAt s.derivations rank e.1) s.derivations
    → All (λ d. rank d.path < max_lineage_depth) (derivations_for s.derivations path)
    → IsOrdered s.derivations [] (lineage path s)
      × All
          (λ d. mem_path d.path (paths (lineage path s)) ≡ true)
          (derivations_for s.derivations path)
unfolding lineage mem_path
lineage-IsOrdered rank path s on falls h =
    let (o, c, g) =
      collect_lineage-Collects s.derivations rank falls max_lineage_depth max_lineage_depth path
        no_walk h (omega arith) (λ t x below. ground arith) tt in
    rw (on, lineage) (o, c)
