-- ===== src/Scope/Lineage/Distinct.antt =====
-- A lineage has no path twice.
use rlng.Base.{
  ℕ, zero, suc, ◌≡◌, refl, true, false, ◌||◌, List, [], ◌∷◌, ◌++◌, map, arith, Bool-cases, inl, inr,
  subst,
}
use rlng.Base.Text.{Text, text_eq, text_eq_iff, text_eq_refl}
use rlng.Base.Dict.{Dict}
use rlng.Scope.{Scope, Derivation}
use rlng.Scope.Lineage.{
  mem_path, derivations_for, sorted_inputs, Walk, enter, append, visit_inputs, visit_one,
  visit_derivations, collect_lineage, no_walk, lineage, max_lineage_depth,
}

abbrev pub paths : List Derivation → List Text
paths ds = map (λ d. d.path) ds

-- No two derivations have the same path.
abbrev pub IsUnrepeated : List Derivation → Type 0
IsUnrepeated [] = Unit
IsUnrepeated (d ∷ ds) = (mem_path d.path (paths ds) ≡ false) × IsUnrepeated ds

pub mem_path-snoc :
    (t : Text) (ds : List Derivation) (d : Derivation)
    → mem_path t (paths (ds ++ d ∷ [])) ≡ mem_path t (paths ds) || text_eq d.path t
unfolding mem_path
mem_path-snoc t [] d = ground arith
mem_path-snoc t (e ∷ ds) d = ground (arith, mem_path-snoc t ds d)

IsUnrepeated-snoc :
    (ds : List Derivation) (d : Derivation)
    → IsUnrepeated ds
    → mem_path d.path (paths ds) ≡ false
    → IsUnrepeated (ds ++ d ∷ [])
unfolding mem_path
IsUnrepeated-snoc [] d h m = (refl, tt)
IsUnrepeated-snoc (e ∷ ds) d h m = (
  ground (arith, mem_path-snoc e.path ds d, text_eq_iff e.path d.path, text_eq_iff d.path e.path),
  IsUnrepeated-snoc ds d h.1 (ground arith),
)

abbrev Visited : Text → Walk → Type 0
Visited t w = mem_path t w.visited ≡ true

abbrev Collected : Text → Walk → Type 0
Collected t w = mem_path t (paths w.out) ≡ true

-- What is collected was visited, and not twice.
abbrev IsClean : Walk → Type 0
IsClean w = IsUnrepeated w.out × ((t : Text) → Collected t w → Visited t w)

-- The walk goes on: visited paths stay so, none of them is collected any more, and it stays clean.
abbrev GoesOn : Walk → Walk → Type 0
GoesOn w w' =
    ((t : Text) → Visited t w → Visited t w')
    × ((t : Text) → Visited t w → Collected t w' → Collected t w)
    × (IsClean w → IsClean w')

GoesOn-refl : (w : Walk) → GoesOn w w
GoesOn-refl w = ((λ t v. v), (λ t v c. c), (λ h. h))

GoesOn-trans : (a b c : Walk) → GoesOn a b → GoesOn b c → GoesOn a c
GoesOn-trans a b c (k, f, h) (k', f', h') =
    ((λ t v. k' t (k t v)), (λ t v x. f t v (f' t (k t v) x)), (λ i. h' (h i)))

module _ (go : Text → Walk → Walk) (on : (id : Text) (w : Walk) → GoesOn w (go id w)) where
  visit_inputs-GoesOn : (ids : List Text) (w : Walk) → GoesOn w (visit_inputs go ids w)
  unfolding visit_inputs
  visit_inputs-GoesOn [] w = GoesOn-refl w
  visit_inputs-GoesOn (id ∷ ids) w =
      GoesOn-trans w (go id w) (visit_inputs go ids (go id w)) (on id w)
        (visit_inputs-GoesOn ids (go id w))

  not_collected :
      (d : Derivation) (w w' : Walk)
      → mem_path d.path w.visited ≡ false
      → GoesOn (enter d.path w) w'
      → IsClean w
      → mem_path d.path (paths w'.out) ≡ false
  unfolding mem_path
  not_collected d w w' fresh (k, f, h) i = elim (Bool-cases (mem_path d.path (paths w'.out))) [
    | inr absent ↦ absent
    | inl present ↦
        absurd (
          ground
            (arith, i.1 d.path (f d.path (ground (arith, text_eq_refl d.path)) present), fresh))
  ]

  -- A path that is entered and then collected.
  around :
      (d : Derivation) (w w' : Walk)
      → mem_path d.path w.visited ≡ false
      → GoesOn (enter d.path w) w'
      → GoesOn w (append d w')
  unfolding mem_path
  around d w w' fresh (k, f, h) = (
    (λ t v. k t (ground arith)),
    (λ t v c. elim (Bool-cases (text_eq d.path t)) [
      | inl same ↦ absurd (
          ground (
            arith,
            subst (λ u. mem_path u w.visited ≡ false) ((text_eq_iff d.path t).0 same) fresh,
          ))
      | inr other ↦ f t (ground arith) (ground (arith, mem_path-snoc t w'.out d))
    ]),
    (λ i.
        let clean = h (i.0, λ t c. ground (arith, i.1 t c)) in
        (
          IsUnrepeated-snoc w'.out d clean.0 (not_collected d w w' fresh (k, f, h) i),
          λ t c. ground (arith, mem_path-snoc t w'.out d, clean.1 t, k t),
        )),
  )

  visit_derivations-GoesOn :
      (ds : List Derivation) (w : Walk) → GoesOn w (visit_derivations go ds w)
  unfolding visit_derivations
  visit_derivations-GoesOn [] w = GoesOn-refl w
  visit_derivations-GoesOn (d ∷ ds) w = elim (Bool-cases (mem_path d.path w.visited)) [
    | inl seen ↦ rw (seen, visit_derivations) (visit_derivations-GoesOn ds w)
    | inr fresh ↦
        rw (fresh, visit_derivations)
          (GoesOn-trans w (visit_one go d w) (visit_derivations go ds (visit_one go d w))
            (around d w (visit_inputs go (sorted_inputs d.inputs) (enter d.path w)) fresh
              (visit_inputs-GoesOn (sorted_inputs d.inputs) (enter d.path w)))
            (visit_derivations-GoesOn ds (visit_one go d w)))
  ]

collect_lineage-GoesOn :
    (ds : Dict Derivation) (left : ℕ) (key : Text) (w : Walk)
    → GoesOn w (collect_lineage ds left key w)
unfolding collect_lineage
collect_lineage-GoesOn ds zero key w = GoesOn-refl w
collect_lineage-GoesOn ds (suc left) key w =
    visit_derivations-GoesOn (collect_lineage ds left) (collect_lineage-GoesOn ds left)
      (derivations_for ds key) w

-- Lineage lists no path twice, also where derivations depend on one another in a circle.
pub lineage-IsUnrepeated : (path : Text) (s : Scope) → IsUnrepeated (lineage path s)
unfolding lineage mem_path
lineage-IsUnrepeated path s = elim (Bool-cases s.provenance) [
  | inl on ↦
      let (k, f, h) = collect_lineage-GoesOn s.derivations max_lineage_depth path no_walk in
      rw (on, lineage) (h (tt, λ t c. ground arith)).0
  | inr off ↦ rw (off, lineage) tt
]
