-- ===== src/Multi/Order.antt =====
-- The order in which a MultiExpr compiles and evaluates its expressions.
use rlng.Base.{
  ◌≡◌, refl, true, false, List, [], ◌∷◌, ◌++◌, All, All-map, arith, if◌then◌else◌, Bool-cases, inl,
  inr, append-nil, append_assoc, sym, ap, ◌∙◌, subst,
}
use mathlib.Core.List.{Perm, perm_middle}
use mathlib.Core.List.Perm
use rlng.Base.Int.{ℤ, ltb_ℤ, eqb_ℤ}
use rlng.Multi.{NamedExpr, insert_by_priority, sort_onto, sort_by_priority}

-- No entry has a smaller priority than one before it.
abbrev pub IsAscending : List NamedExpr → Type 0
IsAscending [] = Unit
IsAscending (e ∷ es) = All (λ x. ltb_ℤ x.priority e.priority ≡ false) es × IsAscending es

-- The entries of one priority, in their order.
unfoldable pub of_priority : ℤ → List NamedExpr → List NamedExpr
of_priority n [] = []
of_priority n (e ∷ es) =
    let rest = of_priority n es in if eqb_ℤ e.priority n then e ∷ rest else rest

insert_by_priority-perm :
    (e : NamedExpr) (es : List NamedExpr) → Perm (insert_by_priority e es) (e ∷ es)
unfolding insert_by_priority
insert_by_priority-perm e [] = Perm.refl _
insert_by_priority-perm e (x ∷ xs) = elim (Bool-cases (ltb_ℤ e.priority x.priority)) [
  | inl less ↦ rw less (Perm.refl _)
  | inr more ↦ rw more (Perm.trans (Perm.cons x (insert_by_priority-perm e xs)) (Perm.swap _ _ _))
]

ltb_ℤ-trans : (a b c : ℤ) → ltb_ℤ b a ≡ false → ltb_ℤ c b ≡ false → ltb_ℤ c a ≡ false
ltb_ℤ-trans a b c h k = ground arith

ltb_ℤ-asym : (a b : ℤ) → ltb_ℤ a b ≡ true → ltb_ℤ b a ≡ false
ltb_ℤ-asym a b h = ground arith

ltb_ℤ-ne : (a b : ℤ) → ltb_ℤ a b ≡ true → eqb_ℤ b a ≡ false
ltb_ℤ-ne a b h = ground arith

eqb_ℤ-lt : (a b n : ℤ) → eqb_ℤ a n ≡ true → ltb_ℤ a b ≡ true → ltb_ℤ n b ≡ true
eqb_ℤ-lt a b n h k = ground arith

-- What holds of an entry and of a list holds of the list with the entry inserted.
insert-All :
    (P : NamedExpr → Type 0) (e : NamedExpr) (es : List NamedExpr)
    → P e
    → All P es
    → All P (insert_by_priority e es)
unfolding insert_by_priority
insert-All P e [] h k = (h, tt)
insert-All P e (x ∷ xs) h k = elim (Bool-cases (ltb_ℤ e.priority x.priority)) [
  | inl less ↦ rw less (h, k)
  | inr more ↦ rw more (k.0, insert-All P e xs h k.1)
]

-- After an entry of greater priority than `e`, none is below `e`.
All-above :
    (e x : NamedExpr) (xs : List NamedExpr)
    → ltb_ℤ e.priority x.priority ≡ true
    → All (λ y. ltb_ℤ y.priority x.priority ≡ false) xs
    → All (λ y. ltb_ℤ e.priority y.priority ≡ true) xs
All-above e x [] h k = tt
All-above e x (y ∷ ys) h k = (ground arith, All-above e x ys h k.1)

not_below :
    (e : NamedExpr) (xs : List NamedExpr)
    → All (λ y. ltb_ℤ e.priority y.priority ≡ true) xs
    → All (λ y. ltb_ℤ y.priority e.priority ≡ false) xs
not_below e xs = All-map _ _ xs (λ y. ltb_ℤ-asym e.priority y.priority)

insert-IsAscending :
    (e : NamedExpr) (es : List NamedExpr) → IsAscending es → IsAscending (insert_by_priority e es)
unfolding insert_by_priority
insert-IsAscending e [] h = (tt, tt)
insert-IsAscending e (x ∷ xs) h = elim (Bool-cases (ltb_ℤ e.priority x.priority)) [
  | inl less ↦
      rw less
        ((ltb_ℤ-asym e.priority x.priority less, not_below e xs (All-above e x xs less h.0)), h)
  | inr more ↦ rw more (
    insert-All (λ y. ltb_ℤ y.priority x.priority ≡ false) e xs more h.0,
    insert-IsAscending e xs h.1,
  )
]

of_priority-none :
    (n : ℤ) (es : List NamedExpr) → All (λ y. ltb_ℤ n y.priority ≡ true) es → of_priority n es ≡ []
unfolding of_priority
of_priority-none n [] h = refl
of_priority-none n (e ∷ es) h = ground (arith, of_priority-none n es h.1, ltb_ℤ-ne n e.priority h.0)

of_priority-append :
    (n : ℤ) (es fs : List NamedExpr)
    → of_priority n (es ++ fs) ≡ of_priority n es ++ of_priority n fs
unfolding of_priority
of_priority-append n [] fs = refl
of_priority-append n (e ∷ es) fs = ground (arith, of_priority-append n es fs)

-- Insertion puts an entry after those of its own priority.
of_priority-insert :
    (n : ℤ) (e : NamedExpr) (es : List NamedExpr)
    → IsAscending es
    → of_priority n (insert_by_priority e es) ≡ of_priority n es ++ of_priority n (e ∷ [])
unfolding insert_by_priority of_priority
of_priority-insert n e [] h = refl
of_priority-insert n e (x ∷ xs) h = elim (Bool-cases (ltb_ℤ e.priority x.priority)) [
  | inl less ↦ elim (Bool-cases (eqb_ℤ e.priority n)) [
    | inl here ↦ ground (
      arith,
      of_priority-none n (x ∷ xs) (
        eqb_ℤ-lt e.priority x.priority n here less,
        All-map (λ y. ltb_ℤ e.priority y.priority ≡ true) (λ y. ltb_ℤ n y.priority ≡ true) xs
            (λ y. eqb_ℤ-lt e.priority y.priority n here) (All-above e x xs less h.0),
      ),
    )
    | inr elsewhere ↦ ground (arith, append-nil (of_priority n (x ∷ xs)))
  ]
  | inr more ↦ ground (arith, of_priority-insert n e xs h.1)
]

sort_onto-lem :
    (es sorted : List NamedExpr)
    → IsAscending sorted
    → IsAscending (sort_onto es sorted)
      × ((n : ℤ) → of_priority n (sort_onto es sorted) ≡ of_priority n sorted ++ of_priority n es)
unfolding sort_onto of_priority
sort_onto-lem [] sorted h = (h, λ n. sym (append-nil (of_priority n sorted)))
sort_onto-lem (e ∷ es) sorted h =
    let (a, s) = sort_onto-lem es (insert_by_priority e sorted) (insert-IsAscending e sorted h) in
    (
      a,
      λ n.
          s n
          ∙ ap (λ l. l ++ of_priority n es) (of_priority-insert n e sorted h)
          ∙ append_assoc (of_priority n sorted) (of_priority n (e ∷ [])) (of_priority n es)
          ∙ ap (λ l. of_priority n sorted ++ l) (sym (of_priority-append n (e ∷ []) es)),
    )

sort_onto-perm : (es sorted : List NamedExpr) → Perm (sort_onto es sorted) (es ++ sorted)
unfolding sort_onto
sort_onto-perm [] sorted = Perm.refl sorted
sort_onto-perm (e ∷ es) sorted =
    Perm.trans (sort_onto-perm es (insert_by_priority e sorted))
      (Perm.trans (Perm.append_left es (insert_by_priority-perm e sorted)) (perm_middle es sorted))

-- The expressions are put in ascending order of priority, none is lost or repeated, and those of
-- one priority keep their order.
pub sort_by_priority_stable :
    (es : List NamedExpr)
    → Perm (sort_by_priority es) es
      × IsAscending (sort_by_priority es)
      × ((n : ℤ) → of_priority n (sort_by_priority es) ≡ of_priority n es)
unfolding sort_by_priority of_priority
sort_by_priority_stable es =
    let (a, s) = sort_onto-lem es [] tt in
    (subst (λ l. Perm (sort_onto es []) l) (append-nil es) (sort_onto-perm es []), a, s)
