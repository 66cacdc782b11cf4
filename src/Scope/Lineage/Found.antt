-- ===== src/Scope/Lineage/Found.antt =====
-- The derivations found for a key are recorded ones.
use rlng.Base.{
  ◌≡◌, inl, inr, ◌&&◌, not, Option, none, some, List, [], ◌∷◌, ◌++◌, arith, All, Bool-cases,
  Option-cases, ◌==◌, subst,
}
use rlng.Base.Text.{Text, text_eq, is_empty}
use rlng.Base.Dict.{Dict, lookup}
use rlng.Scope.{Derivation}
use rlng.Scope.Lineage.{
  insert_by_path, under_namespace, or_else, nearest_ancestor, to_list, unless_empty,
  derivations_for,
}

-- What holds of all recorded derivations holds of those found for a key.
module _ (P : Derivation → Type 0) where
  lookup-All :
      (ds : Dict Derivation) (key : Text) (d : Derivation)
      → All (λ e. P e.1) ds
      → lookup key ds ≡ some d
      → P d
  unfolding lookup
  lookup-All [] key d h e = ground arith
  lookup-All ((k, x) ∷ ds) key d h e = elim (Bool-cases (text_eq k key)) [
    | inl same ↦ subst P (ground arith) h.0
    | inr other ↦ lookup-All ds key d h.1 (ground arith)
  ]

  insert-All :
      (d : Derivation) (ds : List Derivation) → P d → All P ds → All P (insert_by_path d ds)
  unfolding insert_by_path
  insert-All d [] p h = (p, tt)
  insert-All d (e ∷ es) p h = ground (arith, insert-All d es p h.1)

  under-All :
      (ds : Dict Derivation) (key : Text) → All (λ e. P e.1) ds → All P (under_namespace ds key)
  unfolding under_namespace
  under-All [] key h = tt
  under-All ((k, d) ∷ ds) key h =
      ground (arith, under-All ds key h.1, insert-All d (under_namespace ds key) h.0)

  abbrev AllOf : Option Derivation → Type 0
  AllOf none = Unit
  AllOf (some d) = P d

  found-All : (ds : Dict Derivation) (key : Text) → All (λ e. P e.1) ds → AllOf (lookup key ds)
  found-All ds key h = elim (Option-cases (lookup key ds)) [
    | inl absent ↦ rw absent tt
    | inr (d, present) ↦ rw present (lookup-All ds key d h present)
  ]

  or_else-All : (a b : Option Derivation) → AllOf a → AllOf b → AllOf (or_else a b)
  or_else-All none b h k = k
  or_else-All (some d) b h k = h

  nearest-All :
      (ds : Dict Derivation) (read key : Text) (best : Option Derivation)
      → All (λ e. P e.1) ds
      → AllOf best
      → AllOf (nearest_ancestor ds read key best)
  unfolding nearest_ancestor
  nearest-All ds read [] best h b = b
  nearest-All ds read (c ∷ s) best h b = elim (Bool-cases (c == b'.' && not (is_empty read))) [
    | inl dot ↦
        rw (dot, nearest_ancestor)
          (nearest-All ds (read ++ (c ∷ [])) s (or_else (lookup read ds) best) h
            (or_else-All (lookup read ds) best (found-All ds read h) b))
    | inr plain ↦ rw (plain, nearest_ancestor) (nearest-All ds (read ++ (c ∷ [])) s best h b)
  ]

  to_list-All : (o : Option Derivation) → AllOf o → All P (to_list o)
  to_list-All none h = tt
  to_list-All (some d) h = (h, tt)

  unless-All : (a b : List Derivation) → All P a → All P b → All P (unless_empty a b)
  unless-All [] b h k = k
  unless-All (d ∷ ds) b h k = h

  pub derivations_for-All :
      (ds : Dict Derivation) (key : Text) → All (λ e. P e.1) ds → All P (derivations_for ds key)
  unfolding derivations_for
  derivations_for-All ds key h = elim (Option-cases (lookup key ds)) [
    | inr (d, present) ↦ rw (present, derivations_for) (lookup-All ds key d h present, tt)
    | inl absent ↦
        rw (absent, derivations_for)
          (unless-All (under_namespace ds key) (to_list (nearest_ancestor ds [] key none))
            (under-All ds key h)
            (to_list-All (nearest_ancestor ds [] key none) (nearest-All ds [] key none h tt)))
  ]
