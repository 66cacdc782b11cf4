-- ===== src/Expr/References/Covers.antt =====
-- The references of an expression leave out only paths that another one of them goes on from.
use rlng.Base.{
  ℕ, zero, suc, ◌+◌, ◌≤◌, ◌<◌, ◌≡◌, refl, ◌⊎◌, inl, inr, true, false, some, List, [], ◌∷◌, ◌++◌,
  arith, length, Among, Bool-cases, sym, subst, ap,
}
use rlng.Base.Text.{Text, codes, text_eq, text_eq_iff, text_lt}
use rlng.Scope.Lineage.{mem_path, starts_with}
use rlng.Table.Compile.{sort_texts, insert_sorted}
use rlng.Expr.References.Occurs.{Occurs, Among-collect_paths}
use rlng.Expr.References.{
  Node, collect_paths, as_set, goes_below, is_strict_prefix_of_any, maximal, references,
}

starts_with-shorter : (p q r : Text) → starts_with (p ++ q) r ≡ true → starts_with p r ≡ true
unfolding starts_with
starts_with-shorter [] q r h = refl
starts_with-shorter (c ∷ p) q [] h = ground arith
starts_with-shorter (c ∷ p) q (d ∷ r) h = ground (arith, starts_with-shorter p q r)

starts_with_trans :
    (p q r : Text) → starts_with p q ≡ true → starts_with q r ≡ true → starts_with p r ≡ true
unfolding starts_with
starts_with_trans [] q r h k = refl
starts_with_trans (c ∷ p) [] r h k = ground arith
starts_with_trans (c ∷ p) (d ∷ q) [] h k = ground arith
starts_with_trans (c ∷ p) (d ∷ q) (e ∷ r) h k = ground (arith, starts_with_trans p q r)

goes_below_trans :
    (p q r : Text) → goes_below p q ≡ true → goes_below q r ≡ true → goes_below p r ≡ true
goes_below_trans p q r h k =
    ground (arith, starts_with_trans (p ++ codes ".") q r, starts_with-shorter q (codes ".") r)

-- Some path among `qs` goes on where `p` ends.
found-below :
    (p : Text) (qs : List Text)
    → is_strict_prefix_of_any p qs ≡ true
    → (q : Text) × Among q qs × (goes_below p q ≡ true)
unfolding is_strict_prefix_of_any
found-below p [] h = ground arith
found-below p (q ∷ qs) h = elim (Bool-cases (goes_below p q)) [
  | inl below ↦ (q, inl refl, below)
  | inr other ↦
      let (r, m, b) = found-below p qs (rw (other, is_strict_prefix_of_any) at h) in (r, inr m, b)
]

Among-maximal :
    (all ps : List Text) (p : Text)
    → Among p ps
    → is_strict_prefix_of_any p all ≡ false
    → Among p (maximal all ps)
unfolding maximal
Among-maximal all [] p m h = m
Among-maximal all (x ∷ ps) p (inl e) h =
    rw (maximal, subst (λ t. is_strict_prefix_of_any t all ≡ false) e h) (inl e)
Among-maximal all (x ∷ ps) p (inr m) h = elim (Bool-cases (is_strict_prefix_of_any x all)) [
  | inl dropped ↦ rw (maximal, dropped) (Among-maximal all ps p m h)
  | inr kept ↦ rw (maximal, kept) (inr (Among-maximal all ps p m h))
]

Among-insert_sorted :
    (k p : Text) (ps : List Text) → (p ≡ k) ⊎ Among p ps → Among p (insert_sorted k ps)
unfolding insert_sorted
Among-insert_sorted k p [] h = h
Among-insert_sorted k p (x ∷ ps) (inl e) = elim (Bool-cases (text_lt x k)) [
  | inl before ↦ rw (before, insert_sorted) (inr (Among-insert_sorted k p ps (inl e)))
  | inr after ↦ rw (after, insert_sorted) (inl e)
]
Among-insert_sorted k p (x ∷ ps) (inr m) = elim (Bool-cases (text_lt x k)) [
  | inl before ↦
      rw (before, insert_sorted)
        elim m [ inl e ↦ inl e | inr n ↦ inr (Among-insert_sorted k p ps (inr n)) ]
  | inr after ↦ rw (after, insert_sorted) (inr m)
]

Among-sort_texts : (p : Text) (ps : List Text) → Among p ps → Among p (sort_texts ps)
unfolding sort_texts
Among-sort_texts p [] m = m
Among-sort_texts p (x ∷ ps) (inl e) = Among-insert_sorted x p (sort_texts ps) (inl e)
Among-sort_texts p (x ∷ ps) (inr m) =
    Among-insert_sorted x p (sort_texts ps) (inr (Among-sort_texts p ps m))

Among-of_mem : (p : Text) (ps : List Text) → mem_path p ps ≡ true → Among p ps
unfolding mem_path
Among-of_mem p [] h = ground arith
Among-of_mem p (x ∷ ps) h = elim (Bool-cases (text_eq x p)) [
  | inl same ↦ inl (sym ((text_eq_iff x p).0 same))
  | inr other ↦ inr (Among-of_mem p ps (rw (other, mem_path) at h))
]

Among-as_set : (p : Text) (ps : List Text) → Among p ps → Among p (as_set ps)
unfolding as_set
Among-as_set p [] m = m
Among-as_set p (x ∷ ps) (inl e) = elim (Bool-cases (mem_path x (as_set ps))) [
  | inl again ↦
      rw (as_set, again)
        (subst (λ t. Among t (as_set ps)) (sym e) (Among-of_mem x (as_set ps) again))
  | inr fresh ↦ rw (as_set, fresh) (inl e)
]
Among-as_set p (x ∷ ps) (inr m) = elim (Bool-cases (mem_path x (as_set ps))) [
  | inl again ↦ rw (as_set, again) (Among-as_set p ps m)
  | inr fresh ↦ rw (as_set, fresh) (inr (Among-as_set p ps m))
]

abbrev bound : List Text → ℕ
bound [] = 0
bound (p ∷ ps) = length p + bound ps

length-bound : (p : Text) (ps : List Text) → Among p ps → length p ≤ bound ps
length-bound p [] m = elim m [ ]
length-bound p (x ∷ ps) (inl e) = ground (arith, ap length e)
length-bound p (x ∷ ps) (inr m) = ground (arith, length-bound p ps m)

-- By the room that is left for a longer path.
covered :
    (room : ℕ) (all : List Text) (p : Text)
    → Among p all
    → bound all < length p + room
    → (r : Text) × Among r (maximal all all) × ((r ≡ p) ⊎ (goes_below p r ≡ true))
covered zero all p m h = ground (arith, length-bound p all m)
covered (suc room) all p m h = elim (Bool-cases (is_strict_prefix_of_any p all)) [
  | inr last ↦ (p, Among-maximal all all p m last, inl refl)
  | inl longer ↦
      let (q, among, below) = found-below p all longer in
      let (r, listed, at) = covered room all q among (ground arith) in
      (
        r,
        listed,
        elim at [
          | inl same ↦ inr (subst (λ t. goes_below p t ≡ true) (sym same) below)
          | inr further ↦ inr (goes_below_trans p q r below further)
        ],
      )
]

starts_with-rest : (p r : Text) → starts_with p r ≡ true → (rest : Text) × (r ≡ p ++ rest)
unfolding starts_with
starts_with-rest [] r h = (r, refl)
starts_with-rest (c ∷ p) [] h = ground arith
starts_with-rest (c ∷ p) (d ∷ r) h =
    let (rest, e) = starts_with-rest p r (ground arith) in (rest, ground arith)

-- The path is `p`, or it is `p` with a dot and more behind it.
abbrev pub Reaches : Text → Text → Type 0
Reaches p r = (r ≡ p) ⊎ ((rest : Text) × (r ≡ (p ++ codes ".") ++ rest))

goes_below-Reaches : (p r : Text) → (r ≡ p) ⊎ (goes_below p r ≡ true) → Reaches p r
goes_below-Reaches p r (inl e) = inl e
goes_below-Reaches p r (inr h) = inr (starts_with-rest (p ++ codes ".") r (ground arith))

-- Every path that occurs in an expression, in whatever part of it, but as a callee, is listed among
-- its references, or a path is that has it, a dot and more.
pub references-covered :
    (tree : Node) (p : Text)
    → Occurs p tree
    → (r : Text) × Among r (references (some tree)) × Reaches p r
unfolding references
references-covered tree p occurs =
    let m = Among-collect_paths tree p occurs in
    let all = as_set (collect_paths false tree) in
    let (r, listed, at) =
      covered (suc (bound all)) all p (Among-as_set p (collect_paths false tree) m) (omega arith) in
    (r, Among-sort_texts r (maximal all all) listed, goes_below-Reaches p r at)
