-- ===== src/Mapper/Nested.antt =====
-- What a Mapper assembles from paths that diverge: every value is found at its path.
use rlng.Base.{
  ◌≡◌, refl, true, some, List, [], ◌∷◌, ⊤, arith, All, Among, subst, sym, inl, inr, Option-cases,
  ◌==◌, Bool-cases,
}
use rlng.Base.Text.{Text, text_eq_iff}
use rlng.Value.{Value, obj, Fields}
use rlng.Value.Access.{lookup_field, lookup_field-insert_field, lookup_field-insert_field_self}
use rlng.Error.{ok, Cases, Result-Cases, ok_injective}
use rlng.Expr.{apply}
use rlng.Scope.Path.{split_dots, child_map, walk}
use rlng.Scope.Segments.{diverge, walk-child_map}
use rlng.Mapper.{MappedField, Mapper, set_nested, project}

walk-set_nested_self :
    (v : Value) (m n : Fields) (k : Text) (ks : List Text)
    → set_nested v m (k ∷ ks) ≡ ok n
    → walk (k ∷ ks) (obj n) ≡ some v
unfolding set_nested walk
walk-set_nested_self v m n k [] h =
    rw (← ok_injective h) (rw (walk, lookup_field-insert_field_self k v m) refl)
walk-set_nested_self v m n k (j ∷ ks) h = elim (Option-cases (child_map (lookup_field k m))) [
  | inl blocked ↦ ground arith
  | inr (child, e) ↦ elim (Result-Cases (set_nested v child (j ∷ ks))) [
    | Cases.bad x failed ↦ ground arith
    | Cases.good c p ↦ rw (← ok_injective (rw (e, p, set_nested) at h)) (
        rw (walk, lookup_field-insert_field_self k (obj c) m)
          (walk-set_nested_self v child c j ks p))
  ]
]

-- A write at a path that diverges from `qs` keeps what is found at `qs`.
walk-set_nested_kept :
    (v w : Value) (m n : Fields) (ks qs : List Text)
    → set_nested v m ks ≡ ok n
    → walk qs (obj m) ≡ some w
    → diverge ks qs ≡ true
    → walk qs (obj n) ≡ some w
unfolding set_nested walk
walk-set_nested_kept v w m n [] qs h f d = ground arith
walk-set_nested_kept v w m n (k ∷ ks) [] h f d = ground arith
walk-set_nested_kept v w m n (k ∷ []) (q ∷ qs) h f d =
    rw (← ok_injective h) (ground (arith, lookup_field-insert_field k q v m, text_eq_iff k q))
walk-set_nested_kept v w m n (k ∷ j ∷ ks) (q ∷ []) h f d =
    elim (Option-cases (child_map (lookup_field k m))) [
      | inl blocked ↦ ground arith
      | inr (child, e) ↦ elim (Result-Cases (set_nested v child (j ∷ ks))) [
        | Cases.bad x failed ↦ ground arith
        | Cases.good c p ↦
            rw (← ok_injective (rw (e, p, set_nested) at h))
              (ground (arith, lookup_field-insert_field k q (obj c) m, text_eq_iff k q))
      ]
    ]
walk-set_nested_kept v w m n (k ∷ j ∷ ks) (q ∷ p ∷ qs) h f d =
    elim (Option-cases (child_map (lookup_field k m))) [
      | inl blocked ↦ ground arith
      | inr (child, e) ↦ elim (Result-Cases (set_nested v child (j ∷ ks))) [
        | Cases.bad x failed ↦ ground arith
        | Cases.good c r ↦ rw (← ok_injective (rw (e, r, set_nested) at h)) (
            ground (
              arith,
              walk-set_nested_kept v w child c (j ∷ ks) (p ∷ qs) r,
              lookup_field-insert_field k q (obj c) m,
              text_eq_iff k q,
              walk-child_map k p qs m e,
            ))
      ]
    ]

split_dots-cons : (s : Text) → (k : Text) × (ks : List Text) × (split_dots s ≡ k ∷ ks)
unfolding split_dots
split_dots-cons [] = ([], [], refl)
split_dots-cons (c ∷ s) =
    let (k, ks, e) = split_dots-cons s in
    elim (Bool-cases (c == b'.')) [
      | inl dot ↦ ([], k ∷ ks, rw (dot, split_dots, e) refl)
      | inr plain ↦ (c ∷ k, ks, rw (plain, split_dots, e) refl)
    ]

abbrev pub segments : MappedField → List Text
segments f = split_dots f.path

-- Neither path is the other one or leads to it, segment by segment.
abbrev pub AreApart : Text → Text → Type 0
AreApart p q = diverge (split_dots p) (split_dots q) ≡ true

-- No path of a field is that of another one or leads to it.
abbrev pub IsSpread : Mapper → Type 0
IsSpread [] = ⊤
IsSpread (f ∷ fs) = All (λ g. AreApart f.path g.path) fs × IsSpread fs

pub diverge_sym : (ks qs : List Text) → diverge ks qs ≡ true → diverge qs ks ≡ true
diverge_sym [] qs h = ground arith
diverge_sym (k ∷ ks) [] h = ground arith
diverge_sym (k ∷ ks) (q ∷ qs) h =
    ground (arith, text_eq_iff k q, text_eq_iff q k, diverge_sym ks qs)

project-kept :
    (scope m n : Fields) (fs : Mapper) (path : Text) (w : Value)
    → project scope fs m ≡ ok n
    → walk (split_dots path) (obj m) ≡ some w
    → All (λ g. AreApart path g.path) fs
    → walk (split_dots path) (obj n) ≡ some w
unfolding project
project-kept scope m n [] path w h f d = rw (← ok_injective h) f
project-kept scope m n (g ∷ gs) path w h f d = elim (Result-Cases (apply g.fn scope)) [
  | Cases.bad x failed ↦ ground arith
  | Cases.good v p ↦ elim (Result-Cases (set_nested v m (split_dots g.path))) [
    | Cases.bad x failed ↦ ground arith
    | Cases.good c q ↦
        project-kept scope c n gs path w (rw (p, project, q) at h)
          (walk-set_nested_kept v w m c (split_dots g.path) (split_dots path) q f
            (diverge_sym (split_dots path) (split_dots g.path) d.0))
          d.1
  ]
]

first-found :
    (scope m n : Fields) (f : MappedField) (fs : Mapper) (v : Value)
    → All (λ g. AreApart f.path g.path) fs
    → project scope (f ∷ fs) m ≡ ok n
    → apply f.fn scope ≡ ok v
    → walk (segments f) (obj n) ≡ some v
unfolding project
first-found scope m n f fs v spread h r = elim (Result-Cases (set_nested v m (segments f))) [
  | Cases.bad x failed ↦ ground arith
  | Cases.good c p ↦
      let (k, ks, e) = split_dots-cons f.path in
      project-kept scope c n fs f.path v (rw (r, project, p) at h)
        (rw e (walk-set_nested_self v m c k ks (rw e at p))) spread
]

pub project-found :
    (scope m n : Fields) (fs : Mapper) (f : MappedField) (v : Value)
    → IsSpread fs
    → Among f fs
    → project scope fs m ≡ ok n
    → apply f.fn scope ≡ ok v
    → walk (segments f) (obj n) ≡ some v
unfolding project
project-found scope m n [] f v spread a h r = elim a [ ]
project-found scope m n (g ∷ gs) f v spread (inl same) h r =
    first-found scope m n f gs v
      (subst (λ x. All (λ y. AreApart x.path y.path) gs) (sym same) spread.0)
      (subst (λ x. project scope (x ∷ gs) m ≡ ok n) (sym same) h) r
project-found scope m n (g ∷ gs) f v spread (inr later) h r =
    elim (Result-Cases (apply g.fn scope)) [
      | Cases.bad x failed ↦ ground arith
      | Cases.good w p ↦ elim (Result-Cases (set_nested w m (segments g))) [
        | Cases.bad x failed ↦ ground arith
        | Cases.good c q ↦ project-found scope c n gs f v spread.1 later (rw (p, project, q) at h) r
      ]
    ]
