-- ===== src/Scope/Segments.antt =====
-- What `setPath` does to the values at other segments: the lemmas behind Scope/Roundtrip.
use rlng.Base.{
  ◌≡◌, ◌≢◌, ◌⊎◌, inl, inr, Bool, true, false, none, some, List, [], ◌∷◌, arith, if◌then◌else◌,
  Option-cases,
}
use rlng.Base.Text.{Text, text_eq, text_eq_iff}
use rlng.Value.{Value, obj, Fields, end, field}
use rlng.Value.Access.{
  lookup_field, insert_field, lookup_field-insert_field, lookup_field-insert_field_self,
}
use rlng.Scope.Path.{set_keys, child_map, walk}

-- `set_keys` succeeded, so its value is found.
pub walk-set_keys_self :
    (strict : Bool) (v : Value) (m : Fields) (ks : List Text)
    → (set_keys strict v m ks).1 ≡ none
    → walk ks (obj (set_keys strict v m ks).0) ≡ some v
unfolding set_keys walk
walk-set_keys_self strict v m [] h = cc
walk-set_keys_self strict v m (k ∷ []) h = ground (arith, lookup_field-insert_field_self k v m)
walk-set_keys_self strict v m (k ∷ j ∷ ks) h = elim (Option-cases (child_map (lookup_field k m))) [
  | inl blocked ↦ ground arith
  | inr (child, e) ↦ ground (
    arith,
    walk-set_keys_self strict v child (j ∷ ks),
    lookup_field-insert_field_self k (obj (set_keys strict v child (j ∷ ks)).0) m,
  )
]

-- Neither path is a prefix of the other.
abbrev pub diverge : List Text → List Text → Bool
diverge [] qs = false
diverge (k ∷ ks) [] = false
diverge (k ∷ ks) (q ∷ qs) = if text_eq k q then diverge ks qs else true

-- A descent through a segment, where more segments follow.
pub walk-child_map :
    (k q : Text) (qs : List Text) (m : Fields) {child : Fields}
    → child_map (lookup_field k m) ≡ some child
    → walk (k ∷ q ∷ qs) (obj m) ≡ walk (q ∷ qs) (obj child)
unfolding walk lookup_field
walk-child_map k q qs m h = ground arith

pub walk-set_keys_ne :
    (strict : Bool) (v : Value) (m : Fields) (ks qs : List Text)
    → diverge ks qs ≡ true
    → walk qs (obj (set_keys strict v m ks).0) ≡ walk qs (obj m)
unfolding set_keys walk
walk-set_keys_ne strict v m [] qs h = cc
walk-set_keys_ne strict v m (k ∷ ks) [] h = cc
walk-set_keys_ne strict v m (k ∷ []) (q ∷ qs) h =
    ground (arith, lookup_field-insert_field k q v m, text_eq_iff k q)
walk-set_keys_ne strict v m (k ∷ j ∷ ks) (q ∷ []) h =
    elim (Option-cases (child_map (lookup_field k m))) [
      | inl blocked ↦ ground arith
      | inr (child, e) ↦ ground (
        arith,
        lookup_field-insert_field k q (obj (set_keys strict v child (j ∷ ks)).0) m,
        text_eq_iff k q,
      )
    ]
walk-set_keys_ne strict v m (k ∷ j ∷ ks) (q ∷ p ∷ qs) h =
    elim (Option-cases (child_map (lookup_field k m))) [
      | inl blocked ↦ ground arith
      | inr (child, e) ↦ ground (
        arith,
        walk-set_keys_ne strict v child (j ∷ ks) (p ∷ qs),
        lookup_field-insert_field k q (obj (set_keys strict v child (j ∷ ks)).0) m,
        text_eq_iff k q,
        walk-child_map k p qs m e,
      )
    ]

-- No map.
abbrev pub is_leaf : Value → Bool
is_leaf (obj m) = false
is_leaf v = true

-- A value that is no map survives every write that fails, and every write in strict mode.
pub walk-set_keys_kept :
    (strict : Bool) (v w : Value) (m : Fields) (ks qs : List Text)
    → walk qs (obj m) ≡ some w
    → is_leaf w ≡ true
    → (strict ≡ true) ⊎ ((set_keys strict v m ks).1 ≢ none)
    → walk qs (obj (set_keys strict v m ks).0) ≡ some w
unfolding set_keys walk
walk-set_keys_kept strict v w m ks [] f l h = ground arith
walk-set_keys_kept strict v w m [] (q ∷ qs) f l h = f
walk-set_keys_kept strict v w m (k ∷ []) (q ∷ qs) f l h =
    ground (arith, lookup_field-insert_field k q v m, text_eq_iff k q)
walk-set_keys_kept strict v w m (k ∷ j ∷ ks) (q ∷ []) f l h =
    elim (Option-cases (child_map (lookup_field k m))) [
      | inl blocked ↦ ground arith
      | inr (child, e) ↦ ground (
        arith,
        lookup_field-insert_field k q (obj (set_keys strict v child (j ∷ ks)).0) m,
        text_eq_iff k q,
      )
    ]
walk-set_keys_kept strict v w m (k ∷ j ∷ ks) (q ∷ p ∷ qs) f l h =
    elim (Option-cases (child_map (lookup_field k m))) [
      | inl blocked ↦ ground arith
      | inr (child, e) ↦ ground (
        arith,
        walk-set_keys_kept strict v w child (j ∷ ks) (p ∷ qs),
        lookup_field-insert_field k q (obj (set_keys strict v child (j ∷ ks)).0) m,
        text_eq_iff k q,
        walk-child_map k p qs m e,
      )
    ]

insert_field-lookup_field :
    (k : Text) (v : Value) (m : Fields) → lookup_field k m ≡ some v → insert_field k v m ≡ m
unfolding lookup_field insert_field
insert_field-lookup_field k v end h = cc
insert_field-lookup_field k v (field j w m) h =
    ground (arith, insert_field-lookup_field k v m, text_eq_iff j k)

-- In strict mode a path that holds a value cannot be written, and nothing changes.
pub set_keys_present :
    (v w : Value) (m : Fields) (k : Text) (ks : List Text)
    → walk (k ∷ ks) (obj m) ≡ some w
    → ((set_keys true v m (k ∷ ks)).0 ≡ m) × ((set_keys true v m (k ∷ ks)).1 ≢ none)
unfolding set_keys walk
set_keys_present v w m k [] f = ground arith
set_keys_present v w m k (j ∷ ks) f = elim (Option-cases (lookup_field k m)) [
  | inl missing ↦ ground arith
  | inr (obj child, e) ↦
      ground (arith, set_keys_present v w child j ks, insert_field-lookup_field k (obj child) m)
  | inr (x, e) ↦ ground arith
]
