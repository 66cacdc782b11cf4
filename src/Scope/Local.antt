-- ===== src/Scope/Local.antt =====
-- A path below one key of the root: reading and writing there looks at nothing but that key, and at
-- the settings of the Scope.
use rlng.Base.{
  ◌≡◌, refl, sym, subst, ap, ◌∙◌, Bool, Bool-cases, Option-cases, inl, inr, Option, List, [], ◌∷◌,
  arith, Option,
}
use rlng.Base.Text.{Text, is_empty}
use rlng.Value.{Value, Fields, obj}
use rlng.Value.Access.{lookup_field, lookup_field-insert_field_self}
use rlng.Error.{Error, of_error}
use rlng.Scope.{Scope, Derivation}
use rlng.Scope.Path.{child_map, nest, set_keys, set_path, lookup_path, walk}
use rlng.Scope.Action.{set, get, derive, derive_or_set}
use rlng.Scope.Frame.{head_segment, split_dots-head}
use rlng.Scope.Roundtrip.{lookup_path-eq-walk}

-- The two maps have the same at the key.
abbrev pub SameAt : Text → Fields → Fields → Type 0
SameAt k m n = lookup_field k m ≡ lookup_field k n

abbrev SameWrite : Text → Fields × Option Error → Fields × Option Error → Type 0
SameWrite k a b = SameAt k a.0 b.0 × (a.1 ≡ b.1)

nest-same :
    (k : Text) (m n : Fields) (r : Fields × Option Error) → SameWrite k (nest k m r) (nest k n r)
nest-same k m n r = (
  lookup_field-insert_field_self k (obj r.0) m ∙ sym (lookup_field-insert_field_self k (obj r.0) n),
  refl,
)

set_keys-same :
    (strict : Bool) (v : Value) (k : Text) (ks : List Text) (m n : Fields)
    → SameAt k m n
    → SameWrite k (set_keys strict v m (k ∷ ks)) (set_keys strict v n (k ∷ ks))
unfolding set_keys
set_keys-same strict v k [] m n h =
    ground (arith, lookup_field-insert_field_self k v m, lookup_field-insert_field_self k v n)
set_keys-same strict v k (j ∷ ks) m n h = elim (Bool-cases (is_empty k)) [
  | inl empty ↦ rw (empty, set_keys) (h, refl)
  | inr named ↦ elim (Option-cases (child_map (lookup_field k n))) [
    | inl no_map ↦ ground (arith, h, no_map, named)
    | inr (child, found) ↦
        ground (arith, h, found, named, nest-same k m n (set_keys strict v child (j ∷ ks)))
  ]
]

-- A Set below a key gives the same error and leaves the same at the key.
set-same :
    (p : Text) (v : Value) (s t : Scope)
    → s.strict ≡ t.strict
    → SameAt (head_segment p) s.store t.store
    → ((set p v s).0 ≡ (set p v t).0)
      × SameAt (head_segment p) (set p v s).1.store (set p v t).1.store
unfolding set set_path
set-same [] v s t strict h = (refl, h)
set-same (c ∷ p) v s t strict h =
    let (ks, e) = split_dots-head (c ∷ p) in
    let (same, error) = set_keys-same s.strict v (head_segment (c ∷ p)) ks s.store t.store h in
    rw (← strict, e) (ap of_error error, same)

pub derive_or_set-same :
    (p : Text) (v : Value) (d e : Derivation) (s t : Scope)
    → s.strict ≡ t.strict
    → s.provenance ≡ t.provenance
    → SameAt (head_segment p) s.store t.store
    → ((derive_or_set p v d s).0 ≡ (derive_or_set p v e t).0)
      × SameAt (head_segment p) (derive_or_set p v d s).1.store (derive_or_set p v e t).1.store
unfolding derive_or_set derive
derive_or_set-same p v d e s t strict provenance h =
    let (result, same) = set-same p v s t strict h in ground (arith, result, same)

walk-same :
    (k : Text) (ks : List Text) (m n : Fields)
    → SameAt k m n
    → walk (k ∷ ks) (obj m) ≡ walk (k ∷ ks) (obj n)
unfolding walk
walk-same k ks m n h = rw (walk, h) refl

lookup_path-same :
    (q : Text) (m n : Fields) → SameAt (head_segment q) m n → lookup_path m q ≡ lookup_path n q
unfolding lookup_path
lookup_path-same [] m n h = refl
lookup_path-same (c ∷ q) m n h =
    let (ks, e) = split_dots-head (c ∷ q) in
    lookup_path-eq-walk m (c ∷ q) (λ x. ground arith)
    ∙ subst (λ (js : List Text). walk js (obj m) ≡ walk js (obj n)) (sym e)
        (walk-same (head_segment (c ∷ q)) ks m n h)
    ∙ sym (lookup_path-eq-walk n (c ∷ q) (λ x. ground arith))

pub get-same :
    (q : Text) (s t : Scope) → SameAt (head_segment q) s.store t.store → get q s ≡ get q t
unfolding get
get-same q s t h = lookup_path-same q s.store t.store h
