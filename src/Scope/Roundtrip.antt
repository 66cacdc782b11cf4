-- ===== src/Scope/Roundtrip.antt =====
-- Reading back what Set wrote, and what Set leaves alone.
use rlng.Base.{
  ◌≡◌, ◌≢◌, ◌⊎◌, refl, true, false, none, some, List, [], ◌∷◌, arith, ◌==◌, sym, ◌∙◌, inl, inr,
  Bool-cases,
}
use rlng.Base.Text.{Text}
use rlng.Value.{Value, obj, Fields}
use rlng.Value.Access.{lookup_field}
use rlng.Error.{ok}
use rlng.Scope.{Scope}
use rlng.Scope.Path.{split_dots, contains_dot, set_path, walk, lookup_path}
use rlng.Scope.Action.{set, get}
use rlng.Scope.Segments.{
  walk-set_keys_self, walk-set_keys_ne, walk-set_keys_kept, set_keys_present, diverge, is_leaf,
}

split_dots_plain : (s : Text) → contains_dot s ≡ false → split_dots s ≡ s ∷ []
unfolding split_dots contains_dot
split_dots_plain [] h = refl
split_dots_plain (c ∷ s) h = ground (arith, split_dots_plain s)

walk_one : (m : Fields) (k : Text) → lookup_field k m ≡ walk (k ∷ []) (obj m)
unfolding walk
walk_one m k = ground arith

-- The fast path of lookupPath for a key with no dot returns what the walk over the split path
-- returns, at every non-empty path.
pub lookup_path-eq-walk :
    (m : Fields) (path : Text) → path ≢ [] → lookup_path m path ≡ walk (split_dots path) (obj m)
unfolding lookup_path
lookup_path-eq-walk m [] h = absurd (h refl)
lookup_path-eq-walk m (c ∷ s) h = elim (Bool-cases (contains_dot (c ∷ s))) [
  | inl dotted ↦ rw dotted
  | inr plain ↦ rw (plain, split_dots_plain (c ∷ s) plain) (walk_one m (c ∷ s))
]

split_dots-cons : (path : Text) → (k : Text) × (ks : List Text) × (split_dots path ≡ k ∷ ks)
unfolding split_dots
split_dots-cons [] = ([], [], refl)
split_dots-cons (c ∷ s) =
    let (k, ks, e) = split_dots-cons s in
    elim (Bool-cases (c == b'.')) [
      | inl dot ↦ ([], k ∷ ks, rw (dot, e))
      | inr plain ↦ (c ∷ k, ks, rw (plain, e))
    ]

get_nil : (s : Scope) → get [] s ≡ none
unfolding get lookup_path
get_nil s = refl

get-eq-walk :
    (path : Text) (s : Scope) → path ≢ [] → get path s ≡ walk (split_dots path) (obj s.store)
unfolding get
get-eq-walk path s h = lookup_path-eq-walk s.store path h

set_ne_empty : (path : Text) (v : Value) (s : Scope) → (set path v s).0 ≡ ok tt → path ≢ []
unfolding set
set_ne_empty [] v s h = cc
set_ne_empty (c ∷ path) v s h = cc

-- After a successful Set the same path reads back the value.
pub get-set :
    (path : Text) (v : Value) (s : Scope)
    → (set path v s).0 ≡ ok tt
    → get path (set path v s).1 ≡ some v
unfolding set set_path
get-set [] v s h = cc
get-set (c ∷ p) v s h =
    rw (get-eq-walk (c ∷ p) (set (c ∷ p) v s).1 (λ e. cc))
      (walk-set_keys_self s.strict v s.store (split_dots (c ∷ p)) (ground arith))

-- A Set, successful or not, does not change what is read at a path such that neither path is a
-- prefix of the other.
pub get-set_ne :
    (p q : Text) (v : Value) (s : Scope)
    → diverge (split_dots p) (split_dots q) ≡ true
    → get q (set p v s).1 ≡ get q s
unfolding set set_path
get-set_ne [] q v s h = refl
get-set_ne (c ∷ p) [] v s h = get_nil (set (c ∷ p) v s).1 ∙ sym (get_nil s)
get-set_ne (c ∷ p) (d ∷ q) v s h =
    rw (get-eq-walk (d ∷ q) (set (c ∷ p) v s).1 (λ e. cc), get-eq-walk (d ∷ q) s (λ e. cc))
      (walk-set_keys_ne s.strict v s.store (split_dots (c ∷ p)) (split_dots (d ∷ q)) h)

-- A value that is no map is still read at its path after a Set that fails, and after every Set on
-- a strict scope.
pub get-set_kept :
    (p q : Text) (v w : Value) (s : Scope)
    → get q s ≡ some w
    → is_leaf w ≡ true
    → (s.strict ≡ true) ⊎ ((set p v s).0 ≢ ok tt)
    → get q (set p v s).1 ≡ some w
unfolding set set_path
get-set_kept [] q v w s f l h = f
get-set_kept (c ∷ p) [] v w s f l h = cc (get_nil s)
get-set_kept (c ∷ p) (d ∷ q) v w s f l h = rw (get-eq-walk (d ∷ q) (set (c ∷ p) v s).1 (λ e. cc)) (
    walk-set_keys_kept s.strict v w s.store (split_dots (c ∷ p)) (split_dots (d ∷ q))
      (sym (get-eq-walk (d ∷ q) s (λ e. cc)) ∙ f) l (ground arith))

-- On a strict scope a Set at a path that already holds a value fails and leaves the scope as it
-- was.
pub set_strict_present :
    (path : Text) (v w : Value) (s : Scope)
    → s.strict ≡ true
    → get path s ≡ some w
    → ((set path v s).0 ≢ ok tt) × ((set path v s).1 ≡ s)
unfolding set set_path
set_strict_present [] v w s strict f = cc (get_nil s)
set_strict_present (c ∷ p) v w s strict f =
    let (k, ks, e) = split_dots-cons (c ∷ p) in
    let (same, fails) =
      set_keys_present v w s.store k ks (rw e at (sym (get-eq-walk (c ∷ p) s (λ e. cc)) ∙ f)) in
    (ground (arith, e, fails), ground (arith, e, same))
