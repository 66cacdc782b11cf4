-- ===== src/Base/Lists.antt =====
-- Lists measured by native numbers, and predicates on lists by recursion.
use Prim.Native.Nat.{ℕ, suc, ◌+◌}
use mathlib.Core.Path.{◌≡◌, refl, sym, ap, ◌∙◌, subst}
use mathlib.Core.Logic.{◌⊎◌, inl, inr, ∥∥₁_elim}
use mathlib.Core.List.{List, [], ◌∷◌, ◌++◌}
use mathlib.Core.List.{Perm, Permᴰ}
use native.Mathlib.Nat.{ℕ_set}
use native.Mathlib.Omega.{arith}

module _ {ℓ} {A : Type ℓ} where
  abbrev pub length : List A → ℕ
  length [] = 0
  length (x ∷ xs) = suc (length xs)

  pub length-append : (xs ys : List A) → length (xs ++ ys) ≡ length xs + length ys
  length-append [] ys = omega arith
  length-append (x ∷ xs) ys = omega (arith, length-append xs ys)

  -- `P` holds of every element.
  abbrev pub All {κ} : (A → Type κ) → List A → Type κ
  All P [] = Unit
  All P (x ∷ xs) = P x × All P xs

  pub All-append {κ} : (P : A → Type κ) (xs ys : List A) → All P xs → All P ys → All P (xs ++ ys)
  All-append P [] ys h k = k
  All-append P (x ∷ xs) ys h k = (h.0, All-append P xs ys h.1 k)

  pub All-map {κ μ} :
      (P : A → Type κ) (Q : A → Type μ) (xs : List A) → ((x : A) → P x → Q x) → All P xs → All Q xs
  All-map P Q [] f h = tt
  All-map P Q (x ∷ xs) f h = (f x h.0, All-map P Q xs f h.1)

-- `a` is an element.
abbrev pub Among : {A : Type 0} → A → List A → Type 0
Among a [] = ⊥
Among a (x ∷ xs) = (a ≡ x) ⊎ Among a xs

Among-cons :
    {A : Type 0} (x : A) (xs ys : List A)
    → All (λ a. Among a xs) ys
    → All (λ a. Among a (x ∷ xs)) ys
Among-cons x xs [] h = tt
Among-cons x xs (y ∷ ys) h = (inr h.0, Among-cons x xs ys h.1)

pub Among-All : {A : Type 0} (xs : List A) → All (λ a. Among a xs) xs
Among-All [] = tt
Among-All (x ∷ xs) = (inl refl, Among-cons x xs xs (Among-All xs))

permᴰ-length : {A : Type 0} {xs ys : List A} → Permᴰ xs ys → length xs ≡ length ys
permᴰ-length Permᴰ.nil = refl
permᴰ-length (Permᴰ.cons e p) = ap suc (permᴰ-length p)
permᴰ-length (Permᴰ.swap e f) = refl
permᴰ-length (Permᴰ.trans p q) = permᴰ-length p ∙ permᴰ-length q

pub perm-length : {A : Type 0} {xs ys : List A} → Perm xs ys → length xs ≡ length ys
perm-length p = ∥∥₁_elim p (ℕ_set _ _) permᴰ-length

All-of_Among :
    {A : Type 0} (P : A → Type 0) (xs ys : List A)
    → ((a : A) → Among a xs → P a)
    → All (λ a. Among a xs) ys
    → All P ys
All-of_Among P xs [] f h = tt
All-of_Among P xs (y ∷ ys) f h = (f y h.0, All-of_Among P xs ys f h.1)

pub All-of : {A : Type 0} {P : A → Type 0} (xs : List A) → ((a : A) → Among a xs → P a) → All P xs
All-of {P} xs f = All-of_Among P xs xs f (Among-All xs)

pub All-Among : {A : Type 0} (P : A → Type 0) (xs : List A) (a : A) → All P xs → Among a xs → P a
All-Among P [] a h m = elim m [ ]
All-Among P (x ∷ xs) a h (inl e) = subst P (sym e) h.0
All-Among P (x ∷ xs) a h (inr m) = All-Among P xs a h.1 m

-- What holds of all elements of a list holds of all elements of a list of some of them.
pub All-within :
    {A : Type 0} (P : A → Type 0) (xs ys : List A) → All (λ a. Among a xs) ys → All P xs → All P ys
All-within P xs ys m h = All-of_Among P xs ys (λ a. All-Among P xs a h) m
