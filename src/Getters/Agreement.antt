-- ===== src/Getters/Agreement.antt =====
-- The coercing getters against the strict ones.
use rlng.Base.{◌≡◌, arith, Option-cases, inl, inr}
use rlng.Base.Int.{ℤ}
use rlng.Base.Text.{Text}
use rlng.Value.{Value, Arith}
use rlng.Error.{Error, ok}
use rlng.Numeric.{int64_from_numeric}
use rlng.Scope.{Scope}
use rlng.Scope.Action.{get}
use rlng.Codec.{Wire}
use rlng.Getters.{Truncation, int_at, get_int, coerce_to_int64, get_int_coerce, get_int64_coerce}

module _ (w : Wire) (ops : Arith) (tr : Truncation) where
  coerce-of_int :
      (path : Text) (e : Error) (v : Value) (n : ℤ)
      → int_at w path v ≡ ok n
      → coerce_to_int64 w ops tr e v ≡ ok n
  unfolding coerce_to_int64 int64_from_numeric
  coerce-of_int path e v n h = ground arith

  -- Where GetInt returns a number, GetIntCoerce and GetInt64Coerce return the same.
  pub coerce-eq-get_int :
      (path : Text) (s : Scope) (n : ℤ)
      → get_int w path s ≡ ok n
      → (get_int_coerce w ops tr path s ≡ ok n) × (get_int64_coerce w ops tr path s ≡ ok n)
  unfolding get_int get_int_coerce get_int64_coerce
  coerce-eq-get_int path s n h = elim (Option-cases (get path s)) [
    | inl absent ↦ ground arith
    | inr (v, present) ↦
        let strict = rw (present, get_int) at h in
        (rw present (coerce-of_int path _ v n strict), rw present (coerce-of_int path _ v n strict))
  ]
