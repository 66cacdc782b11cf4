-- ===== src/Expr/Fallback.antt =====
-- When the fallback of a Function runs, and that a fallback error keeps the error that it masks.
use rlng.Base.{◌≡◌, some, arith, ◌⊎◌, inl, inr, refl, ◌&&◌, Bool-cases}
use rlng.Value.{Value, Fields, end}
use rlng.Error.{Error, eval_error, joined, ok, err, Cases, Result-Cases}
use rlng.Expr.{Function, Program, apply, run_fallback, is_null}

-- A function with a fallback that succeeds on the empty environment always succeeds: with the main
-- result where there is one that is not a nil to replace, and with the fallback's result otherwise.
pub apply_total :
    (f : Function) (p : Program) (w : Value) (env : Fields)
    → f.fallback ≡ some p
    → p end ≡ ok w
    → (v : Value) × (apply f env ≡ ok v) × ((f.program env ≡ ok v) ⊎ (v ≡ w))
unfolding apply run_fallback
apply_total f p w env e h = elim (Result-Cases (f.program env)) [
  | Cases.bad m failed ↦ (w, ground arith, inr refl)
  | Cases.good v done ↦ elim (Bool-cases (is_null v && f.fallback_on_nil)) [
    | inl replaced ↦ (w, ground arith, inr refl)
    | inr kept ↦ (v, ground arith, inl done)
  ]
]

-- Where the main program and then the fallback fail, the error of Apply holds both errors, the
-- masked one first, and names the fallback's source.
pub apply_joins :
    (f : Function) (p : Program) (env : Fields) (main : Error) {e : Error}
    → f.fallback ≡ some p
    → f.program env ≡ err main
    → apply f env ≡ err e
    → (x : Error) × (p end ≡ err x) × (e ≡ eval_error f.name f.fallback_src (joined main x))
unfolding apply run_fallback
apply_joins f p env main has failed h = elim (Result-Cases (p end)) [
  | Cases.good v done ↦ ground arith
  | Cases.bad x worse ↦ (x, worse, ground arith)
]
