-- ===== src/Single/Local.antt =====
-- A SingleExpr looks at what its gate and its expression read, and at the key that it writes below.
use rlng.Base.{◌≡◌, refl, ap, Bool, true, false, Bool-cases, inl, inr, ⊤}
use rlng.Value.{Fields, Arith}
use rlng.Error.{Result, Cases, Result-Cases, map_err}
use rlng.Expr.{apply}
use rlng.Scope.{Scope, snapshot}
use rlng.Scope.Frame.{head_segment}
use rlng.Scope.Local.{SameAt, derive_or_set-same}
use rlng.Single.{SingleExpr, single_error, gate, evaluate, execute_single_expr}

module _ (ops : Arith) (e : SingleExpr) where
  -- The same result, and the same below the output's key.
  abbrev pub SameEnd : Result ⊤ × Scope → Result ⊤ × Scope → Type 0
  SameEnd a b = (a.0 ≡ b.0) × SameAt (head_segment e.output) a.1.store b.1.store

  evaluate-same :
      (l r : Fields) (s t : Scope)
      → apply e.fn l ≡ apply e.fn r
      → s.strict ≡ t.strict
      → s.provenance ≡ t.provenance
      → SameAt (head_segment e.output) s.store t.store
      → SameEnd (evaluate ops e l s) (evaluate ops e r t)
  evaluate-same l r s t value strict provenance h = elim (Result-Cases (apply e.fn r)) [
    | Cases.bad x failed ↦ rw (value, failed) (refl, h)
    | Cases.good v done ↦
        rw (value, done)
          (let (same, at) = derive_or_set-same e.output v _ _ s t strict provenance h in
            (ap (map_err (single_error e.name)) same, at))
  ]

  -- On two Scopes with the same settings, the same below the output's key, and the same outcome of
  -- the gate and of the expression, a SingleExpr returns the same and leaves the same below that key.
  pub execute_single_expr-same :
      (done : Bool) (s t : Scope)
      → gate ops e.cond (snapshot s) ≡ gate ops e.cond (snapshot t)
      → apply e.fn (snapshot s) ≡ apply e.fn (snapshot t)
      → s.strict ≡ t.strict
      → s.provenance ≡ t.provenance
      → SameAt (head_segment e.output) s.store t.store
      → SameEnd (execute_single_expr ops e done s) (execute_single_expr ops e done t)
  unfolding execute_single_expr
  execute_single_expr-same true s t gated value strict provenance h = (refl, h)
  execute_single_expr-same false s t gated value strict provenance h =
      elim (Result-Cases (gate ops e.cond (snapshot t))) [
        | Cases.bad x failed ↦ rw (gated, failed) (refl, h)
        | Cases.good b passed ↦
            rw (gated, passed)
              (elim (Bool-cases b) [
                | inl passes ↦
                    rw passes
                      (evaluate-same (snapshot s) (snapshot t) s t value strict provenance h)
                | inr stays ↦ rw stays (refl, h)
              ])
      ]
