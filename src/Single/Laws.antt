-- ===== src/Single/Laws.antt =====
-- A SingleExpr writes at its output path only, and nothing while its gate is closed.
use rlng.Base.{◌≡◌, refl, Bool, true, false, some, arith}
use rlng.Base.Text.{Text}
use rlng.Value.{Value, Fields, Arith}
use rlng.Error.{ok, map_err}
use rlng.Expr.{Predicate, apply, test}
use rlng.Scope.{Derivation, Scope, snapshot}
use rlng.Scope.Path.{split_dots}
use rlng.Scope.Segments.{diverge}
use rlng.Scope.Action.{pure, lift, get, derive_or_set}
use rlng.Scope.Frame.{Unchanged, >>=-Unchanged, if-Unchanged, output-Keeps}
use rlng.Single.{SingleExpr, single_error, gate, evaluate, execute_single_expr}

module _ (ops : Arith) where
  -- A SingleExpr that is not cancelled and whose condition is false on the snapshot succeeds and
  -- leaves the scope as it was.
  pub execute_single_expr_closed :
      (e : SingleExpr) (p : Predicate) (s : Scope)
      → e.cond ≡ some p
      → test ops p (snapshot s) ≡ ok false
      → execute_single_expr ops e false s ≡ (ok tt, s)
  unfolding execute_single_expr
  execute_single_expr_closed e p s has closed = ground arith

  -- The write of a SingleExpr does not show in `g`.
  abbrev IsUnseen : {X : Type 0} → (Scope → X) → SingleExpr → Type 0
  IsUnseen g e = (v : Value) (d : Derivation) → Unchanged g (derive_or_set e.output v d)

  evaluate-Unchanged :
      {X : Type 0} (g : Scope → X) (e : SingleExpr) (env : Fields)
      → IsUnseen g e
      → Unchanged g (evaluate ops e env)
  evaluate-Unchanged g e env unseen =
      >>=-Unchanged g (lift (map_err (single_error e.name) (apply e.fn env))) _ (λ _. refl)
        (λ v. unseen v _)

  pub execute_single_expr-Unchanged :
      {X : Type 0} (g : Scope → X) (e : SingleExpr) (done : Bool) (s : Scope)
      → IsUnseen g e
      → g (execute_single_expr ops e done s).1 ≡ g s
  unfolding execute_single_expr
  execute_single_expr-Unchanged g e true s unseen = refl
  execute_single_expr-Unchanged g e false s unseen =
      >>=-Unchanged g (lift (map_err (single_error e.name) (gate ops e.cond (snapshot s)))) _
        (λ _. refl)
        (λ hit.
          if-Unchanged g hit (evaluate ops e (snapshot s)) (pure tt)
            (evaluate-Unchanged g e (snapshot s) unseen) (λ _. refl))
        s

  -- A SingleExpr, cancelled or not, on success and on error, changes nothing at a path such that
  -- neither it nor the output path is a prefix of the other.
  pub execute_single_expr-Keeps :
      (q : Text) (e : SingleExpr) (done : Bool) (s : Scope)
      → diverge (split_dots e.output) (split_dots q) ≡ true
      → get q (execute_single_expr ops e done s).1 ≡ get q s
  execute_single_expr-Keeps q e done s apart =
      execute_single_expr-Unchanged (get q) e done s (λ v d. output-Keeps q e.output v d apart)
