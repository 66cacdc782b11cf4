-- ===== src/Multi/Frame.antt =====
-- A MultiExpr writes under its own name only.
use rlng.Base.{◌≡◌, ◌≢◌, refl, Bool, true, false, List, [], ◌∷◌, ⊤}
use rlng.Base.Text.{Text}
use rlng.Value.{Value, Fields, end}
use rlng.Value.Access.{insert_field}
use rlng.Error.{map_err}
use rlng.Expr.{apply}
use rlng.Scope.{Scope, Derivation, observe, snapshot}
use rlng.Scope.Path.{qualify}
use rlng.Scope.Action.{Action, lift, wrap_err, derive_or_set, get}
use rlng.Scope.Frame.{head_segment, Unchanged, IsBlind, get-IsBlind, >>=-Unchanged}
use rlng.Multi.{CompiledNamed, MultiExpr, multi_error, overlay, execute_exprs, execute_multi}

module _ {X : Type 0} (g : Scope → X) (name : Text) (blind : IsBlind g name) where
  abbrev write : Text → Value → Derivation → Action ⊤
  write key v d = wrap_err (multi_error name) (derive_or_set (qualify name key) v d)

  execute_exprs-Unchanged :
      (env locals : Fields) (es : List CompiledNamed)
      → Unchanged g (execute_exprs name env locals es)
  unfolding execute_exprs
  execute_exprs-Unchanged env locals [] s = refl
  execute_exprs-Unchanged env locals (e ∷ es) s =
      >>=-Unchanged g
        (lift (map_err (multi_error name) (apply e.fn (overlay (observe s env) locals)))) _
        (λ _. refl)
        (λ v.
          >>=-Unchanged g (write e.name v _) _ (blind.0 e.name v _)
            (λ _. execute_exprs-Unchanged env (insert_field e.name v locals) es))
        s

pub execute_multi-Unchanged :
    {X : Type 0} (g : Scope → X) (m : MultiExpr) (done : Bool) (s : Scope)
    → IsBlind g m.name
    → g (execute_multi m done s).1 ≡ g s
unfolding execute_multi
execute_multi-Unchanged g m true s blind = refl
execute_multi-Unchanged g m false s blind =
    execute_exprs-Unchanged g m.name blind (snapshot s) end m.exprs s

-- Whether it succeeds or not, a MultiExpr does not change what is read at a path whose first
-- segment differs from that of its name.
pub execute_multi-Keeps :
    (q : Text) (m : MultiExpr) (done : Bool) (s : Scope)
    → head_segment m.name ≢ head_segment q
    → get q (execute_multi m done s).1 ≡ get q s
execute_multi-Keeps q m done s apart =
    execute_multi-Unchanged (get q) m done s (get-IsBlind q m.name apart)
