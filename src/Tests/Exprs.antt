-- ===== src/Tests/Exprs.antt =====
-- The theorems on fallbacks and references at concrete functions and trees.
use rlng.Base.{inr, ◌≡◌, refl, inl, true, false, some, [], ◌∷◌, Among}
use rlng.Base.Text.{Text, codes, text_eq}
use rlng.Value.{end}
use rlng.Error.{Error, vm_error, eval_error, joined, err}
use rlng.Expr.{Program, Function, apply, run_fallback}
use rlng.Expr.References.{
  Node, identifier, string_node, member, call, binary, no_nodes, node_then, static_path,
  collect_paths, as_set, is_strict_prefix_of_any, maximal, references,
}
use rlng.Expr.References.Covers.{Reaches, references-covered}
use rlng.Expr.References.Occurs.{Occurs}
use rlng.Scope.Lineage.{mem_path, starts_with}
use rlng.Scope.Path.{contains_dot, qualify}
use rlng.Table.Compile.{sort_texts, insert_sorted}

abbrev failing : Text → Program
failing why env = err (vm_error why)

abbrev guarded : Program → Function
guarded fallback = record {
  name = codes "total";
  expression = codes "a / b";
  program = failing (codes "division");
  fallback = some fallback;
  fallback_src = codes "f";
  refs = [];
  fallback_on_nil = true;
}

abbrev broken : Function
broken = guarded (failing (codes "fallback"))

abbrev both_failed : Error
both_failed =
    eval_error (codes "total") (codes "f")
      (joined (vm_error (codes "division")) (vm_error (codes "fallback")))

apply-broken : apply broken end ≡ err both_failed
unfolding apply run_fallback
apply-broken = refl

-- `user.age + f(user)`
abbrev summed : Node
summed =
    binary (codes "+") (member (identifier (codes "user")) (string_node (codes "age")) false)
      (call (identifier (codes "f")) (node_then (identifier (codes "user")) no_nodes))

listed : references (some summed) ≡ codes "user.age" ∷ []
unfolding references collect_paths static_path as_set mem_path maximal is_strict_prefix_of_any
    starts_with sort_texts insert_sorted contains_dot qualify text_eq
listed = refl

-- The argument of the call.
occurs : Occurs (codes "user") summed
unfolding Occurs
occurs = inr (inr (inl refl))

references-covered_example :
    (r : Text) × Among r (references (some summed)) × Reaches (codes "user") r
references-covered_example = references-covered summed (codes "user") occurs
