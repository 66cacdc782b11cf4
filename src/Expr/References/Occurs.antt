-- ===== src/Expr/References/Occurs.antt =====
-- Where a path occurs in an expression, without the walks of expr/refs.go.
use rlng.Base.{
  ◌≡◌, ◌⊎◌, inl, inr, true, false, List, [], ◌∷◌, ◌++◌, arith, Among, none, some, Option, ap, sym,
}
use rlng.Base.Text.{Text}
use rlng.Scope.Path.{contains_dot, qualify}
use rlng.Expr.References.{
  Node, Nodes, identifier, string_node, integer_node, float_node, bool_node, member, call, binary,
  branch, no_nodes, node_then, static_path, path_list, collect_paths, collect_all,
}

-- The node spells the path: a name, or names with dots between them, the last without a dot in it.
unfoldable pub Spells : Text → Node → Type 0
Spells p (identifier s) = p ≡ s
Spells p (member n (string_node s) false) =
    (contains_dot s ≡ false) × (base : Text) × Spells base n × (p ≡ base ++ b'.' ∷ s)
Spells p n = ⊥

unfoldable mutual
  -- The path occurs in the expression. The callee of a call does not count, what it is made of does.
  pub Occurs : Text → Node → Type 0
  Occurs p (identifier s) = p ≡ s
  Occurs p (member n property method) =
      Spells p (member n property method) ⊎ (Occurs p n ⊎ Occurs p property)
  Occurs p (call f args) = OccursInCallee p f ⊎ OccursInAny p args
  Occurs p (binary op l r) = Occurs p l ⊎ Occurs p r
  Occurs p (branch ns) = OccursInAny p ns
  Occurs p (string_node s) = ⊥
  Occurs p (integer_node i) = ⊥
  Occurs p (float_node f) = ⊥
  Occurs p (bool_node b) = ⊥

  pub OccursInCallee : Text → Node → Type 0
  OccursInCallee p (identifier s) = ⊥
  OccursInCallee p (member n property method) = Occurs p n ⊎ Occurs p property
  OccursInCallee p (call f args) = OccursInCallee p f ⊎ OccursInAny p args
  OccursInCallee p (binary op l r) = Occurs p l ⊎ Occurs p r
  OccursInCallee p (branch ns) = OccursInAny p ns
  OccursInCallee p (string_node s) = ⊥
  OccursInCallee p (integer_node i) = ⊥
  OccursInCallee p (float_node f) = ⊥
  OccursInCallee p (bool_node b) = ⊥

  pub OccursInAny : Text → Nodes → Type 0
  OccursInAny p no_nodes = ⊥
  OccursInAny p (node_then n ns) = Occurs p n ⊎ OccursInAny p ns

Among-left : (p : Text) (xs ys : List Text) → Among p xs → Among p (xs ++ ys)
Among-left p [] ys m = elim m [ ]
Among-left p (x ∷ xs) ys (inl e) = inl e
Among-left p (x ∷ xs) ys (inr m) = inr (Among-left p xs ys m)

Among-right : (p : Text) (xs ys : List Text) → Among p ys → Among p (xs ++ ys)
Among-right p [] ys m = m
Among-right p (x ∷ xs) ys m = inr (Among-right p xs ys m)

static_path-Spells : (n : Node) (p : Text) → Spells p n → static_path n ≡ some p
unfolding Spells static_path qualify
static_path-Spells (identifier s) p h = ap some (sym h)
static_path-Spells (member n (string_node s) false) p (plain, base, h, e) =
    rw (static_path-Spells n base h, plain) (ap some (sym e))
static_path-Spells (member n (string_node s) true) p h = elim h [ ]
static_path-Spells (member n (identifier s) method) p h = elim h [ ]
static_path-Spells (member n (integer_node s) method) p h = elim h [ ]
static_path-Spells (member n (float_node s) method) p h = elim h [ ]
static_path-Spells (member n (bool_node s) method) p h = elim h [ ]
static_path-Spells (member n (member a b c) method) p h = elim h [ ]
static_path-Spells (member n (call a b) method) p h = elim h [ ]
static_path-Spells (member n (binary a b c) method) p h = elim h [ ]
static_path-Spells (member n (branch a) method) p h = elim h [ ]
static_path-Spells (string_node s) p h = elim h [ ]
static_path-Spells (integer_node s) p h = elim h [ ]
static_path-Spells (float_node s) p h = elim h [ ]
static_path-Spells (bool_node s) p h = elim h [ ]
static_path-Spells (call a b) p h = elim h [ ]
static_path-Spells (binary a b c) p h = elim h [ ]
static_path-Spells (branch a) p h = elim h [ ]

Among-path_list : (p : Text) (found : Option Text) → found ≡ some p → Among p (path_list found)
Among-path_list p none e = ground arith
Among-path_list p (some q) e = inl (ground arith)

mutual
  unfolding Occurs OccursInCallee OccursInAny collect_paths collect_all

  pub Among-collect_paths : (n : Node) (p : Text) → Occurs p n → Among p (collect_paths false n)
  Among-collect_paths (identifier s) p h = inl h
  Among-collect_paths (member n property method) p (inl spelt) =
      let path = path_list (static_path (member n property method)) in
      Among-right p (collect_paths false n ++ collect_paths false property) path (
        Among-path_list p (static_path (member n property method))
          (static_path-Spells (member n property method) p spelt))
  Among-collect_paths (member n property method) p (inr (inl h)) =
      Among-left p (collect_paths false n ++ collect_paths false property) _
        (Among-left p (collect_paths false n) _ (Among-collect_paths n p h))
  Among-collect_paths (member n property method) p (inr (inr h)) =
      Among-left p (collect_paths false n ++ collect_paths false property) _
        (Among-right p (collect_paths false n) _ (Among-collect_paths property p h))
  Among-collect_paths (call f args) p (inl h) =
      Among-left p (collect_paths true f) _ (Among-callee f p h)
  Among-collect_paths (call f args) p (inr h) =
      Among-right p (collect_paths true f) _ (Among-collect_all args p h)
  Among-collect_paths (binary op l r) p (inl h) =
      Among-left p (collect_paths false l) _ (Among-collect_paths l p h)
  Among-collect_paths (binary op l r) p (inr h) =
      Among-right p (collect_paths false l) _ (Among-collect_paths r p h)
  Among-collect_paths (branch ns) p h = Among-collect_all ns p h
  Among-collect_paths (string_node s) p h = elim h [ ]
  Among-collect_paths (integer_node s) p h = elim h [ ]
  Among-collect_paths (float_node s) p h = elim h [ ]
  Among-collect_paths (bool_node s) p h = elim h [ ]

  Among-callee : (n : Node) (p : Text) → OccursInCallee p n → Among p (collect_paths true n)
  Among-callee (member n property method) p (inl h) =
      Among-left p (collect_paths false n ++ collect_paths false property) _
        (Among-left p (collect_paths false n) _ (Among-collect_paths n p h))
  Among-callee (member n property method) p (inr h) =
      Among-left p (collect_paths false n ++ collect_paths false property) _
        (Among-right p (collect_paths false n) _ (Among-collect_paths property p h))
  Among-callee (call f args) p (inl h) = Among-left p (collect_paths true f) _ (Among-callee f p h)
  Among-callee (call f args) p (inr h) =
      Among-right p (collect_paths true f) _ (Among-collect_all args p h)
  Among-callee (binary op l r) p (inl h) =
      Among-left p (collect_paths false l) _ (Among-collect_paths l p h)
  Among-callee (binary op l r) p (inr h) =
      Among-right p (collect_paths false l) _ (Among-collect_paths r p h)
  Among-callee (branch ns) p h = Among-collect_all ns p h
  Among-callee (identifier s) p h = elim h [ ]
  Among-callee (string_node s) p h = elim h [ ]
  Among-callee (integer_node s) p h = elim h [ ]
  Among-callee (float_node s) p h = elim h [ ]
  Among-callee (bool_node s) p h = elim h [ ]

  Among-collect_all : (ns : Nodes) (p : Text) → OccursInAny p ns → Among p (collect_all ns)
  Among-collect_all no_nodes p h = elim h [ ]
  Among-collect_all (node_then n ns) p (inl h) =
      Among-left p (collect_paths false n) _ (Among-collect_paths n p h)
  Among-collect_all (node_then n ns) p (inr h) =
      Among-right p (collect_paths false n) _ (Among-collect_all ns p h)
