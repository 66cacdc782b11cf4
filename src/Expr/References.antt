-- ===== src/Expr/References.antt =====
-- expr/refs.go and expr/variables.go, on the syntax tree that the parser of expr-lang returns. A node
-- of a kind that the code does not look at is its children, in the order of a walk.
pub mod Occurs
pub mod Covers
use rlng.Base.{
  ℕ, ◌-◌, ◌^◌, Bool, true, false, ◌&&◌, ◌||◌, Option, none, some, List, [], ◌∷◌, ◌++◌, length, ltb,
  if◌then◌else◌,
}
use rlng.Base.Int.{ℤ, pos}
use rlng.Base.Text.{Text, codes}
use rlng.Value.{Value, bool, str, signed, unsigned, float, dec, number, Float, Decimal, Fields}
use rlng.Value.Access.{lookup_field}
use rlng.Scope.Path.{contains_dot, qualify}
use rlng.Scope.Lineage.{mem_path, starts_with}
use rlng.Table.Compile.{sort_texts}

mutual
  pub data Node : Type 0 where
    identifier string_node : Text → Node
    integer_node : ℤ → Node
    float_node : Float → Node
    bool_node : Bool → Node
    member : Node → Node → Bool → Node
    call : Node → Nodes → Node
    binary : Text → Node → Node → Node
    branch : Nodes → Node

  pub data Nodes : Type 0 where
    no_nodes : Nodes
    node_then : Node → Nodes → Nodes

-- The static path of a member: its property is a text with no dot, and its base has a path.
abbrev extend_path : Bool → Node → Option Text → Option Text
extend_path false (string_node s) (some base) =
    if contains_dot s then none else some (qualify base s)
extend_path method property base = none

-- `staticPath`
unfoldable pub static_path : Node → Option Text
static_path (identifier s) = some s
static_path (member n property method) = extend_path method property (static_path n)
static_path n = none

abbrev pub path_list : Option Text → List Text
path_list none = []
path_list (some p) = p ∷ []

-- What `refVisitor.Visit` notes of a node, which it skips where the node is the callee of a call.
abbrev visit_node : Bool → Node → List Text
visit_node true n = []
visit_node false (identifier s) = s ∷ []
visit_node false (member n property method) = path_list (static_path (member n property method))
visit_node false n = []

-- The walks of `references`: the children of a callee are visited like any other node.
unfoldable mutual
  pub collect_paths : Bool → Node → List Text
  collect_paths callee (member n property method) =
      collect_paths false n
      ++ collect_paths false property
      ++ visit_node callee (member n property method)
  collect_paths callee (call f args) = collect_paths true f ++ collect_all args
  collect_paths callee (binary op l r) = collect_paths false l ++ collect_paths false r
  collect_paths callee (branch ns) = collect_all ns
  collect_paths callee n = visit_node callee n

  pub collect_all : Nodes → List Text
  collect_all no_nodes = []
  collect_all (node_then n ns) = collect_paths false n ++ collect_all ns

unfoldable pub as_set : List Text → List Text
as_set [] = []
as_set (p ∷ ps) = let rest = as_set ps in if mem_path p rest then rest else p ∷ rest

-- The path `q` goes on where the path `p` ends.
abbrev pub goes_below : Text → Text → Bool
goes_below p q = ltb (length p) (length q) && starts_with (p ++ codes ".") q

-- `isStrictPrefixOfAny`
unfoldable pub is_strict_prefix_of_any : Text → List Text → Bool
is_strict_prefix_of_any p [] = false
is_strict_prefix_of_any p (q ∷ qs) = goes_below p q || is_strict_prefix_of_any p qs

unfoldable pub maximal : List Text → List Text → List Text
maximal all [] = []
maximal all (p ∷ ps) =
    let rest = maximal all ps in if is_strict_prefix_of_any p all then rest else p ∷ rest

-- `references`, from the tree; of a source that does not parse there are none.
unfoldable pub references : Option Node → List Text
references none = []
references (some tree) = let all = as_set (collect_paths false tree) in sort_texts (maximal all all)

-- The node that a declared value stands for; a value that is no scalar has none.
unfoldable pub literal_node : (Decimal → Text) → Value → Option Node
literal_node decimal_string (bool b) = some (bool_node b)
literal_node decimal_string (str s) = some (string_node s)
literal_node decimal_string (number s) = some (string_node s)
literal_node decimal_string (float k f) = some (float_node f)
literal_node decimal_string (signed k n) = some (integer_node n)
literal_node decimal_string (unsigned k u) =
    if ltb (2 ^ 63 - 1) u then none else some (integer_node (pos u))
literal_node decimal_string (dec d) =
    some (call (identifier (codes "decimal")) (node_then (string_node (decimal_string d)) no_nodes))
literal_node decimal_string v = none

-- `variablePatcher.lookup`: a local wins over a global.
abbrev pub lookup_variable : (globals locals : Fields) → Text → Option Value
lookup_variable globals locals name = elim (lookup_field name locals) [
  | some v ↦ some v
  | none ↦ lookup_field name globals
]

module _ (decimal_string : Decimal → Text) (globals locals : Fields) where
  abbrev with_default : Node → Option Node → Node
  with_default n none = n
  with_default n (some literal) = binary (codes "??") n literal

  abbrev default_of : Option Value → Option Node
  default_of none = none
  default_of (some v) = literal_node decimal_string v

  -- `variablePatcher.Visit`, over a walk: children first, and what is patched in is not walked.
  unfoldable mutual
    pub patch : Node → Node
    patch (identifier s) =
        with_default (identifier s) (default_of (lookup_variable globals locals s))
    patch (member n property method) = member (patch n) (patch property) method
    patch (call f args) = call (patch f) (patch_all args)
    patch (binary op l r) = binary op (patch l) (patch r)
    patch (branch ns) = branch (patch_all ns)
    patch n = n

    pub patch_all : Nodes → Nodes
    patch_all no_nodes = no_nodes
    patch_all (node_then n ns) = node_then (patch n) (patch_all ns)
