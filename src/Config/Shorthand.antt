-- ===== src/Config/Shorthand.antt =====
-- config/expr_def.go: an expression as a document writes it, a scalar or a mapping. What the
-- decoders make of a node or of the bytes is a parameter.
use rlng.Base.{
  ℕ, ◌≡◌, refl, Bool, true, false, ◌||◌, Option, none, some, List, [], ◌∷◌, ◌==◌, arith,
  if◌then◌else◌,
}
use rlng.Base.Text.{Text, codes, text_eq}
use rlng.Value.{end}
use rlng.Error.{config_error, unknown_field, unexpected_node, Result, ok, err}
use rlng.Config.{ExprDef}

-- A yaml.Node by its kind: a scalar's text, the texts of a mapping's keys and values in turn with
-- what `Decode` makes of the node, or another kind.
pub data YamlNode : Type 0 where
  scalar : Text → YamlNode
  mapping : List Text → Result ExprDef → YamlNode
  other_node : YamlNode

-- `knownExprDefFields`
unfoldable pub is_known_field : Text → Bool
is_known_field k =
    text_eq k (codes "expr")
    || text_eq k (codes "fallback")
    || text_eq k (codes "globals")
    || text_eq k (codes "coerce")

-- The first key that is not known, in the content of a mapping.
unfoldable pub unknown_key : List Text → Option Text
unknown_key [] = none
unknown_key (k ∷ []) = if is_known_field k then none else some k
unknown_key (k ∷ v ∷ content) =
    let rest = unknown_key content in if is_known_field k then rest else some k

abbrev pub in_expr : Text → Result ExprDef
in_expr k = err (config_error [] (codes "expr") (unknown_field k))

-- `ExprDef.UnmarshalYAML`, into the definition that is there.
unfoldable pub unmarshal_node : YamlNode → ExprDef → Result ExprDef
unmarshal_node (scalar s) def = ok (record def { expression = s })
unmarshal_node (mapping content whole) def = elim (unknown_key content) [
  | some k ↦ in_expr k
  | none ↦ whole
]
unmarshal_node other_node def = err (config_error [] (codes "expr") unexpected_node)

abbrev is_space : ℕ → Bool
is_space c = c == 32 || c == 9 || c == 10 || c == 13

-- `bytes.TrimSpace` and the first byte; JSON has no other white space.
unfoldable pub is_quoted : List ℕ → Bool
is_quoted [] = false
is_quoted (c ∷ s) = let rest = is_quoted s in if is_space c then rest else c == 34

-- The first key that is not known, in the order in which the map is walked.
unfoldable pub unknown_name : List Text → Option Text
unknown_name [] = none
unknown_name (k ∷ ks) = let rest = unknown_name ks in if is_known_field k then rest else some k

-- encoding/json on the bytes: the text of a string, the keys of an object, a whole definition.
pub record JsonDecoder : Type 0 where
  pub string_of : List ℕ → Result Text
  pub keys_of : List ℕ → Option (List Text)
  pub definition : List ℕ → Result ExprDef

abbrev with_expression : ExprDef → Result Text → Result ExprDef
with_expression def (ok s) = ok (record def { expression = s })
with_expression def (err e) = err e

abbrev probed : Option (List Text) → Result ExprDef → Result ExprDef
probed none whole = whole
probed (some names) whole = elim (unknown_name names) [ some k ↦ in_expr k | none ↦ whole ]

-- `ExprDef.UnmarshalJSON`
unfoldable pub unmarshal_bytes : JsonDecoder → List ℕ → ExprDef → Result ExprDef
unmarshal_bytes d content def =
    if is_quoted content
    then with_expression def (d.string_of content)
    else probed (d.keys_of content) (d.definition content)

abbrev plain : Text → ExprDef
plain s = record { expression = s; fallback = []; globals = end; coerce = false }

-- A scalar of YAML and a quoted string of JSON that has the same text give the same definition,
-- with the expression alone.
pub unmarshal_node-eq-bytes :
    (d : JsonDecoder) (s : Text) (content : List ℕ)
    → is_quoted content ≡ true
    → d.string_of content ≡ ok s
    → (unmarshal_node (scalar s) (plain []) ≡ ok (plain s))
      × (unmarshal_bytes d content (plain []) ≡ ok (plain s))
unfolding unmarshal_node unmarshal_bytes
unmarshal_node-eq-bytes d s content q e = (refl, ground arith)
