-- ===== src/Config/Canonical.antt =====
-- config/hash.go: the fingerprint of a definition, over a form that does not depend on whether its
-- decimals have been hydrated. json.Marshal and SHA-256 are parameters.
use rlng.Base.{Bool, Option, none, some, List, [], ◌∷◌}
use rlng.Base.Text.{Text, codes, text_eq}
use rlng.Base.Dict.{Dict}
use rlng.Value.{Value, str, dec, list, obj, Items, nil, cons, Fields, end, field, Decimal}
use rlng.Error.{Result, ok, err, bind}
use rlng.Codec.{Wire}
use rlng.Scope.{RulesetIdentity}
use rlng.Config.{
  ExprDef, NamedExprDef, RuleDef, StageFields, StageDef, StageDefs, stage_def, no_more, stage_then,
  PipelineDef,
}
use rlng.Config.Decimals.{literal_of}

pub record Digest : Type 0 where
  pub marshal : PipelineDef → Result Text
  pub sha256 : Text → Text

module _ (w : Wire) where
  abbrev pub literal : Decimal → Value
  literal d = obj (field (codes "$dec") (str (w.decimal_string d)) end)

  -- A malformed literal is left as it is.
  abbrev pub canonical_literal : Fields → Value → Value
  canonical_literal m (str s) = elim (w.parse_decimal s) [ none ↦ obj m | some d ↦ literal d ]
  canonical_literal m v = obj m

  abbrev pub canonical_object : Fields → Option Value → Fields → Value
  canonical_object m (some raw) rest = canonical_literal m raw
  canonical_object m none rest = obj rest

  unfoldable mutual
    -- `canonicalizeValue`
    pub canonicalize_value : Value → Value
    canonicalize_value (dec d) = literal d
    canonicalize_value (obj m) = canonical_object m (literal_of m) (canonicalize_map m)
    canonicalize_value (list xs) = list (canonicalize_items xs)
    canonicalize_value v = v

    pub canonicalize_items : Items → Items
    canonicalize_items nil = nil
    canonicalize_items (cons v vs) = cons (canonicalize_value v) (canonicalize_items vs)

    -- `canonicalizeMap`
    pub canonicalize_map : Fields → Fields
    canonicalize_map end = end
    canonicalize_map (field k v m) = field k (canonicalize_value v) (canonicalize_map m)

  -- `canonicalizeExprDef`
  unfoldable pub canonicalize_expr_def : ExprDef → ExprDef
  canonicalize_expr_def ed = record ed { globals = canonicalize_map ed.globals }

  -- `canonicalizeExprDefPtr`
  abbrev pub canonicalize_expr_def_ptr : Option ExprDef → Option ExprDef
  canonicalize_expr_def_ptr none = none
  canonicalize_expr_def_ptr (some ed) = some (canonicalize_expr_def ed)

  unfoldable pub canonicalize_exprs : List NamedExprDef → List NamedExprDef
  canonicalize_exprs [] = []
  canonicalize_exprs (e ∷ es) =
      record e { definition = canonicalize_expr_def e.definition } ∷ canonicalize_exprs es

  -- `canonicalizeDecisions`
  unfoldable pub canonicalize_decisions : Dict ExprDef → Dict ExprDef
  canonicalize_decisions [] = []
  canonicalize_decisions ((k, ed) ∷ m) = (k, canonicalize_expr_def ed) ∷ canonicalize_decisions m

  unfoldable pub canonicalize_rules : List RuleDef → List RuleDef
  canonicalize_rules [] = []
  canonicalize_rules (r ∷ rs) =
      record r {
        condition = canonicalize_expr_def r.condition;
        decisions = canonicalize_decisions r.decisions;
      }
      ∷ canonicalize_rules rs

  unfoldable pub canonicalize_fields : StageFields → StageFields
  canonicalize_fields d = record d {
    value = canonicalize_expr_def_ptr d.value;
    condition = canonicalize_expr_def_ptr d.condition;
    exprs = canonicalize_exprs d.exprs;
    rules = canonicalize_rules d.rules;
    default = canonicalize_decisions d.default;
  }

  unfoldable mutual
    pub canonicalize_stage : StageDef → StageDef
    canonicalize_stage (stage_def d inner) =
        stage_def (canonicalize_fields d) (canonicalize_stages inner)

    -- `canonicalizeStages`
    pub canonicalize_stages : StageDefs → StageDefs
    canonicalize_stages no_more = no_more
    canonicalize_stages (stage_then sd sds) =
        stage_then (canonicalize_stage sd) (canonicalize_stages sds)

  -- The definition that `canonicalJSON` marshals; json.Marshal does not see the memo.
  unfoldable pub canonical_definition : PipelineDef → PipelineDef
  canonical_definition d = record {
    constants = canonicalize_map d.constants;
    mapping = d.mapping;
    stages = canonicalize_stages d.stages;
    schema = canonicalize_map d.schema;
    version = [];
    hash_memo = none;
  }

  module _ (digest : Digest) where
    -- `hashCanonical`
    unfoldable pub hash_canonical : PipelineDef → Result Text
    hash_canonical d = bind (digest.marshal (canonical_definition d)) (λ b. ok (digest.sha256 b))

    abbrev pub hash_or_placeholder : Result Text → Text
    hash_or_placeholder (ok h) = h
    hash_or_placeholder (err e) = digest.sha256 (codes "{}")

    abbrev pub memo_or_hash : PipelineDef → Option Text → Text
    memo_or_hash d (some h) = h
    memo_or_hash d none = hash_or_placeholder (hash_canonical d)

    -- `Hash`
    unfoldable pub hash : PipelineDef → Text
    hash d = memo_or_hash d d.hash_memo

    -- `MatchesRuleset`
    unfoldable pub matches_ruleset : PipelineDef → RulesetIdentity → Bool
    matches_ruleset d id = text_eq (hash d) id.hash
