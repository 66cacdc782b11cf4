-- ===== src/Config/Decimals.antt =====
-- config/decimal.go: the objects of the sole key `$dec` become decimals, in the constants and in the
-- globals of every expression. The maps of a Go definition are changed in place; here a new
-- definition is returned.
use rlng.Base.{ℕ, ◌+◌, Option, none, some, List, [], ◌∷◌, ◌++◌, if◌then◌else◌}
use rlng.Base.Text.{Text, codes, text_eq}
use rlng.Base.Dict.{Dict}
use rlng.Value.{Value, str, dec, list, obj, Items, nil, cons, Fields, end, field}
use rlng.Error.{config_error, decimal_literal, Result, ok, err, bind, map_err}
use rlng.Codec.{Wire}
use rlng.Foreach.{element_name}
use rlng.Config.{
  ExprDef, NamedExprDef, RuleDef, StageFields, StageDef, StageDefs, stage_def, no_more, stage_then,
  PipelineDef,
}

-- What the reserved key holds, of an object that has no other.
unfoldable pub literal_of : Fields → Option Value
literal_of (field k v end) = if text_eq k (codes "$dec") then some v else none
literal_of m = none

module _ (w : Wire) where
  abbrev pub parse_literal : Value → Result Value
  parse_literal (str s) = elim (w.parse_decimal s) [
    | none ↦ err decimal_literal
    | some d ↦ ok (dec d)
  ]
  parse_literal v = err decimal_literal

  abbrev pub hydrate_object : Option Value → Result Fields → Result Value
  hydrate_object (some raw) rest = parse_literal raw
  hydrate_object none rest = bind rest (λ m. ok (obj m))

  unfoldable mutual
    -- `hydrateValue`
    pub hydrate_value : Value → Result Value
    hydrate_value (obj m) = hydrate_object (literal_of m) (hydrate_decimals m)
    hydrate_value (list xs) = bind (hydrate_items xs) (λ ys. ok (list ys))
    hydrate_value v = ok v

    pub hydrate_items : Items → Result Items
    hydrate_items nil = ok nil
    hydrate_items (cons v vs) =
        bind (hydrate_value v) (λ x. bind (hydrate_items vs) (λ xs. ok (cons x xs)))

    -- `hydrateDecimals`
    pub hydrate_decimals : Fields → Result Fields
    hydrate_decimals end = ok end
    hydrate_decimals (field k v m) =
        bind (hydrate_value v) (λ x. bind (hydrate_decimals m) (λ n. ok (field k x n)))

  -- `hydrateExprGlobals`
  unfoldable pub hydrate_expr_globals : (stage name : Text) → ExprDef → Result ExprDef
  hydrate_expr_globals stage name ed =
      bind (map_err (config_error stage (name ++ codes ".globals")) (hydrate_decimals ed.globals))
        (λ globals. ok (record ed { globals = globals }))

  abbrev pub hydrate_optional : (stage name : Text) → Option ExprDef → Result (Option ExprDef)
  hydrate_optional stage name none = ok none
  hydrate_optional stage name (some ed) =
      bind (hydrate_expr_globals stage name ed) (λ x. ok (some x))

  unfoldable pub hydrate_exprs : Text → ℕ → List NamedExprDef → Result (List NamedExprDef)
  hydrate_exprs stage i [] = ok []
  hydrate_exprs stage i (e ∷ es) =
      bind
        (hydrate_expr_globals stage (element_name (codes "exprs") i ++ codes ".expr") e.definition)
        (λ x. bind (hydrate_exprs stage (i + 1) es) (λ xs. ok (record e { definition = x } ∷ xs)))

  unfoldable pub hydrate_decisions : (stage prefix : Text) → Dict ExprDef → Result (Dict ExprDef)
  hydrate_decisions stage prefix [] = ok []
  hydrate_decisions stage prefix ((key, ed) ∷ m) =
      bind (hydrate_expr_globals stage (prefix ++ codes "." ++ key) ed)
        (λ x. bind (hydrate_decisions stage prefix m) (λ n. ok ((key, x) ∷ n)))

  unfoldable pub hydrate_rules : Text → ℕ → List RuleDef → Result (List RuleDef)
  hydrate_rules stage i [] = ok []
  hydrate_rules stage i (r ∷ rs) =
      let name = element_name (codes "rules") i in
      bind (hydrate_expr_globals stage (name ++ codes ".condition") r.condition) (λ c.
        bind (hydrate_decisions stage (name ++ codes ".decisions") r.decisions) (λ ds.
          bind (hydrate_rules stage (i + 1) rs)
            (λ xs. ok (record r { condition = c; decisions = ds } ∷ xs))))

  unfoldable pub hydrate_fields : StageFields → Result StageFields
  hydrate_fields d = bind (hydrate_optional d.name (codes "expr") d.value) (λ value.
      bind (hydrate_optional d.name (codes "condition") d.condition) (λ condition.
        bind (hydrate_exprs d.name 0 d.exprs) (λ exprs.
          bind (hydrate_rules d.name 0 d.rules) (λ rules.
            bind (hydrate_decisions d.name (codes "default") d.default) (λ default. ok (record d {
              value = value;
              condition = condition;
              exprs = exprs;
              rules = rules;
              default = default;
            }))))))

  unfoldable mutual
    -- `hydrateGlobals`
    pub hydrate_globals : StageDef → Result StageDef
    hydrate_globals (stage_def d inner) =
        bind (hydrate_fields d) (λ e. bind (hydrate_stages inner) (λ xs. ok (stage_def e xs)))

    pub hydrate_stages : StageDefs → Result StageDefs
    hydrate_stages no_more = ok no_more
    hydrate_stages (stage_then sd sds) =
        bind (hydrate_globals sd) (λ x. bind (hydrate_stages sds) (λ xs. ok (stage_then x xs)))

  -- `hydrateConstants`
  unfoldable pub hydrate_constants : PipelineDef → Result PipelineDef
  hydrate_constants d =
      bind (map_err (config_error [] (codes "constants")) (hydrate_decimals d.constants))
        (λ constants.
          bind (hydrate_stages d.stages)
            (λ stages. ok (record d { constants = constants; stages = stages })))
