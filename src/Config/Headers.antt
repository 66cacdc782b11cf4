-- ===== src/Config/Headers.antt =====
-- The stage that a constructor of config/build.go returns has the name, the type and the
-- dependencies that its definition gives.
use rlng.Base.{
  ◌≡◌, refl, Bool, true, false, Option, none, some, List, [], ◌∷◌, arith, inl, inr, Bool-cases, map,
}
use rlng.Base.Text.{Text, codes, text_eq, text_eq_iff}
use rlng.Value.{Arith}
use rlng.Error.{
  single_expr, multi_expr, decision_table, foreach, StageType, Result, ok, err, Cases, Result-Cases,
  ok_injective,
}
use rlng.Expr.Options.{Compiler}
use rlng.Stage.{Stage}
use rlng.Single.{new_single_expr}
use rlng.Multi.{new_multi_expr}
use rlng.Table.Compile.{TableConfig, new_decision_table}
use rlng.Foreach.{new_for_each}
use rlng.Pipeline.Build.{new_pipeline}
use rlng.Config.Constructed.{
  new_single_expr_parts, new_multi_expr_parts, new_decision_table_parts, new_for_each_parts,
}
use rlng.Config.{
  ExprDef, NamedExprDef, RuleDef, StageFields, StageDef, StageDefs, stage_def, no_more, stage_then,
}
use rlng.Config.Setup.{Setup, parse_hit_policy, parse_aggregation, parse_rollups, for_each_options}
use rlng.Config.Stages.{
  single_setup, named_exprs, decisions_from, rules_from, build_single, build_multi, build_table,
  build_for_each, build_stage, build_stages,
}

-- The constants of pipe/stage.go.
abbrev pub type_text : StageType → Text
type_text single_expr = codes "single-expr"
type_text multi_expr = codes "multi-expr"
type_text decision_table = codes "decision-table"
type_text foreach = codes "foreach"

-- Name, type and dependencies.
abbrev pub Header : Type 0
Header = Text × Text × List Text

abbrev pub header : Stage → Header
header s = (s.name, type_text s.kind, s.depends_on)

abbrev pub stage_header : StageDef → Header
stage_header (stage_def d inner) = (d.name, d.kind, d.depends_on)

unfoldable pub headers : StageDefs → List Header
headers no_more = []
headers (stage_then sd sds) = stage_header sd ∷ headers sds

module _ (ops : Arith) (compiler : Compiler) (schedule : List Stage → List Stage) where
  build_single-header :
      (u : Setup) (d : StageFields) (value : Option ExprDef) (s : Stage)
      → build_single ops compiler schedule u d value ≡ ok s
      → header s ≡ (d.name, type_text single_expr, d.depends_on)
  unfolding build_single
  build_single-header u d none s h = ground arith
  build_single-header u d (some ed) s h =
      elim (Result-Cases
        (new_single_expr d.name ed.expression (single_setup ops compiler schedule u d ed))) [
          | Cases.bad e failed ↦ ground arith
          | Cases.good r p ↦
              let (name, deps) =
                new_single_expr_parts d.name ed.expression
                  (single_setup ops compiler schedule u d ed) r p in
              rw (← ok_injective (rw p at h)) (rw (name, deps) refl)
        ]

  build_multi-header :
      (u : Setup) (d : StageFields) (exprs : List NamedExprDef) (s : Stage)
      → build_multi ops compiler schedule u d exprs ≡ ok s
      → header s ≡ (d.name, type_text multi_expr, d.depends_on)
  unfolding build_multi
  build_multi-header u d [] s h = ground arith
  build_multi-header u d (e ∷ es) s h =
      let named = named_exprs ops compiler schedule u (e ∷ es) in
      elim (Result-Cases (new_multi_expr d.name named d.depends_on)) [
        | Cases.bad x failed ↦ ground arith
        | Cases.good r p ↦
            let (name, deps) = new_multi_expr_parts d.name named d.depends_on r p in
            rw (← ok_injective (rw p at h)) (rw (name, deps) refl)
      ]

  build_table-header :
      (u : Setup) (d : StageFields) (rules : List RuleDef) (s : Stage)
      → build_table ops compiler schedule u d rules ≡ ok s
      → header s ≡ (d.name, type_text decision_table, d.depends_on)
  unfolding build_table
  build_table-header u d [] s h = ground arith
  build_table-header u d (r ∷ rs) s h = elim (Result-Cases (parse_hit_policy d.hit_policy)) [
    | Cases.bad x failed ↦ ground arith
    | Cases.good hp p ↦ elim (Result-Cases (parse_aggregation d.aggregation)) [
      | Cases.bad x failed ↦ ground arith
      | Cases.good agg q ↦
          let rules = rules_from ops compiler schedule u (r ∷ rs) in
          let cfg : TableConfig = record {
            deps = d.depends_on;
            hit_policy = hp;
            aggregation = agg;
            defaults = decisions_from ops compiler schedule u d.default;
          } in
          elim (Result-Cases (new_decision_table d.name rules cfg)) [
            | Cases.bad x failed ↦ ground arith
            | Cases.good t k ↦
                let (name, deps) = new_decision_table_parts d.name rules cfg t k in
                rw (← ok_injective (rw (p, q, k) at h)) (rw (name, deps) refl)
          ]
    ]
  ]

  build_for_each-header :
      (d : StageFields) (some_inner : Bool) (inner : Result (List Stage)) (s : Stage)
      → build_for_each ops compiler schedule d some_inner inner ≡ ok s
      → header s ≡ (d.name, type_text foreach, d.depends_on)
  unfolding build_for_each
  build_for_each-header d false inner s h = ground arith
  build_for_each-header d true (err e) s h = ground arith
  build_for_each-header d true (ok stages) s h = elim (Result-Cases (new_pipeline stages [])) [
    | Cases.bad x failed ↦ ground arith
    | Cases.good p built ↦ elim (Result-Cases (parse_rollups d.name d.rollups)) [
      | Cases.bad x failed ↦ ground arith
      | Cases.good rollups parsed ↦
          elim (Result-Cases (new_for_each d.name d.collection p (for_each_options d rollups))) [
            | Cases.bad x failed ↦ ground arith
            | Cases.good f made ↦
                let (name, deps) = new_for_each_parts d.name d.collection p d rollups f made in
                rw (← ok_injective (rw (built, parsed, made) at h)) (rw (name, deps) refl)
          ]
    ]
  ]

  typed :
      (d : StageFields) (k : Text) (s : Stage)
      → text_eq d.kind k ≡ true
      → header s ≡ (d.name, k, d.depends_on)
      → header s ≡ (d.name, d.kind, d.depends_on)
  typed d k s e h = rw ((text_eq_iff d.kind k).0 e) h

  build_stage-header :
      (u : Setup) (sd : StageDef) (s : Stage)
      → build_stage ops compiler schedule u sd ≡ ok s
      → header s ≡ stage_header sd
  unfolding build_stage
  build_stage-header u (stage_def d inner) s h =
      elim (Bool-cases (text_eq d.kind (codes "single-expr"))) [
        | inl is_single ↦
            typed d (codes "single-expr") s is_single
              (build_single-header u d d.value s (rw is_single at h))
        | inr not_single ↦ elim (Bool-cases (text_eq d.kind (codes "multi-expr"))) [
          | inl is_multi ↦
              typed d (codes "multi-expr") s is_multi
                (build_multi-header u d d.exprs s (rw (not_single, is_multi) at h))
          | inr not_multi ↦ elim (Bool-cases (text_eq d.kind (codes "decision-table"))) [
            | inl is_table ↦
                typed d (codes "decision-table") s is_table
                  (build_table-header u d d.rules s (rw (not_single, not_multi, is_table) at h))
            | inr not_table ↦ elim (Bool-cases (text_eq d.kind (codes "foreach"))) [
              | inl is_foreach ↦ typed d (codes "foreach") s is_foreach (
                  build_for_each-header d _ (build_stages ops compiler schedule u inner) s
                    (rw (not_single, not_multi, not_table, is_foreach) at h))
              | inr not_foreach ↦ ground arith
            ]
          ]
        ]
      ]

  pub build_stages-headers :
      (u : Setup) (sds : StageDefs) (ss : List Stage)
      → build_stages ops compiler schedule u sds ≡ ok ss
      → map header ss ≡ headers sds
  unfolding build_stages headers
  build_stages-headers u no_more ss h = rw (← ok_injective h)
  build_stages-headers u (stage_then sd sds) ss h =
      elim (Result-Cases (build_stage ops compiler schedule u sd)) [
        | Cases.bad x failed ↦ ground arith
        | Cases.good s p ↦ elim (Result-Cases (build_stages ops compiler schedule u sds)) [
          | Cases.bad x failed ↦ ground arith
          | Cases.good rest q ↦
              rw (← ok_injective (rw (p, q, build_stages) at h))
                (rw (headers, ← build_stage-header u sd s p, ← build_stages-headers u sds rest q))
        ]
      ]
