-- ===== src/Config/Fingerprint.antt =====
-- The fingerprint of a definition before and after its decimals are hydrated.
use rlng.Base.{ℕ, ◌+◌, ◌≡◌, refl, List, [], ◌∷◌, ◌++◌, arith}
use rlng.Base.Text.{Text, codes}
use rlng.Error.{ok, Cases, Result-Cases, ok_injective}
use rlng.Codec.{Wire}
use rlng.Foreach.{element_name}
use rlng.Config.{
  RuleDef, StageFields, StageDef, StageDefs, stage_def, no_more, stage_then, PipelineDef,
}
use rlng.Config.Decimals.{
  hydrate_decimals, hydrate_expr_globals, hydrate_optional, hydrate_exprs, hydrate_decisions,
  hydrate_rules, hydrate_fields, hydrate_globals, hydrate_stages, hydrate_constants,
}
use rlng.Config.Canonical.{
  canonicalize_rules, canonicalize_fields, canonicalize_stage, canonicalize_stages,
  canonical_definition,
}
use rlng.Config.Hydrated.{
  hydrate_decimals-canonical, hydrate_expr_globals-canonical, hydrate_optional-canonical,
  hydrate_decisions-canonical, hydrate_exprs-canonical,
}

module _ (w : Wire) where
  hydrate_rules-canonical :
      (stage : Text) (i : ℕ) (rs xs : List RuleDef)
      → hydrate_rules w stage i rs ≡ ok xs
      → canonicalize_rules w xs ≡ canonicalize_rules w rs
  unfolding hydrate_rules canonicalize_rules
  hydrate_rules-canonical stage i [] xs h = rw (← ok_injective h)
  hydrate_rules-canonical stage i (r ∷ rs) xs h =
      let name = element_name (codes "rules") i in
      elim (Result-Cases (hydrate_expr_globals w stage (name ++ codes ".condition") r.condition)) [
        | Cases.bad x failed ↦ ground arith
        | Cases.good c p ↦
            elim (Result-Cases
              (hydrate_decisions w stage (name ++ codes ".decisions") r.decisions)) [
                | Cases.bad x failed ↦ ground arith
                | Cases.good ds q ↦ elim (Result-Cases (hydrate_rules w stage (i + 1) rs)) [
                  | Cases.bad x failed ↦ ground arith
                  | Cases.good z k ↦ rw (← ok_injective (rw (p, q, k, hydrate_rules) at h)) (
                      rw (
                        canonicalize_rules,
                        hydrate_expr_globals-canonical w stage (name ++ codes ".condition")
                            r.condition c p,
                        hydrate_decisions-canonical w stage (name ++ codes ".decisions") r.decisions
                            ds q,
                        hydrate_rules-canonical stage (i + 1) rs z k,
                      ))
                ]
              ]
      ]

  hydrate_fields-canonical :
      (d x : StageFields)
      → hydrate_fields w d ≡ ok x
      → canonicalize_fields w x ≡ canonicalize_fields w d
  unfolding hydrate_fields canonicalize_fields
  hydrate_fields-canonical d x h =
      elim (Result-Cases (hydrate_optional w d.name (codes "expr") d.value)) [
        | Cases.bad e failed ↦ ground arith
        | Cases.good v p ↦
            elim (Result-Cases (hydrate_optional w d.name (codes "condition") d.condition)) [
              | Cases.bad e failed ↦ ground arith
              | Cases.good c q ↦ elim (Result-Cases (hydrate_exprs w d.name 0 d.exprs)) [
                | Cases.bad e failed ↦ ground arith
                | Cases.good es r ↦ elim (Result-Cases (hydrate_rules w d.name 0 d.rules)) [
                  | Cases.bad e failed ↦ ground arith
                  | Cases.good rs s ↦
                      elim (Result-Cases (hydrate_decisions w d.name (codes "default") d.default)) [
                        | Cases.bad e failed ↦ ground arith
                        | Cases.good ds t ↦ rw (← ok_injective (rw (p, q, r, s, t) at h)) (
                            rw (
                              hydrate_optional-canonical w d.name (codes "expr") d.value v p,
                              hydrate_optional-canonical w d.name (codes "condition") d.condition c
                                  q,
                              hydrate_exprs-canonical w d.name 0 d.exprs es r,
                              hydrate_rules-canonical d.name 0 d.rules rs s,
                              hydrate_decisions-canonical w d.name (codes "default") d.default ds t,
                            ))
                      ]
                ]
              ]
            ]
      ]

  mutual
    unfolding hydrate_stages canonicalize_stages

    hydrate_globals-canonical :
        (d x : StageDef)
        → hydrate_globals w d ≡ ok x
        → canonicalize_stage w x ≡ canonicalize_stage w d
    hydrate_globals-canonical (stage_def d inner) x h = elim (Result-Cases (hydrate_fields w d)) [
      | Cases.bad e failed ↦ ground arith
      | Cases.good y p ↦ elim (Result-Cases (hydrate_stages w inner)) [
        | Cases.bad e failed ↦ ground arith
        | Cases.good ys q ↦
            rw (← ok_injective (rw (p, q) at h))
              (rw (hydrate_fields-canonical d y p, hydrate_stages-canonical inner ys q))
      ]
    ]

    hydrate_stages-canonical :
        (ds xs : StageDefs)
        → hydrate_stages w ds ≡ ok xs
        → canonicalize_stages w xs ≡ canonicalize_stages w ds
    hydrate_stages-canonical no_more xs h = rw (← ok_injective h)
    hydrate_stages-canonical (stage_then d ds) xs h = elim (Result-Cases (hydrate_globals w d)) [
      | Cases.bad e failed ↦ ground arith
      | Cases.good y p ↦ elim (Result-Cases (hydrate_stages w ds)) [
        | Cases.bad e failed ↦ ground arith
        | Cases.good ys q ↦ rw (← ok_injective (rw (p, q, hydrate_stages) at h)) (
            rw (
              canonicalize_stages,
              hydrate_globals-canonical d y p,
              hydrate_stages-canonical ds ys q,
            ))
      ]
    ]

  -- Hydrating a definition leaves its schema, its version and its memo alone, and the form that is
  -- hashed.
  pub hydrate_constants-canonical :
      (d x : PipelineDef)
      → hydrate_constants w d ≡ ok x
      → (canonical_definition w x ≡ canonical_definition w d)
        × (x.hash_memo ≡ d.hash_memo)
        × (x.version ≡ d.version)
  unfolding hydrate_constants canonical_definition
  hydrate_constants-canonical d x h = elim (Result-Cases (hydrate_decimals w d.constants)) [
    | Cases.bad e failed ↦ ground arith
    | Cases.good m p ↦ elim (Result-Cases (hydrate_stages w d.stages)) [
      | Cases.bad e failed ↦ ground arith
      | Cases.good ds q ↦ rw (← ok_injective (rw (p, q) at h)) (
        rw (hydrate_decimals-canonical w d.constants m p, hydrate_stages-canonical d.stages ds q),
        refl,
        refl,
      )
    ]
  ]
