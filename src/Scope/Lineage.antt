-- ===== src/Scope/Lineage.antt =====
-- The readers of pipe/provenance.go: `Derivation`, `Lineage` and `Explain`; and `FiringRules` of
-- pipe/firing.go.
pub mod Distinct
pub mod Order
pub mod Found
use rlng.Base.{
  ℕ, zero, suc, ◌-◌, Bool, true, false, not, ◌&&◌, ◌||◌, Option, none, some, List, [], ◌∷◌, ◌++◌,
  ◌==◌, if◌then◌else◌, map,
}
use rlng.Base.Text.{Text, codes, text_eq, text_lt, is_empty}
use rlng.Base.Dict.{Dict, lookup}
use rlng.Value.{Value, Fields, end, field}
use rlng.Error.{StageType, single_expr, multi_expr, decision_table, foreach}
use rlng.Scope.{Scope, Derivation, Origin, seed, stage_type, FiringRule}

-- `Scope.Derivation`
unfoldable pub derivation_at : Text → Scope → Option Derivation
derivation_at path s = if s.provenance then lookup path s.derivations else none

unfoldable pub mem_path : Text → List Text → Bool
mem_path t [] = false
mem_path t (u ∷ us) = text_eq u t || mem_path t us

unfoldable pub starts_with : Text → Text → Bool
starts_with [] s = true
starts_with (c ∷ p) [] = false
starts_with (c ∷ p) (d ∷ s) = c == d && starts_with p s

unfoldable pub insert_by_path : Derivation → List Derivation → List Derivation
insert_by_path d [] = d ∷ []
insert_by_path d (e ∷ es) =
    let rest = insert_by_path d es in if text_lt e.path d.path then e ∷ rest else d ∷ e ∷ es

-- The entry of `lineageIndex` at a key: the derivations under its namespace, sorted by path.
unfoldable pub under_namespace : Dict Derivation → Text → List Derivation
under_namespace [] key = []
under_namespace ((p, d) ∷ ds) key =
    let rest = under_namespace ds key in
    if starts_with (key ++ codes ".") p then insert_by_path d rest else rest

abbrev pub or_else : {A : Type 0} → Option A → Option A → Option A
or_else none b = b
or_else (some a) b = some a

-- The recorded ancestor with the longest path; `read` is the part of the key before the cursor.
unfoldable pub nearest_ancestor :
    Dict Derivation → Text → Text → Option Derivation → Option Derivation
nearest_ancestor ds read [] best = best
nearest_ancestor ds read (c ∷ s) best =
    nearest_ancestor ds (read ++ (c ∷ [])) s
      (if c == b'.' && not (is_empty read) then or_else (lookup read ds) best else best)

abbrev pub to_list : {A : Type 0} → Option A → List A
to_list none = []
to_list (some a) = a ∷ []

abbrev pub unless_empty : List Derivation → List Derivation → List Derivation
unless_empty [] es = es
unless_empty (d ∷ ds) es = d ∷ ds

-- `derivationsFor`
unfoldable pub derivations_for : Dict Derivation → Text → List Derivation
derivations_for ds key = elim (lookup key ds) [
  | some d ↦ d ∷ []
  | none ↦ unless_empty (under_namespace ds key) (to_list (nearest_ancestor ds [] key none))
]

unfoldable pub insert_text : Text → List Text → List Text
insert_text k [] = k ∷ []
insert_text k (j ∷ ks) = let rest = insert_text k ks in if text_lt j k then j ∷ rest else k ∷ j ∷ ks

-- `sortedInputs`
unfoldable pub sorted_inputs : Fields → List Text
sorted_inputs end = []
sorted_inputs (field k v m) = insert_text k (sorted_inputs m)

-- The visited paths, and the derivations collected.
pub record Walk : Type 0 where
  pub visited : List Text
  pub out : List Derivation

abbrev pub enter : Text → Walk → Walk
enter path w = record w { visited = path ∷ w.visited }

abbrev pub append : Derivation → Walk → Walk
append d w = record w { out = w.out ++ (d ∷ []) }

module _ (go : Text → Walk → Walk) where
  unfoldable pub visit_inputs : List Text → Walk → Walk
  visit_inputs [] w = w
  visit_inputs (id ∷ ids) w = visit_inputs ids (go id w)

  abbrev pub visit_one : Derivation → Walk → Walk
  visit_one d w = append d (visit_inputs (sorted_inputs d.inputs) (enter d.path w))

  -- The loop of `collectLineage`.
  unfoldable pub visit_derivations : List Derivation → Walk → Walk
  visit_derivations [] w = w
  visit_derivations (d ∷ ds) w =
      visit_derivations ds (if mem_path d.path w.visited then w else visit_one d w)

-- `collectLineage`, with the number of levels left in place of the depth.
unfoldable pub collect_lineage : Dict Derivation → ℕ → Text → Walk → Walk
collect_lineage ds zero key w = w
collect_lineage ds (suc left) key w =
    visit_derivations (collect_lineage ds left) (derivations_for ds key) w

abbrev pub max_lineage_depth : ℕ
max_lineage_depth = 1000

abbrev pub no_walk : Walk
no_walk = record { visited = []; out = [] }

-- `Lineage`
unfoldable pub lineage : Text → Scope → List Derivation
lineage path s =
    if s.provenance then (collect_lineage s.derivations max_lineage_depth path no_walk).out else []

abbrev type_name : StageType → Text
type_name single_expr = codes "single-expr"
type_name multi_expr = codes "multi-expr"
type_name decision_table = codes "decision-table"
type_name foreach = codes "foreach"

unfoldable pub insert_stage :
    Text → List FiringRule → Dict (List FiringRule) → Dict (List FiringRule)
insert_stage k v [] = (k, v) ∷ []
insert_stage k v ((j, w) ∷ m) =
    let rest = insert_stage k v m in if text_lt j k then (j, w) ∷ rest else (k, v) ∷ (j, w) ∷ m

unfoldable pub sort_stages : Dict (List FiringRule) → Dict (List FiringRule)
sort_stages [] = []
sort_stages ((k, v) ∷ m) = insert_stage k v (sort_stages m)

abbrev flatten_rules : Dict (List FiringRule) → List FiringRule
flatten_rules [] = []
flatten_rules ((k, v) ∷ m) = v ++ flatten_rules m

-- `FiringRules`
unfoldable pub firing_rules : Scope → List FiringRule
firing_rules s = flatten_rules (sort_stages s.firing)

-- The lines of `Explain`; `show` is the `%v` of a value.
module _ (show : Value → Text) where
  abbrev indent : ℕ → Text
  indent zero = []
  indent (suc n) = codes "  " ++ indent n

  abbrev explain_line : ℕ → Derivation → Text
  explain_line depth d = elim d.origin [
    | seed ↦ indent depth ++ d.path ++ codes " = " ++ show d.value ++ codes " [seed]\n"
    | stage_type t ↦
        indent depth
        ++ d.path
        ++ codes " = "
        ++ show d.value
        ++ codes " ["
        ++ d.stage
        ++ codes " "
        ++ type_name t
        ++ codes "] expr: "
        ++ d.expression
        ++ codes "\n"
  ]

  -- The visited paths, and the text so far.
  pub record Telling : Type 0 where
    pub told : List Text
    pub text : Text

  abbrev write_text : Text → Telling → Telling
  write_text line t = record t { text = t.text ++ line }

  module _ (go : Text → Telling → Telling) where
    abbrev tell_inputs : List Text → Telling → Telling
    tell_inputs [] t = t
    tell_inputs (id ∷ ids) t = tell_inputs ids (go id t)

    abbrev tell_one : ℕ → Derivation → Telling → Telling
    tell_one depth d t =
        let t' = write_text (explain_line depth d) t in
        if mem_path d.path t.told
        then t'
        else tell_inputs (sorted_inputs d.inputs) (record t' { told = d.path ∷ t.told })

    -- The loop of `explain`.
    abbrev tell_derivations : ℕ → List Derivation → Telling → Telling
    tell_derivations depth [] t = t
    tell_derivations depth (d ∷ ds) t = tell_derivations depth ds (tell_one depth d t)

  -- `explain`, with the number of levels left besides the depth.
  unfoldable pub explain_from : Dict Derivation → ℕ → ℕ → Text → Telling → Telling
  explain_from ds zero depth key t =
      write_text (indent depth ++ codes "… (truncated: max lineage depth 1000 reached)\n") t
  explain_from ds (suc left) depth key t =
      tell_derivations (explain_from ds left (suc depth)) depth (derivations_for ds key) t

  -- `Explain`
  unfoldable pub explain : Text → Scope → Text
  explain path s =
      if s.provenance
      then (explain_from s.derivations max_lineage_depth 0 path
          (record { told = []; text = [] })).text
      else []
