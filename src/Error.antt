-- ===== src/Error.antt =====
-- The errors of pipe/, expr/, config/ and errors.go as values. A constructor is the sentinel or the error struct, with
-- what `fmt.Errorf` wraps into it; `panic` is a run-time panic, `outside` an error of other code.
use rlng.Base.{ℕ, ◌≡◌, refl, Option, none, some, List, ⊤}
use rlng.Base.Int.{ℤ}
use rlng.Base.Text.{Text}
use rlng.Value.{Value, Decimal}

pub data StageType : Type 0 where
  single_expr multi_expr decision_table foreach : StageType

-- `Finding` of config/lint.go; `rule` is none in place of -1.
pub data LintCode : Type 0 where
  unreachable_rule missing_default : LintCode

pub record Finding : Type 0 where
  pub stage : Text
  pub rule : Option ℕ
  pub code : LintCode

pub data Error : Type 0 where
  cancelled panic out_of_fuel : Error
  not_numeric_kind : Error
  uint_overflow : ℕ → Error
  path_conflict path_not_map empty_path empty_path_segment : Error
  vm_error : Text → Error
  not_bool : Value → Error
  joined : Error → Error → Error
  empty_expression : Error
  compile_error eval_error : (name expression : Text) → Error → Error
  empty_stage_name no_rules : Error
  empty_output_key : Option ℕ → Error
  no_decisions : ℕ → Error
  rule_condition : ℕ → Error → Error
  decision : Option ℕ → Text → Error → Error
  no_expressions empty_expression_name : Error
  duplicate_expression : Text → Error
  multiple_matches : ℕ → Error
  conflicting_matches : Text → Value → Value → Error
  non_numeric_aggregate : Value → Error
  aggregate_overflow : Error
  non_finite_aggregate : Value → Error
  foreach_not_list foreach_no_collection foreach_empty_rollup foreach_no_path : Error
  element : ℕ → Error → Error
  stage_error : Text → StageType → Error → Error
  duplicate_stage : Text → Error
  unknown_dependency : Text → Text → Error
  cycle_error : List Text → Error
  invalid_max_parallel : ℤ → Error
  malformed_scope_value scope_value_too_deep json_error : Error
  path_not_found : Error
  scope_type_error : (path expected : Text) → Error
  config_error : (stage name : Text) → Error → Error
  no_stages schema_required decimal_literal unhashable_def : Error
  missing_part : Text → Error
  unknown_stage_type unknown_hit_policy unknown_aggregation : Text → Error
  foreach_as_collision : (stage binding enclosing : Text) → Error
  lint_error : List Finding → Error
  mapping_error : Text → Error → Error
  output_conflict : Text → Error
  empty_mapping_key nil_input nil_pipeline nil_mapper concurrency_requires_config : Error
  lossy_narrowing : Decimal → Error
  end_of_file : Error
  outside : Text → Error
  nil_source : Error
  unsupported_extension unsupported_scheme unknown_source_kind : Text → Error
  unexpected_status max_bytes_exceeded : ℤ → Error
  unknown_field : Text → Error
  unexpected_node env_too_deep env_not_struct unsupported_decimal : Error

pub data Result {ℓ} (A : Type ℓ) : Type ℓ where
  ok : A → Result A
  err : Error → Result A

abbrev pub of_error : Option Error → Result ⊤
of_error none = ok tt
of_error (some e) = err e

module _ {ℓ κ} {A : Type ℓ} {B : Type κ} where
  abbrev pub bind : Result A → (A → Result B) → Result B
  bind (ok a) f = f a
  bind (err e) f = err e

-- A split of a result that keeps the equation.
pub data Cases {ℓ} {A : Type ℓ} (r : Result A) : Type ℓ where
  good : (a : A) → r ≡ ok a → Cases r
  bad : (e : Error) → r ≡ err e → Cases r

module _ {ℓ} {A : Type ℓ} where
  -- What a caller does to an error on its way up.
  abbrev pub map_err : (Error → Error) → Result A → Result A
  map_err f (ok a) = ok a
  map_err f (err e) = err (f e)

  pub Result-Cases : (r : Result A) → Cases r
  Result-Cases (ok a) = Cases.good a refl
  Result-Cases (err e) = Cases.bad e refl

pub ok_injective : {A : Type 0} {a b : A} → ok a ≡ ok b → a ≡ b
ok_injective h = cc
