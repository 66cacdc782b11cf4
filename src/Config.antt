-- ===== src/Config.antt =====
-- config/: the definition of a pipeline as a document gives it. A nil map or list and an empty one
-- are not told apart.
pub mod Decimals
pub mod Canonical
pub mod Hydrated
pub mod Fingerprint
pub mod Lint
pub mod Covered
pub mod Chains
pub mod Setup
pub mod Stages
pub mod Build
pub mod Constructed
pub mod Headers
pub mod Steps
pub mod Built
pub mod Sources
pub mod Shorthand
pub mod Urls
pub mod Parse
pub mod Fetched
pub mod Handles
pub mod Attributed
use rlng.Base.{Bool, true, false, Option, none, some, List, [], ◌∷◌, ◌++◌, if◌then◌else◌}
use rlng.Base.Int.{ℤ}
use rlng.Base.Text.{Text, codes, is_empty}
use rlng.Base.Dict.{Dict}
use rlng.Value.{Fields, end, field}
use rlng.Expr.Options.{ExprOption, with_fallback, with_globals, with_coerce}

pub record ExprDef : Type 0 where
  pub expression : Text
  pub fallback : Text
  pub globals : Fields
  pub coerce : Bool

pub record NamedExprDef : Type 0 where
  pub name : Text
  pub priority : ℤ
  pub definition : ExprDef

pub record RuleDef : Type 0 where
  pub id : Text
  pub message : Text
  pub condition : ExprDef
  pub decisions : Dict ExprDef

pub record RollupDef : Type 0 where
  pub key : Text
  pub agg : Text
  pub out : Text

-- The fields of a `StageDef` but for its inner stages.
pub record StageFields : Type 0 where
  pub name : Text
  pub kind : Text
  pub depends_on : List Text
  pub value : Option ExprDef
  pub condition : Option ExprDef
  pub output : Text
  pub exprs : List NamedExprDef
  pub hit_policy : Text
  pub aggregation : Text
  pub rules : List RuleDef
  pub default : Dict ExprDef
  pub collection : Text
  pub binding : Text
  pub rollups : List RollupDef

mutual
  pub data StageDef : Type 0 where
    stage_def : StageFields → StageDefs → StageDef

  pub data StageDefs : Type 0 where
    no_more : StageDefs
    stage_then : StageDef → StageDefs → StageDefs

pub record PipelineDef : Type 0 where
  pub constants : Fields
  pub mapping : Dict Text
  pub stages : StageDefs
  pub schema : Fields
  pub version : Text
  pub hash_memo : Option Text

abbrev pub has_any : Fields → Bool
has_any end = false
has_any (field k v m) = true

abbrev fallback_option : Text → List ExprOption
fallback_option [] = []
fallback_option (c ∷ s) = with_fallback (c ∷ s) ∷ []

abbrev globals_option : Fields → List ExprOption
globals_option m = if has_any m then with_globals m ∷ [] else []

-- `ExprDef.options`
abbrev pub options : ExprDef → List ExprOption
options ed =
    fallback_option ed.fallback
    ++ globals_option ed.globals
    ++ (if ed.coerce then with_coerce ∷ [] else [])
