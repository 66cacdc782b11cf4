-- ===== src/Scope.antt =====
-- pipe/scope.go, and the parts of a Scope that pipe/provenance.go, pipe/firing.go and
-- pipe/ruleset.go add. Locks and the clock are left out.
pub mod Path
pub mod Action
pub mod Segments
pub mod Roundtrip
pub mod Frame
pub mod Lineage
pub mod Local
use rlng.Base.{
  ℕ, ◌+◌, Bool, true, false, Option, none, some, List, [], ◌∷◌, ⊤, leb, if◌then◌else◌, ◌≡◌,
}
use rlng.Base.Text.{Text, is_empty, codes}
use rlng.Base.Dict.{Dict, insert}
use rlng.Value.{Value, obj, Fields, end, field}
use rlng.Value.Access.{lookup_field}
use rlng.Error.{StageType, Error, Result, ok, err}

-- Which stage type produced a value; `seed` for an input.
pub data Origin : Type 0 where
  seed : Origin
  stage_type : StageType → Origin

pub record Derivation : Type 0 where
  pub path : Text
  pub stage : Text
  pub origin : Origin
  pub operation : Text
  pub expression : Text
  pub inputs : Fields
  pub value : Value

pub record FiringRule : Type 0 where
  pub stage : Text
  pub rule_id : Text
  pub message : Text
  pub is_default : Bool

pub record RulesetIdentity : Type 0 where
  pub hash : Text
  pub version : Text

-- `stage_order` is the recorded run order of the stages; their durations are left out.
pub record Scope : Type 0 where
  pub store : Fields
  pub strict : Bool
  pub provenance : Bool
  pub derivations : Dict Derivation
  pub firing : Dict (List FiringRule)
  pub identity : RulesetIdentity
  pub concurrent : Bool
  pub stage_order : List Text

abbrev pub max_clone_depth : ℕ
max_clone_depth = 1000

-- `cloneValue`; as values the copy and the original do not differ.
unfoldable mutual
  pub clone_value : Value → ℕ → Value
  clone_value (obj m) depth =
      if leb max_clone_depth depth then obj m else obj (clone_fields m (depth + 1))
  clone_value v depth = v

  pub clone_fields : Fields → ℕ → Fields
  clone_fields end depth = end
  clone_fields (field k v m) depth = field k (clone_value v depth) (clone_fields m depth)

pub data ScopeOption : Type 0 where
  with_strict with_provenance : ScopeOption

abbrev pub no_ruleset : RulesetIdentity
no_ruleset = record { hash = []; version = [] }

abbrev pub blank_scope : Scope
blank_scope = record {
  store = end;
  strict = false;
  provenance = false;
  derivations = [];
  firing = [];
  identity = no_ruleset;
  concurrent = false;
  stage_order = [];
}

abbrev pub apply_option : ScopeOption → Scope → Scope
apply_option with_strict s = record s { strict = true }
apply_option with_provenance s = record s { provenance = true }

abbrev pub apply_options : List ScopeOption → Scope → Scope
apply_options [] s = s
apply_options (o ∷ os) s = apply_options os (apply_option o s)

unfoldable pub seed_derivations : Fields → Dict Derivation → Dict Derivation
seed_derivations end ds = ds
seed_derivations (field k v m) ds = seed_derivations m (
    insert k
      (record {
        path = k;
        stage = [];
        origin = seed;
        operation = codes "seed";
        expression = [];
        inputs = end;
        value = v;
      })
      ds)

unfoldable pub new_scope : Fields → List ScopeOption → Scope
new_scope given opts =
    let s = apply_options opts blank_scope in
    let data' = clone_fields given 0 in
    record s { store = data'; derivations = if s.provenance then seed_derivations data' [] else [] }

-- `Snapshot`: deep on a concurrent scope, shallow otherwise.
unfoldable pub snapshot : Scope → Fields
snapshot s = if s.concurrent then clone_fields s.store 0 else s.store

-- A shallow snapshot shares its nested maps with the scope: what it shows after later writes.
abbrev pub live_value : Fields → Text → Value → Value
live_value now k (obj m) = elim (lookup_field k now) [ none ↦ obj m | some v ↦ v ]
live_value now k v = v

unfoldable pub live_view : Fields → Fields → Fields
live_view now end = end
live_view now (field k v env) = field k (live_value now k v) (live_view now env)

-- The evaluation environment as an expression sees it while the scope is `s`.
unfoldable pub observe : Scope → Fields → Fields
observe s env = if s.concurrent then env else live_view s.store env
