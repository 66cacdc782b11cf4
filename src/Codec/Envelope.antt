-- ===== src/Codec/Envelope.antt =====
-- The envelope of a Scope: `MarshalJSON` and `UnmarshalJSON`. The timing is left out.
use rlng.Base.{ℕ, suc, true, ◌&&◌, Option, none, some, List, [], ◌∷◌, leb, if◌then◌else◌}
use rlng.Base.Text.{is_empty}
use rlng.Base.Dict.{Dict}
use rlng.Value.{Value, Fields}
use rlng.Error.{json_error, Result, ok, err, bind}
use rlng.Scope.{Scope, Derivation, FiringRule, RulesetIdentity, max_clone_depth}
use rlng.Codec.{Wire, traverse_fields, encode_value, decode_value}

-- `scopeJSON`; what `omitempty` leaves out is `none`.
pub record ScopeJson : Type 0 where
  pub version : ℕ
  pub values : Fields
  pub derivations : Option (Dict Derivation)
  pub identity : Option RulesetIdentity
  pub firing : Option (Dict (List FiringRule))

abbrev pub levels : ℕ
levels = suc max_clone_depth

abbrev pub non_empty : {V : Type 0} → Dict V → Option (Dict V)
non_empty [] = none
non_empty (e ∷ es) = some (e ∷ es)

abbrev pub stamped : RulesetIdentity → Option RulesetIdentity
stamped id = if is_empty id.hash && is_empty id.version then none else some id

module _ (w : Wire) where
  abbrev bare_value : Value → Result Value
  bare_value v = elim (w.bare v) [ none ↦ err json_error | some x ↦ ok x ]

  -- A derivation keeps its values with no tags.
  abbrev bare_derivation : Derivation → Result Derivation
  bare_derivation d = bind (bare_value d.value) (λ v.
      bind (traverse_fields bare_value d.inputs) (λ ins. ok (record d { value = v; inputs = ins })))

  abbrev bare_derivations : Dict Derivation → Result (Dict Derivation)
  bare_derivations [] = ok []
  bare_derivations ((k, d) ∷ ds) =
      let rest = bare_derivations ds in
      bind (bare_derivation d) (λ x. bind rest (λ xs. ok ((k, x) ∷ xs)))

  abbrev pub kept_derivations : Scope → Result (Option (Dict Derivation))
  kept_derivations s =
      if s.provenance
      then bind (bare_derivations s.derivations) (λ ds. ok (non_empty ds))
      else ok none

  -- `MarshalJSON`
  unfoldable pub marshal_scope : Scope → Result ScopeJson
  marshal_scope s = bind (traverse_fields (encode_value w levels) s.store) (λ tagged_data.
      bind (kept_derivations s) (λ ds. ok (record {
        version = 2;
        values = tagged_data;
        derivations = ds;
        identity = stamped s.identity;
        firing = non_empty s.firing;
      })))

  abbrev restored_data : ScopeJson → Result Fields
  restored_data env =
      if leb 2 env.version
      then traverse_fields (decode_value w levels) env.values
      else ok env.values

  abbrev pub restore_derivations : Option (Dict Derivation) → Scope → Scope
  restore_derivations none s = s
  restore_derivations (some ds) s = record s { provenance = true; derivations = ds }

  abbrev pub restore_ruleset : Option RulesetIdentity → Scope → Scope
  restore_ruleset none s = s
  restore_ruleset (some id) s = record s { identity = id }

  abbrev pub restore_firing : Option (Dict (List FiringRule)) → Scope → Scope
  restore_firing none s = s
  restore_firing (some fs) s = record s { firing = fs }

  -- `UnmarshalJSON`
  unfoldable pub unmarshal_scope : ScopeJson → Scope → Result Scope
  unmarshal_scope env s = bind (restored_data env) (λ m. ok (
      restore_firing env.firing (
        restore_ruleset env.identity
          (restore_derivations env.derivations (record s { store = m })))))
