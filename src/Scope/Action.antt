-- ===== src/Scope/Action.antt =====
-- The methods of a Scope as actions: a Scope is mutated in place, so it comes back with an error
-- too.
use rlng.Base.{Bool, ◌&&◌, Option, none, some, List, [], ◌∷◌, ⊤, if◌then◌else◌}
use rlng.Base.Text.{Text, is_empty}
use rlng.Base.Dict.{Dict, lookup, insert}
use rlng.Value.{Value, Fields, end, field}
use rlng.Error.{Error, empty_path, Result, ok, err, of_error, map_err}
use rlng.Scope.{Derivation, FiringRule, RulesetIdentity, Scope}
use rlng.Scope.Path.{set_path, lookup_path, qualify}

abbrev pub Action : Type 0 → Type 0
Action A = Scope → Result A × Scope

module _ {A : Type 0} where
  abbrev pub pure : A → Action A
  pure a s = (ok a, s)

  abbrev pub throw : Error → Action A
  throw e s = (err e, s)

  -- A pure computation that may fail.
  abbrev pub lift : Result A → Action A
  lift r s = (r, s)

  abbrev pub gets : (Scope → A) → Action A
  gets f s = (ok (f s), s)

  abbrev pub wrap_err : (Error → Error) → Action A → Action A
  wrap_err f m s = let (r, s') = m s in (map_err f r, s')

abbrev pub modify : (Scope → Scope) → Action ⊤
modify f s = (ok tt, f s)

module _ {A B : Type 0} where
  infixl 5 ◌>>=◌ ◌>>◌
  abbrev pub and_then : Result A → (A → Action B) → Action B
  and_then (ok a) f s = f a s
  and_then (err e) f s = (err e, s)

  abbrev pub ◌>>=◌ : Action A → (A → Action B) → Action B
  ◌>>=◌ m f s = let (r, s') = m s in and_then r f s'

  abbrev pub ◌>>◌ : Action A → Action B → Action B
  m >> k = m >>= λ _. k

-- `Scope.Set`
unfoldable pub set : Text → Value → Action ⊤
set path v s =
    if is_empty path
    then (err empty_path, s)
    else let (root, e) = set_path s.store path v s.strict in (of_error e, record s { store = root })

-- `Scope.Get`
unfoldable pub get : Text → Scope → Option Value
get path s = lookup_path s.store path

abbrev pub record_derivation : Text → Value → Derivation → Scope → Scope
record_derivation path v d s =
    if s.provenance
    then record s { derivations = insert path (record d { path = path; value = v }) s.derivations }
    else s

-- `Scope.Derive`
unfoldable pub derive : Text → Value → Derivation → Action ⊤
derive path v d = do set path v; modify (record_derivation path v d)

-- `Scope.deriveOrSet`; the derivation is built only where provenance is on.
unfoldable pub derive_or_set : Text → Value → Derivation → Action ⊤
derive_or_set path v d s = if s.provenance then derive path v d s else set path v s

-- `Scope.recordFirings`
unfoldable pub record_firings : Text → List FiringRule → Scope → Scope
record_firings stage rules s = record s { firing = insert stage rules s.firing }

-- `Scope.recordFiring`
unfoldable pub record_firing : Text → Text → Text → Bool → Scope → Scope
record_firing stage rule_id message is_default =
    record_firings stage
      (record { stage = stage; rule_id = rule_id; message = message; is_default = is_default } ∷ [])

-- `Scope.FiringRulesFor`
unfoldable pub firing_rules_for : Text → Scope → List FiringRule
firing_rules_for stage s = elim (lookup stage s.firing) [ none ↦ [] | some rules ↦ rules ]

-- `Scope.FiringRule`
unfoldable pub firing_rule : Text → Scope → Option FiringRule
firing_rule stage s = elim (firing_rules_for stage s) [ [] ↦ none | r ∷ rs ↦ some r ]

-- `Scope.stampRuleset`; the zero identity is a no-op.
unfoldable pub stamp_ruleset : RulesetIdentity → Scope → Scope
stamp_ruleset id s =
    if is_empty id.hash && is_empty id.version then s else record s { identity = id }

-- `mergePrefixed`: each entry of the source goes under `prefix.key`.
unfoldable pub merge_prefixed {ℓ κ} :
    {V : Type ℓ} {W : Type κ} → Dict W → Text → Dict V → (V → W) → Dict W
merge_prefixed dst prefix [] f = dst
merge_prefixed dst prefix ((k, v) ∷ src) f =
    merge_prefixed (insert (qualify prefix k) (f v) dst) prefix src f

abbrev prefix_inputs : Text → Fields → Fields
prefix_inputs prefix end = end
prefix_inputs prefix (field k v m) = field (qualify prefix k) v (prefix_inputs prefix m)

abbrev prefix_derivation : Text → Derivation → Derivation
prefix_derivation prefix d = record d {
  path = qualify prefix d.path;
  inputs = prefix_inputs prefix d.inputs;
}

-- `Scope.recordElementDerivations`
unfoldable pub record_element_derivations : Text → Dict Derivation → Scope → Scope
record_element_derivations prefix src s =
    if s.provenance
    then record s {
      derivations = merge_prefixed s.derivations prefix src (prefix_derivation prefix);
    }
    else s

-- `Scope.recordElementFirings`
unfoldable pub record_element_firings : Text → Dict (List FiringRule) → Scope → Scope
record_element_firings prefix src s = record s {
  firing = merge_prefixed s.firing prefix src (λ rules. rules);
}
