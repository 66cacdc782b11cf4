-- ===== src/Config/Chains.antt =====
-- `validateForEachAsChains` of config/build.go: no foreach binds an element under the name that an
-- enclosing one binds.
use rlng.Base.{
  ◌≡◌, refl, inl, inr, Bool, true, false, Option, none, some, List, [], ◌∷◌, ⊤, arith,
  if◌then◌else◌, Option-cases, map,
}
use rlng.Base.Text.{Text, codes, text_eq, text_eq_iff}
use rlng.Error.{config_error, foreach_as_collision, Result, ok, err, bind}
use rlng.Pipeline.{mem_text}
use rlng.Config.{StageFields, StageDef, StageDefs, stage_def, no_more, stage_then}

-- `asBinding`
pub record AsBinding : Type 0 where
  pub stage : Text
  pub binding : Text

abbrev item_if_empty : Text → Text
item_if_empty [] = codes "item"
item_if_empty (c ∷ s) = c ∷ s

abbrev pub is_foreach : StageFields → Bool
is_foreach d = text_eq d.kind (codes "foreach")

-- The effective name that a foreach binds an element under.
abbrev pub effective : StageFields → Text
effective d = item_if_empty d.binding

-- The enclosing foreach that binds the same name.
unfoldable pub prior_with : Text → List AsBinding → Option Text
prior_with name [] = none
prior_with name (p ∷ chain) =
    let rest = prior_with name chain in if text_eq p.binding name then some p.stage else rest

abbrev pub check_prior : StageFields → Option Text → Result ⊤ → Result ⊤
check_prior d (some enclosing) inner =
    err (config_error d.name (codes "as") (foreach_as_collision d.name (effective d) enclosing))
check_prior d none inner = inner

unfoldable mutual
  -- The body of the loop; the chain is innermost first.
  pub validate_stage : StageDef → List AsBinding → Result ⊤
  validate_stage (stage_def d inner) chain =
      let nested =
        validate_as_chains inner (record { stage = d.name; binding = effective d } ∷ chain) in
      if is_foreach d then check_prior d (prior_with (effective d) chain) nested else ok tt

  -- `validateForEachAsChains`
  pub validate_as_chains : StageDefs → List AsBinding → Result ⊤
  validate_as_chains no_more chain = ok tt
  validate_as_chains (stage_then sd sds) chain =
      let rest = validate_as_chains sds chain in bind (validate_stage sd chain) (λ _. rest)

-- The names that the foreach stages of a chain bind, from the outermost one; a chain may stop at any
-- of them.
mutual
  pub data BindsInStage : StageDef → List Text → Type 0 where
    stops :
        {d : StageFields} {inner : StageDefs}
        → is_foreach d ≡ true
        → BindsInStage (stage_def d inner) (effective d ∷ [])
    goes_on :
        {d : StageFields} {inner : StageDefs} {names : List Text}
        → is_foreach d ≡ true
        → Binds inner names
        → BindsInStage (stage_def d inner) (effective d ∷ names)

  pub data Binds : StageDefs → List Text → Type 0 where
    here :
        {sd : StageDef} {sds : StageDefs} {names : List Text}
        → BindsInStage sd names
        → Binds (stage_then sd sds) names
    later :
        {sd : StageDef} {sds : StageDefs} {names : List Text}
        → Binds sds names
        → Binds (stage_then sd sds) names

-- No name twice, and none of the first list.
unfoldable pub IsFresh : List Text → List Text → Type 0
IsFresh seen [] = ⊤
IsFresh seen (t ∷ ts) = (mem_text t seen ≡ false) × IsFresh (t ∷ seen) ts

abbrev bindings : List AsBinding → List Text
bindings chain = map (λ p. p.binding) chain

prior_with-mem :
    (name : Text) (chain : List AsBinding)
    → prior_with name chain ≡ none
    → mem_text name (bindings chain) ≡ false
unfolding prior_with mem_text
prior_with-mem name [] h = refl
prior_with-mem name (p ∷ chain) h =
    ground
      (arith, text_eq_iff p.binding name, text_eq_iff name p.binding, prior_with-mem name chain)

stage-checked :
    (d : StageFields) (inner : StageDefs) (chain : List AsBinding)
    → is_foreach d ≡ true
    → validate_stage (stage_def d inner) chain ≡ ok tt
    → (mem_text (effective d) (bindings chain) ≡ false)
      × (validate_as_chains inner (record { stage = d.name; binding = effective d } ∷ chain)
          ≡ ok tt)
unfolding validate_as_chains
stage-checked d inner chain f h = elim (Option-cases (prior_with (effective d) chain)) [
  | inr (enclosing, found) ↦ ground arith
  | inl fresh ↦ (prior_with-mem (effective d) chain fresh, rw (f, fresh, check_prior) at h)
]

mutual
  unfolding validate_as_chains IsFresh

  validate_stage-IsFresh :
      (sd : StageDef) (chain : List AsBinding) (names : List Text)
      → validate_stage sd chain ≡ ok tt
      → BindsInStage sd names
      → IsFresh (bindings chain) names
  validate_stage-IsFresh (stage_def d inner) chain _ h (stops f) =
      ((stage-checked d inner chain f h).0, tt)
  validate_stage-IsFresh (stage_def d inner) chain _ h (goes_on f b) =
      let (fresh, nested) = stage-checked d inner chain f h in
      (
        fresh,
        validate_as_chains-IsFresh inner (record { stage = d.name; binding = effective d } ∷ chain)
            _ nested b,
      )

  validate_as_chains-IsFresh :
      (sds : StageDefs) (chain : List AsBinding) (names : List Text)
      → validate_as_chains sds chain ≡ ok tt
      → Binds sds names
      → IsFresh (bindings chain) names
  validate_as_chains-IsFresh no_more chain names h b = elim b [ ]
  validate_as_chains-IsFresh (stage_then sd sds) chain names h (here b) =
      validate_stage-IsFresh sd chain names (ground arith) b
  validate_as_chains-IsFresh (stage_then sd sds) chain names h (later b) =
      validate_as_chains-IsFresh sds chain names (ground arith) b

-- Where the check passes, no two foreach stages of a chain of nested ones bind an element under the
-- same name.
pub as_chains-IsFresh :
    (sds : StageDefs) (names : List Text)
    → validate_as_chains sds [] ≡ ok tt
    → Binds sds names
    → IsFresh [] names
as_chains-IsFresh sds names h b = validate_as_chains-IsFresh sds [] names h b
