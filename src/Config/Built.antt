-- ===== src/Config/Built.antt =====
-- What Build returns: the identity of the pipeline, and its stages.
use rlng.Base.{◌≡◌, refl, ap, ◌∙◌, sym, true, none, some, List, [], ◌∷◌, arith, map, subst}
use mathlib.Core.List.{Perm}
use rlng.Base.Text.{Text, text_eq_refl}
use rlng.Value.{Arith}
use rlng.Error.{ok, Cases, Result-Cases}
use rlng.Expr.Options.{Compiler}
use rlng.Scope.{RulesetIdentity}
use rlng.Stage.{Stage}
use rlng.Pipeline.Build.{Pipeline}
use rlng.Pipeline.Dependencies.{IsTopological}
use rlng.Pipeline.Built.{new_pipeline_sound, new_pipeline-identity}
use rlng.Codec.{Wire}
use rlng.Config.{StageDefs, stage_def, no_more, stage_then, PipelineDef}
use rlng.Config.Decimals.{hydrate_constants}
use rlng.Config.Canonical.{
  canonicalize_fields, canonicalize_stages, canonical_definition, Digest, hash_canonical, hash,
  matches_ruleset,
}
use rlng.Config.Fingerprint.{hydrate_constants-canonical}
use rlng.Config.Chains.{validate_as_chains, Binds, IsFresh, as_chains-IsFresh}
use rlng.Config.Headers.{header, headers, build_stages-headers}
use rlng.Config.Steps.{with_ruleset-identity, configure_all-concurrent, build-steps}
use rlng.Config.Build.{
  BuildConfig, BuildOption, configured, version_or, setup_of, check_definition, pipeline_options,
  build,
}

headers-canonical : (w : Wire) (sds : StageDefs) → headers (canonicalize_stages w sds) ≡ headers sds
unfolding headers canonicalize_stages canonicalize_fields
headers-canonical w no_more = refl
headers-canonical w (stage_then (stage_def d inner) sds) =
    ap (λ hs. (d.name, d.kind, d.depends_on) ∷ hs) (headers-canonical w sds)

module _ (w : Wire) (digest : Digest) (ops : Arith) (compiler : Compiler)
    (schedule : List Stage → List Stage) where
  hash-of_memo : (d : PipelineDef) (h : Text) → d.hash_memo ≡ some h → hash w digest d ≡ h
  unfolding hash
  hash-of_memo d h e = rw e refl

  hash-of_canonical :
      (d : PipelineDef) (h : Text)
      → d.hash_memo ≡ none
      → hash_canonical w digest d ≡ ok h
      → hash w digest d ≡ h
  unfolding hash hash_canonical canonical_definition
  hash-of_canonical d h no_memo hashed = simp (no_memo, hashed)

  hash_canonical-same :
      (d y : PipelineDef) (h : Text)
      → canonical_definition w y ≡ canonical_definition w d
      → hash_canonical w digest y ≡ ok h
      → hash_canonical w digest d ≡ ok h
  unfolding hash_canonical
  hash_canonical-same d y h same hashed = rw (← same) hashed

  -- Where Build succeeds on a definition whose hash was not kept before, the definition matches the
  -- identity of the pipeline, both as it was given and as Build leaves it, with its decimals hydrated;
  -- the version is that of the options or, where they give none, of the definition.
  pub build-matches_ruleset :
      (opts : List BuildOption) (d : PipelineDef) (p : Pipeline) (x : PipelineDef)
      → d.hash_memo ≡ none
      → build w digest ops compiler schedule opts d ≡ ok (p, x)
      → (matches_ruleset w digest d p.identity ≡ true)
        × (matches_ruleset w digest x p.identity ≡ true)
        × (p.identity.version ≡ version_or d.version (configured opts).version)
  unfolding matches_ruleset
  build-matches_ruleset opts d p x no_memo e =
      let (y, ss, h, hydrated, checked, built, hashed, made, left) =
        build-steps w digest ops compiler schedule opts d p x e in
      let (same, memo, version) = hydrate_constants-canonical w d y hydrated in
      let id : RulesetIdentity = record {
        hash = h;
        version = version_or y.version (configured opts).version;
      } in
      let stamped : p.identity ≡ id =
        new_pipeline-identity ss (pipeline_options (configured opts) y h) made
        ∙ with_ruleset-identity id (configured opts).concurrency
            (configure_all-concurrent _ opts tt) in
      (
        rw (stamped, hash-of_canonical d h no_memo (hash_canonical-same d y h same hashed))
            (text_eq_refl h),
        rw (stamped, hash-of_memo x h (ap (λ z. z.hash_memo) left)) (text_eq_refl h),
        rw (stamped, version) refl,
      )

  headers-hydrated :
      (d y : PipelineDef) → hydrate_constants w d ≡ ok y → headers y.stages ≡ headers d.stages
  unfolding canonical_definition
  headers-hydrated d y h =
      sym (headers-canonical w y.stages)
      ∙ ap (λ c. headers c.stages) (hydrate_constants-canonical w d y h).0
      ∙ headers-canonical w d.stages

  -- Where Build succeeds, the stages of the pipeline are those of the definition, each once and with
  -- its name, its type and its dependencies, in an order in which each stage stands after stages with
  -- the names of all its dependencies.
  pub build-stages :
      (opts : List BuildOption) (d : PipelineDef) (p : Pipeline) (x : PipelineDef)
      → build w digest ops compiler schedule opts d ≡ ok (p, x)
      → Perm (map header p.ordered) (headers d.stages) × IsTopological [] p.ordered
  build-stages opts d p x e =
      let (y, ss, h, hydrated, checked, built, hashed, made, left) =
        build-steps w digest ops compiler schedule opts d p x e in
      let (perm, ordered) = new_pipeline_sound ss (pipeline_options (configured opts) y h) p made in
      (
        subst (λ hs. Perm (map header p.ordered) hs)
            (build_stages-headers ops compiler schedule (setup_of (configured opts) y) y.stages ss
                built
              ∙ headers-hydrated d y hydrated)
            (mathlib.Core.List.Perm.map header perm),
        ordered,
      )

  validated :
      (cfg : BuildConfig) (y : PipelineDef)
      → check_definition cfg y ≡ ok tt
      → validate_as_chains y.stages [] ≡ ok tt
  unfolding check_definition
  validated cfg y h = elim (Result-Cases (validate_as_chains y.stages [])) [
    | Cases.bad z failed ↦ ground arith
    | Cases.good tt valid ↦ valid
  ]

  -- Where Build succeeds, no two foreach stages of a chain of nested ones bind an element under the
  -- same name.
  pub build-IsFresh :
      (opts : List BuildOption) (d : PipelineDef) (p : Pipeline) (x : PipelineDef)
      (names : List Text)
      → build w digest ops compiler schedule opts d ≡ ok (p, x)
      → Binds x.stages names
      → IsFresh [] names
  build-IsFresh opts d p x names e b =
      let (y, ss, h, hydrated, checked, built, hashed, made, left) =
        build-steps w digest ops compiler schedule opts d p x e in
      as_chains-IsFresh y.stages names (validated (configured opts) y checked)
        (subst (λ z. Binds z.stages names) left b)
