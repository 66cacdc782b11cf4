-- ===== src/Lib.antt =====
-- rlng runs rulesets: pipelines of stages over a shared Scope. This library models the pipe, expr and
-- config packages and the engine and mapper at the root.
--
-- Value: the Go values that a Scope holds (`any`), as a data type. Texts are lists of code points.
-- Error: the errors of all packages as values, with what wraps them.
-- Scope, Scope/Path, Scope/Action: pipe/scope.go, with the records of pipe/provenance.go,
--   pipe/firing.go and pipe/ruleset.go. A method that changes a Scope is an `Action`: it returns its
--   result and the Scope as it then is, on an error too. `set` is Scope.Set, `get` Scope.Get,
--   `derive_or_set` Scope.deriveOrSet, and so on.
-- Numeric: pipe/numeric.go, and the aggregation and agreement of numbers in pipe/table.go.
-- Expr: Function and Predicate of expr/function.go and expr/predicate.go.
-- Table, Table/Compile, Table/Execute: pipe/table.go, the decision table and its hit policies.
-- Single, Multi, Foreach: pipe/single.go, pipe/multi.go and pipe/foreach.go.
-- Stage: the interface of pipe/stage.go, as a record of what a stage answers.
-- Pipeline, Pipeline/Build, Pipeline/Run: pipe/pipeline.go. `topo_sort`, `compute_levels` and
--   `find_cycle` order the stages, `new_pipeline` is NewPipeline, and `run` is Pipeline.Run. What
--   pipe/timing.go records of the order of stages is part of it. Pipeline/Timing is the rest of
--   pipe/timing.go, and Pipeline/Timed the run with the clock, `timed_run`; the stages see a Scope
--   without a clock, and Pipeline/Clocked relates the two runs.
-- Scope/Lineage: the readers of pipe/provenance.go and pipe/firing.go; `lineage` is Scope.Lineage.
-- Codec, Codec/Envelope, Codec/Times: pipe/valuejson.go and pipe/json.go, on the trees that a JSON
--   decoder reads.
-- Getters: pipe/get.go.
-- Expr/Options: the options of expr/options.go that a definition sets. Expr/References: expr/refs.go
--   and expr/variables.go, on a syntax tree. Expr/Decimal: the functions of expr/decimal.go.
-- Value/Reflect: a Go value of a static type as package reflect shows it. Expr/Env is expr/env.go on
--   such values, and Engine/Seed restoreDecimals and mapstructureKey of engine.go.
-- Config: config/def.go and config/expr_def.go. Config/Decimals is config/decimal.go with
--   hydrateConstants, Config/Canonical config/hash.go, Config/Lint config/lint.go, and
--   Config/Chains, Config/Setup, Config/Stages and Config/Build are config/build.go and
--   config/build_options.go.
-- Config/Sources: config/source.go and config/providers.go. A Provider is a function of the handles
--   that are open, the World, as Parse is in Config/Parse. Config/Urls: config/urlsource.go.
--   Config/Shorthand: the unmarshalers of config/expr_def.go.
-- Mapper: mapper.go. Engine: engine.go, typed_engine.go and fromconfig.go; `flatten`
--   and `evaluate` are those of engine.go.
-- Base: Boolean tests, lists, integers, texts and association lists that the others share.
-- The other modules under a part are named for what they prove of it; Tests holds examples.
--
-- A pipeline runs its stages against one Scope; a stage takes a snapshot of the data, evaluates
-- expressions on it, and writes results under its own name. A foreach stage runs a pipeline of its
-- own on a fresh Scope for each element of a list, and merges what that recorded.
--
-- The model. Machine integers keep their range: a sum of int64 is taken modulo 2^64, and a uint64
-- above the range of int64 is a decimal. The operations of float64 and of decimal.Decimal are the
-- fields of the record `Arith`, a parameter; a float is its bits and a decimal a coefficient and an
-- exponent. The compiler and virtual machine of expr-lang are third-party code: a compiled program
-- is a function of the environment, and compilation is a field of the options. A context is a
-- function that says at which of its consultations it is cancelled.
-- The texts of numbers, decimals and times that strconv, shopspring/decimal and time read and write
-- are the fields of the record `Wire`, with what is relied on of them in `WireLaws`; json.Marshal and
-- SHA-256 are the record `Digest`, and mapstructure is a function. Build returns the definition as it
-- leaves it, where the source changes its maps in place; nil maps and empty ones are not told apart.
-- Files, URL parsing, requests and the answers of an HTTP client are parameters, and so are the strict
-- decoders of YAML and JSON; a body is its bytes with the failure that may follow them.
-- A time is an instant; the name of its location is dropped, as the text of a time drops it.
-- A shallow snapshot shares the nested maps of the Scope, which `observe` follows as the Scope
-- changes. A value that is written is copied where the source stores a reference: the model is the
-- program's as long as no map of the store, or of a Mapper's tree, is reached by two paths. Where an
-- expression returns a live map of the Scope and a later write goes below its new path, the source
-- changes the map at its old path too, and the model does not.
-- The stages of a level run whole, one after another, in an order that a parameter chooses; locks,
-- the semaphore and finer interleavings are left out. A stage that panics returns the error `panic`.
-- Left out are also the observer of masked errors, enumeration values outside of the named constants,
-- and the nil inner pipeline of a foreach stage.
--
-- Fuel. `topo_loop` has one unit more than there are stages, since each pass that goes on emits a
-- stage. `follow`, the walk of findCycle, has two units more than there are stages, as a walk of
-- that length repeats a name. `digits_onto` has one unit more than the number it prints. The depth
-- bounds of cloneValue, of the encoding and of lineages are the source's own; the latter count the
-- levels left, from 1001 and 1000, where the source counts the depth. `convert_value` counts the depth
-- as the source does and recurs on the value.
--
-- Not modelled: the texts of errors, NowFunc, host functions, result kinds and the observer of
-- expressions, whose effect is inside expr-lang, the time limit of the default HTTP client, and Go
-- values in which a pointer leads back to itself.
pub mod Base
pub mod Value
pub mod Error
pub mod Scope
pub mod Numeric
pub mod Expr
pub mod Table
pub mod Stage
pub mod Pipeline
pub mod Single
pub mod Multi
pub mod Foreach
pub mod Codec
pub mod Config
pub mod Getters
pub mod Mapper
pub mod Engine
pub mod Tests
