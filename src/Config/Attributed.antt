-- ===== src/Config/Attributed.antt =====
-- config/parse.go: every failure of Parse is a ConfigError, wrapped once.
use rlng.Base.{◌≡◌, Option-cases, inl, inr, Option, none, some, arith}
use rlng.Error.{
  Error, config_error, compile_error, eval_error, rule_condition, decision, element, stage_error,
  mapping_error, joined, Result, ok, err,
}
use rlng.Config.{PipelineDef}
use rlng.Config.Sources.{SourceKind, unspecified, yaml, json, World, Body, Source, Provider}
use rlng.Config.Parse.{as_config_error, attributed, decode_source, parse_source, parse}

-- The first ConfigError of a chain is its own first ConfigError.
as_config_error_idem : (e c : Error) → as_config_error e ≡ some c → as_config_error c ≡ some c
unfolding as_config_error
as_config_error_idem (config_error stage name e) c h = ground arith
as_config_error_idem (compile_error name text e) c h = as_config_error_idem e c h
as_config_error_idem (eval_error name text e) c h = as_config_error_idem e c h
as_config_error_idem (rule_condition i e) c h = as_config_error_idem e c h
as_config_error_idem (decision i key e) c h = as_config_error_idem e c h
as_config_error_idem (element i e) c h = as_config_error_idem e c h
as_config_error_idem (stage_error name kind e) c h = as_config_error_idem e c h
as_config_error_idem (mapping_error name e) c h = as_config_error_idem e c h
as_config_error_idem (joined e f) c h = elim (Option-cases (as_config_error e)) [
  | inl n ↦ as_config_error_idem f c (ground arith)
  | inr (d, n) ↦ as_config_error_idem e c (ground arith)
]
as_config_error_idem e c h = ground arith

attributed_idem : (e : Error) → as_config_error (attributed e) ≡ some (attributed e)
unfolding as_config_error
attributed_idem e = elim (Option-cases (as_config_error e)) [
  | inl n ↦ ground arith
  | inr (c, n) ↦ ground (arith, as_config_error_idem e c n)
]

module _ (decode_yaml decode_json : Body → PipelineDef × Option Error) where
  decode_source-IsAttributed :
      (kind : SourceKind) (b : Body) (e : Error)
      → decode_source decode_yaml decode_json kind b ≡ err e
      → as_config_error e ≡ some e
  decode_source-IsAttributed unspecified b e h = unfold as_config_error in ground arith
  decode_source-IsAttributed yaml b e h = elim (Option-cases (decode_yaml b).1) [
    | inl n ↦ ground arith
    | inr (f, n) ↦ ground (arith, attributed_idem f)
  ]
  decode_source-IsAttributed json b e h = elim (Option-cases (decode_json b).1) [
    | inl n ↦ ground arith
    | inr (f, n) ↦ ground (arith, attributed_idem f)
  ]

  parse_source-IsAttributed :
      (r : Result (Option Source)) (w : World) (e : Error)
      → (parse_source decode_yaml decode_json (r, w)).0 ≡ err e
      → as_config_error e ≡ some e
  parse_source-IsAttributed (err f) w e h = ground (arith, attributed_idem f)
  parse_source-IsAttributed (ok none) w e h = unfold as_config_error in ground arith
  parse_source-IsAttributed (ok (some src)) w e h =
      decode_source-IsAttributed src.kind src.reader.body e h

  -- Whatever the provider, the document and the decoders, an error that Parse returns is a
  -- ConfigError itself.
  pub parse-IsAttributed :
      (p : Provider) (w : World) (e : Error)
      → (parse decode_yaml decode_json p w).0 ≡ err e
      → as_config_error e ≡ some e
  unfolding parse
  parse-IsAttributed p w e h = parse_source-IsAttributed (p w).0 (p w).1 e h
