-- ===== src/Config/Parse.antt =====
-- config/parse.go: a document from its provider to a definition. The strict decoders are
-- parameters: what they leave in the definition, and the error that they report.
use rlng.Base.{Bool, true, false, ◌||◌, Option, none, some, [], if◌then◌else◌}
use rlng.Error.{
  Error, compile_error, eval_error, rule_condition, decision, element, stage_error, mapping_error,
  joined, config_error, end_of_file, nil_source, unknown_source_kind, Result, ok, err,
}
use rlng.Config.{PipelineDef}
use rlng.Config.Sources.{
  SourceKind, unspecified, yaml, json, kind_text, World, close_handle, Body, Reader, Source,
  Provider,
}

abbrev first_of : Option Error → Option Error → Option Error
first_of (some e) o = some e
first_of none o = o

-- `asConfigError`: the first ConfigError of the chain, by `errors.As`.
unfoldable pub as_config_error : Error → Option Error
as_config_error (config_error stage name e) = some (config_error stage name e)
as_config_error (compile_error name text e) = as_config_error e
as_config_error (eval_error name text e) = as_config_error e
as_config_error (rule_condition i e) = as_config_error e
as_config_error (decision i key e) = as_config_error e
as_config_error (element i e) = as_config_error e
as_config_error (stage_error name kind e) = as_config_error e
as_config_error (mapping_error name e) = as_config_error e
as_config_error (joined e f) = first_of (as_config_error e) (as_config_error f)
as_config_error e = none

-- `errors.Is(err, io.EOF)`
unfoldable pub is_end_of_file : Error → Bool
is_end_of_file end_of_file = true
is_end_of_file (config_error stage name e) = is_end_of_file e
is_end_of_file (compile_error name text e) = is_end_of_file e
is_end_of_file (eval_error name text e) = is_end_of_file e
is_end_of_file (rule_condition i e) = is_end_of_file e
is_end_of_file (decision i key e) = is_end_of_file e
is_end_of_file (element i e) = is_end_of_file e
is_end_of_file (stage_error name kind e) = is_end_of_file e
is_end_of_file (mapping_error name e) = is_end_of_file e
is_end_of_file (joined e f) = is_end_of_file e || is_end_of_file f
is_end_of_file e = false

-- An error as a ConfigError, without a second wrap around one.
abbrev pub attributed : Error → Error
attributed e = elim (as_config_error e) [ some ce ↦ ce | none ↦ config_error [] [] e ]

-- `decodeYAML` and `decodeJSON`, after `Decode`.
abbrev pub decoded : PipelineDef × Option Error → Result PipelineDef
decoded (def, none) = ok def
decoded (def, some e) = if is_end_of_file e then ok def else err (attributed e)

-- The deferred `Close`.
abbrev pub close_reader : Reader → World → World
close_reader r w = elim r.handle [ none ↦ w | some h ↦ close_handle h w ]

module _ (decode_yaml decode_json : Body → PipelineDef × Option Error) where
  abbrev pub decode_source : SourceKind → Body → Result PipelineDef
  decode_source yaml b = decoded (decode_yaml b)
  decode_source json b = decoded (decode_json b)
  decode_source unspecified b =
      err (config_error [] [] (unknown_source_kind (kind_text unspecified)))

  abbrev pub parse_source : Result (Option Source) × World → Result PipelineDef × World
  parse_source (err e, w) = (err (attributed e), w)
  parse_source (ok none, w) = (err (config_error [] [] nil_source), w)
  parse_source (ok (some src), w) =
      (decode_source src.kind src.reader.body, close_reader src.reader w)

  -- `Parse`
  unfoldable pub parse : Provider → World → Result PipelineDef × World
  parse p w = parse_source (p w)
