-- ===== src/Tests/Sources.antt =====
-- Documents given as bytes, read from a file and fetched.
use rlng.Base.{
  ◌≡◌, ◌^◌, ◌==◌, ◌-◌, refl, ℕ, List, [], ◌∷◌, true, some, none, Option, arith, length, leb,
  if◌then◌else◌,
}
use rlng.Base.Int.{pos}
use rlng.Base.Text.{Text, codes, text_eq}
use rlng.Value.{end}
use rlng.Error.{Error, Result, ok, err, outside, config_error, max_bytes_exceeded, end_of_file}
use rlng.Config.{PipelineDef, no_more}
use rlng.Config.Sources.{
  unspecified, yaml, json, World, Body, Provider, from_bytes, from_file, from_reader, file_kind,
  extension, kind_of_extension, Reader,
}
use rlng.Config.Urls.{UrlProvider, from_url, is_http, read_capped, read_all, Client}
use rlng.Config.Parse.{parse, as_config_error}
use rlng.Config.Fetched.{read_capped_lem}
use rlng.Config.Handles.{whole, parse-handles, parse-eq}
use rlng.Config.Attributed.{parse-IsAttributed}

abbrev no_definition : PipelineDef
no_definition = record {
  constants = end;
  mapping = [];
  stages = no_more;
  schema = end;
  version = [];
  hash_memo = none;
}

-- A decoder that takes the bytes for the version, and reports an empty document.
abbrev version_of : Body → PipelineDef × Option Error
version_of b = elim b.content [
  | [] ↦ (no_definition, some end_of_file)
  | c ∷ s ↦ (record no_definition { version = c ∷ s }, none)
]

abbrev two_open : World
two_open = record { handles = 1 ∷ 0 ∷ []; next = 2 }

abbrev document : List ℕ
document = 7 ∷ 8 ∷ 9 ∷ []

abbrev disk : Text → Result Body
disk path = ok (whole document)

abbrev http_only : Text → Result Text
http_only url = ok (codes "http")

abbrev answer : Client Text
answer url = ok (record { status = pos 200; body = whole document })

abbrev fetching : UrlProvider Text
fetching = record { raw_url = codes "u"; kind = json; client = some answer; max_bytes = pos 3 }

abbrev owned : Reader
owned = record { body = whole document; handle = some 0 }

parse-handles_example :
    ((parse version_of version_of (from_bytes yaml document) two_open).1.handles ≡ 1 ∷ 0 ∷ [])
    × ((parse version_of version_of (from_reader owned yaml) two_open).1.handles ≡ 1 ∷ 0 ∷ [])
    × ((parse version_of version_of (from_file disk yaml (codes "p")) two_open).1.handles
        ≡ 1 ∷ 0 ∷ [])
    × ((parse version_of version_of (from_url http_only (λ u. ok u) fetching) two_open).1.handles
        ≡ 1 ∷ 0 ∷ [])
parse-handles_example =
    parse-handles version_of version_of two_open http_only (λ u. ok u) disk fetching yaml document
      owned (codes "p")

inferred : file_kind (codes "a.JSON") unspecified ≡ ok json
unfolding extension kind_of_extension text_eq
inferred = refl

over_http : is_http (codes "http") ≡ true
unfolding text_eq
over_http = refl

parse-eq_example :
    ((parse version_of version_of (from_reader owned json) two_open).0
      ≡ (parse version_of version_of (from_bytes json document) two_open).0)
    × ((parse version_of version_of (from_file disk unspecified (codes "a.JSON")) two_open).0
        ≡ (parse version_of version_of (from_bytes json document) two_open).0)
    × ((parse version_of version_of (from_url http_only (λ u. ok u) fetching) two_open).0
        ≡ (parse version_of version_of (from_bytes json document) two_open).0)
parse-eq_example =
    parse-eq version_of version_of two_open http_only (λ u. ok u) disk fetching json document
      (some 0) (codes "a.JSON") unspecified 3 (codes "http") (codes "u") answer
      (record { status = pos 200; body = whole document }) inferred refl refl refl (omega arith)
      (omega arith) refl over_http refl refl refl refl refl

decoded :
    (parse version_of version_of (from_bytes json document) two_open).0
    ≡ ok (record no_definition { version = document })
unfolding parse from_bytes
decoded = refl

read_capped_lem_example : read_capped (pos 2) (whole document) ≡ (
    if 2 == 2 ^ 63 - 1
    then ok []
    else if leb (length document) 2
    then read_all (whole document)
    else err (max_bytes_exceeded (pos 2)))
read_capped_lem_example = read_capped_lem 2 (whole document) (omega arith)

-- A provider that fails with an error of other code.
abbrev failing : Provider
failing w = (err (outside (codes "io")), w)

failed :
    (parse version_of version_of failing two_open).0
    ≡ err (config_error [] [] (outside (codes "io")))
unfolding parse as_config_error
failed = refl

parse-IsAttributed_example :
    as_config_error (config_error [] [] (outside (codes "io")))
    ≡ some (config_error [] [] (outside (codes "io")))
parse-IsAttributed_example =
    parse-IsAttributed version_of version_of failing two_open
      (config_error [] [] (outside (codes "io"))) failed
