-- ===== src/Config/Handles.antt =====
-- config/parse.go and its providers: what Parse leaves open, and that the way a document comes
-- does not change what it decodes to.
use rlng.Base.{
  ℕ, ◌^◌, ◌<◌, ◌≤◌, ◌-◌, ◌≡◌, refl, Bool-cases, inl, inr, Option, none, some, Option-cases, List,
  ◌∷◌, true, length, arith,
}
use rlng.Base.Int.{pos}
use rlng.Base.Text.{Text}
use rlng.Error.{Error, Result, ok, err, Cases, Result-Cases}
use rlng.Config.{PipelineDef}
use rlng.Config.Sources.{
  SourceKind, World, without, Body, Reader, from_bytes, from_reader, from_file, file_kind,
}
use rlng.Config.Urls.{
  UrlProvider, Response, from_url, read_capped, is_success, is_http, send, receive,
}
use rlng.Config.Parse.{parse}
use rlng.Config.Fetched.{read_capped_lem}

without_self : (h : ℕ) (hs : List ℕ) → without h (h ∷ hs) ≡ hs
without_self h hs = ground arith

abbrev pub whole : List ℕ → Body
whole content = record { content = content; failure = none }

module _ (decode_yaml decode_json : Body → PipelineDef × Option Error) (w : World) where
  parse-from_file-handles :
      (open_file : Text → Result Body) (kind : SourceKind) (path : Text)
      → (parse decode_yaml decode_json (from_file open_file kind path) w).1.handles ≡ w.handles
  unfolding parse from_file
  parse-from_file-handles open_file kind path = elim (Result-Cases (file_kind path kind)) [
    | Cases.bad e f ↦ ground arith
    | Cases.good k f ↦ elim (Result-Cases (open_file path)) [
      | Cases.bad e o ↦ ground arith
      | Cases.good body o ↦ ground (arith, without_self w.next w.handles)
    ]
  ]

  module _ {Request : Type 0} where
    parse-receive-handles :
        (p : UrlProvider Request) (answer : Result Response)
        → (parse decode_yaml decode_json (receive p answer) w).1.handles ≡ w.handles
    unfolding parse
    parse-receive-handles p (err e) = ground arith
    parse-receive-handles p (ok resp) = elim (Bool-cases (is_success resp.status)) [
      | inl s ↦ elim (Result-Cases (read_capped p.max_bytes resp.body)) [
        | Cases.bad e f ↦ ground (arith, without_self w.next w.handles)
        | Cases.good c f ↦ ground (arith, without_self w.next w.handles)
      ]
      | inr s ↦ ground (arith, without_self w.next w.handles)
    ]

    parse-send-handles :
        (p : UrlProvider Request) (request : Result Request)
        → (parse decode_yaml decode_json (send p request) w).1.handles ≡ w.handles
    parse-send-handles p (err e) = unfold parse in refl
    parse-send-handles p (ok req) = elim (Option-cases p.client) [
      | inl e ↦ unfold parse in rw (e, send) refl
      | inr (c, e) ↦ unfold parse in rw (e, send) (parse-receive-handles p (c req))
    ]

    parse-from_url-handles :
        (url_scheme : Text → Result Text) (new_request : Text → Result Request)
        (p : UrlProvider Request)
        → (parse decode_yaml decode_json (from_url url_scheme new_request p) w).1.handles
          ≡ w.handles
    unfolding parse from_url
    parse-from_url-handles url_scheme new_request p = elim (Result-Cases (url_scheme p.raw_url)) [
      | Cases.bad e f ↦ ground arith
      | Cases.good s f ↦ elim (Bool-cases (is_http s)) [
        | inl g ↦ ground (arith, parse-send-handles p (new_request p.raw_url))
        | inr g ↦ ground arith
      ]
    ]

  -- Parse closes each handle that a provider of the package opens and no other one: after the
  -- bytes of a document, a caller's reader, a file or a URL, whatever fails on the way, exactly the
  -- handles are open that were open before.
  pub parse-handles :
      {Request : Type 0} (url_scheme : Text → Result Text) (new_request : Text → Result Request)
      (open_file : Text → Result Body) (p : UrlProvider Request) (kind : SourceKind)
      (content : List ℕ) (r : Reader) (path : Text)
      → ((parse decode_yaml decode_json (from_bytes kind content) w).1.handles ≡ w.handles)
        × ((parse decode_yaml decode_json (from_reader r kind) w).1.handles ≡ w.handles)
        × ((parse decode_yaml decode_json (from_file open_file kind path) w).1.handles ≡ w.handles)
        × ((parse decode_yaml decode_json (from_url url_scheme new_request p) w).1.handles
            ≡ w.handles)
  unfolding parse from_bytes from_reader
  parse-handles url_scheme new_request open_file p kind content r path = (
    refl,
    refl,
    parse-from_file-handles open_file kind path,
    parse-from_url-handles url_scheme new_request p,
  )

  -- A document parses to the same whether its bytes are given, read from a caller's reader, opened
  -- as a file whose kind is that one, or fetched: over http or https, by a client that answers
  -- with status 200 to 299, under a cap between the document's length and 2^63 - 2.
  pub parse-eq :
      {Request : Type 0} (url_scheme : Text → Result Text) (new_request : Text → Result Request)
      (open_file : Text → Result Body) (p : UrlProvider Request) (kind : SourceKind)
      (content : List ℕ) (handle : Option ℕ) (path : Text) (declared : SourceKind) (cap : ℕ)
      (scheme : Text) (req : Request) (client : Request → Result Response) (resp : Response)
      → file_kind path declared ≡ ok kind
      → open_file path ≡ ok (whole content)
      → p.kind ≡ kind
      → p.max_bytes ≡ pos cap
      → length content ≤ cap
      → cap < 2 ^ 63 - 1
      → url_scheme p.raw_url ≡ ok scheme
      → is_http scheme ≡ true
      → new_request p.raw_url ≡ ok req
      → p.client ≡ some client
      → client req ≡ ok resp
      → is_success resp.status ≡ true
      → resp.body ≡ whole content
      → ((parse decode_yaml decode_json
            (from_reader (record { body = whole content; handle = handle }) kind)
            w).0
          ≡ (parse decode_yaml decode_json (from_bytes kind content) w).0)
        × ((parse decode_yaml decode_json (from_file open_file declared path) w).0
            ≡ (parse decode_yaml decode_json (from_bytes kind content) w).0)
        × ((parse decode_yaml decode_json (from_url url_scheme new_request p) w).0
            ≡ (parse decode_yaml decode_json (from_bytes kind content) w).0)
  unfolding parse from_bytes from_reader from_file from_url
  parse-eq url_scheme new_request open_file p kind content handle path declared cap scheme req
        client resp fk op pk pm h1 h2 us hs nr pc cr st bd =
      let read : read_capped p.max_bytes resp.body ≡ ok content =
        rw (pm, bd) (ground (arith, read_capped_lem cap (whole content) (omega (arith, h2)))) in
      (refl, ground arith, ground arith)
