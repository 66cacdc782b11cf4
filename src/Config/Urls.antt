-- ===== src/Config/Urls.antt =====
-- config/urlsource.go: a document fetched over HTTP. Parsing a URL, making a request, the default
-- client and a client's answer are parameters.
use rlng.Base.{
  ℕ, zero, suc, ◌*◌, Bool, false, ◌||◌, Option, none, some, List, [], ◌∷◌, length, leb,
  if◌then◌else◌,
}
use rlng.Base.Int.{ℤ, pos, negsuc, ◌+ℤ◌, ltb_ℤ, wrap64}
use rlng.Base.Text.{Text, codes, text_eq}
use rlng.Error.{
  Error, config_error, panic, unsupported_scheme, unexpected_status, max_bytes_exceeded, Result, ok,
  err,
}
use rlng.Config.Sources.{
  SourceKind, open_handle, close_handle, Body, Source, Provider, bytes_source,
}

pub record Response : Type 0 where
  pub status : ℤ
  pub body : Body

abbrev pub take : ℕ → List ℕ → List ℕ
take zero xs = []
take (suc n) [] = []
take (suc n) (x ∷ xs) = x ∷ take n xs

abbrev pub ended : List ℕ → Option Error → Result (List ℕ)
ended content none = ok content
ended content (some e) = err e

-- `io.ReadAll` of a body.
abbrev pub read_all : Body → Result (List ℕ)
read_all b = ended b.content b.failure

-- `io.ReadAll` of `io.LimitReader`: with no bytes allowed the end is at once, and after the last
-- allowed byte the body is not read again.
unfoldable pub read_limited : ℤ → Body → Result (List ℕ)
read_limited (negsuc n) b = ok []
read_limited (pos n) b = if leb n (length b.content) then ok (take n b.content) else read_all b

abbrev pub within_cap : ℤ → List ℕ → Result (List ℕ)
within_cap cap content =
    if ltb_ℤ cap (pos (length content)) then err (max_bytes_exceeded cap) else ok content

-- The body as `urlProvider.Source` reads it.
unfoldable pub read_capped : ℤ → Body → Result (List ℕ)
read_capped cap b = elim (read_limited (wrap64 (cap +ℤ pos 1)) b) [
  | err e ↦ err e
  | ok content ↦ within_cap cap content
]

abbrev pub default_max_bytes : ℤ
default_max_bytes = pos (5 * 1048576)

abbrev pub is_http : Text → Bool
is_http scheme = text_eq scheme (codes "http") || text_eq scheme (codes "https")

abbrev pub is_success : ℤ → Bool
is_success status = if ltb_ℤ status (pos 200) then false else ltb_ℤ status (pos 300)

abbrev pub fetched : SourceKind → Result (List ℕ) → Result (Option Source)
fetched kind (ok content) = ok (some (bytes_source content kind))
fetched kind (err e) = err (config_error [] [] e)

-- What `urlProvider.Source` makes of a response.
abbrev pub respond : ℤ → SourceKind → Response → Result (Option Source)
respond cap kind resp =
    if is_success resp.status
    then fetched kind (read_capped cap resp.body)
    else err (config_error [] [] (unexpected_status resp.status))

abbrev pub Client : Type 0 → Type 0
Client Request = Request → Result Response

pub record UrlProvider (Request : Type 0) : Type 0 where
  pub raw_url : Text
  pub kind : SourceKind
  pub client : Option (Client Request)
  pub max_bytes : ℤ

pub data UrlOption (Request : Type 0) : Type 0 where
  with_http_client : Option (Client Request) → UrlOption Request
  with_max_bytes : ℤ → UrlOption Request

module _ {Request : Type 0} where
  abbrev pub configure_url : UrlProvider Request → UrlOption Request → UrlProvider Request
  configure_url p (with_http_client none) = p
  configure_url p (with_http_client (some c)) = record p { client = some c }
  configure_url p (with_max_bytes n) = if ltb_ℤ (pos 0) n then record p { max_bytes = n } else p

  unfoldable pub configure_urls :
      UrlProvider Request → List (UrlOption Request) → UrlProvider Request
  configure_urls p [] = p
  configure_urls p (o ∷ os) = configure_urls (configure_url p o) os

  abbrev with_client : Client Request → UrlProvider Request → UrlProvider Request
  with_client default p = elim p.client [ none ↦ record p { client = some default } | some c ↦ p ]

  -- `newURLProvider`, which `FromYAMLURL` and `FromJSONURL` call.
  unfoldable pub new_url_provider :
      Client Request → Text → SourceKind → List (UrlOption Request) → UrlProvider Request
  new_url_provider default raw_url kind opts = with_client default (
      configure_urls
        (record { raw_url = raw_url; kind = kind; client = none; max_bytes = default_max_bytes })
        opts)

  -- A response's body is open from here, and closed when `Source` returns.
  abbrev pub receive : UrlProvider Request → Result Response → Provider
  receive p (err e) w = (err (config_error [] [] e), w)
  receive p (ok resp) w =
      let (h, w') = open_handle w in (respond p.max_bytes p.kind resp, close_handle h w')

  abbrev pub send : UrlProvider Request → Result Request → Provider
  send p (err e) w = (err (config_error [] [] e), w)
  send p (ok req) w = elim p.client [
    | none ↦ (err panic, w)
    | some client ↦ receive p (client req) w
  ]

  module _ (url_scheme : Text → Result Text) (new_request : Text → Result Request) where
    -- `urlProvider.Source`
    unfoldable pub from_url : UrlProvider Request → Provider
    from_url p w = elim (url_scheme p.raw_url) [
      | err e ↦ (err (config_error [] [] e), w)
      | ok scheme ↦
          if is_http scheme
          then send p (new_request p.raw_url) w
          else (err (config_error [] [] (unsupported_scheme scheme)), w)
    ]
