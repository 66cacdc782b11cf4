-- ===== src/Config/Fetched.antt =====
-- config/urlsource.go, providers.go and parse.go: what a fetch and an opened file come to.
use rlng.Base.{
  ℕ, zero, suc, ap, inl, inr, Bool-cases, Option-cases, ◌==◌, ==_iff, ◌-◌, ◌^◌, ◌≤◌, ◌<◌, ◌≡◌, refl,
  true, none, some, List, [], ◌∷◌, length, leb, if◌then◌else◌, arith,
}
use rlng.Base.Int.{pos, ◌+ℤ◌, ltb_ℤ, wrap64}
use rlng.Base.Text.{Text}
use rlng.Error.{max_bytes_exceeded, ok, err}
use rlng.Config.Sources.{SourceKind, Body}
use rlng.Config.Urls.{
  Client, UrlProvider, UrlOption, with_http_client, with_max_bytes, configure_url, configure_urls,
  new_url_provider, default_max_bytes, read_limited, read_capped, read_all, take,
}

length-take : (n : ℕ) (xs : List ℕ) → n ≤ length xs → length (take n xs) ≡ n
length-take zero xs h = refl
length-take (suc n) [] h = omega (arith, h)
length-take (suc n) (x ∷ xs) h = ap suc (length-take n xs (omega (arith, h)))

read_within :
    (cap : ℕ) (b : Body)
    → cap < 2 ^ 63 - 1
    → read_capped (pos cap) b
      ≡ (if leb (length b.content) cap then read_all b else err (max_bytes_exceeded (pos cap)))
unfolding read_capped read_limited wrap64 ◌+ℤ◌
read_within cap b k = elim (Bool-cases (leb (suc cap) (length b.content))) [
  | inl e ↦ ground (arith, length-take (suc cap) b.content (ground arith))
  | inr e ↦ elim (Option-cases b.failure) [ inl f ↦ ground arith | inr (x, f) ↦ ground arith ]
]

read_capped-empty : (b : Body) → read_capped (pos (2 ^ 63 - 1)) b ≡ ok []
unfolding read_capped read_limited wrap64 ◌+ℤ◌
read_capped-empty b = ground arith

-- Under a cap below 2^63 - 1, a body of at most that many bytes is read whole, with its failure if
-- it ends in one, and a longer body is refused whatever its end. Under the cap 2^63 - 1, the
-- greatest int64, one more than the cap wraps around and every body is read as empty.
pub read_capped_lem :
    (cap : ℕ) (b : Body)
    → cap < 2 ^ 63
    → read_capped (pos cap) b ≡ (
        if cap == 2 ^ 63 - 1
        then ok []
        else if leb (length b.content) cap
        then read_all b
        else err (max_bytes_exceeded (pos cap)))
read_capped_lem cap b h = elim (Bool-cases (cap == 2 ^ 63 - 1)) [
  | inl top ↦ rw top (rw ((==_iff cap (2 ^ 63 - 1)).0 top) (read_capped-empty b))
  | inr below ↦ rw below (read_within cap b (ground arith))
]

-- However the options are ordered, a URL provider has a client and a positive cap.
configure_urls-IsReady :
    {Request : Type 0} (p : UrlProvider Request) (opts : List (UrlOption Request))
    → ltb_ℤ (pos 0) p.max_bytes ≡ true
    → ltb_ℤ (pos 0) (configure_urls p opts).max_bytes ≡ true
unfolding configure_urls
configure_urls-IsReady p [] h = h
configure_urls-IsReady p (with_http_client none ∷ opts) h = configure_urls-IsReady p opts h
configure_urls-IsReady p (with_http_client (some c) ∷ opts) h =
    configure_urls-IsReady (configure_url p (with_http_client (some c))) opts h
configure_urls-IsReady p (with_max_bytes n ∷ opts) h =
    configure_urls-IsReady (configure_url p (with_max_bytes n)) opts (ground arith)

abbrev blank_url : {Request : Type 0} → Text → SourceKind → UrlProvider Request
blank_url raw_url kind = record {
  raw_url = raw_url;
  kind = kind;
  client = none;
  max_bytes = default_max_bytes;
}

pub new_url_provider-IsReady :
    {Request : Type 0} (default : Client Request) (raw_url : Text) (kind : SourceKind)
    (opts : List (UrlOption Request))
    → ltb_ℤ (pos 0) (new_url_provider default raw_url kind opts).max_bytes ≡ true
      × ((c : Client Request) × ((new_url_provider default raw_url kind opts).client ≡ some c))
unfolding new_url_provider
new_url_provider-IsReady default raw_url kind opts =
    elim (Option-cases (configure_urls (blank_url raw_url kind) opts).client) [
      | inl e ↦ rw e (configure_urls-IsReady (blank_url raw_url kind) opts refl, (default, refl))
      | inr (c, e) ↦ rw e (configure_urls-IsReady (blank_url raw_url kind) opts refl, (c, refl))
    ]
