-- ===== src/Config/Sources.antt =====
-- config/source.go and providers.go: a document to parse and what provides it. The opened files
-- and response bodies are counted in a World; what a file holds is a parameter. A path is split as
-- on Unix, and lower case is taken on ASCII, which decides the same extensions.
use rlng.Base.{
  ℕ, suc, ◌+◌, Bool, false, ◌&&◌, ◌||◌, not, Option, none, some, List, [], ◌∷◌, leb, ◌==◌,
  if◌then◌else◌,
}
use rlng.Base.Text.{Text, codes, is_empty, text_eq}
use rlng.Error.{Error, config_error, unsupported_extension, Result, ok, err}

pub data SourceKind : Type 0 where
  unspecified yaml json : SourceKind

-- `SourceKind.String`
unfoldable pub kind_text : SourceKind → Text
kind_text yaml = codes "yaml"
kind_text json = codes "json"
kind_text unspecified = codes "unspecified"

-- The handles that are open, and the number of the next one.
pub record World : Type 0 where
  pub handles : List ℕ
  pub next : ℕ

abbrev pub open_handle : World → ℕ × World
open_handle w = (w.next, record { handles = w.next ∷ w.handles; next = suc w.next })

abbrev pub without : ℕ → List ℕ → List ℕ
without h [] = []
without h (k ∷ ks) = if h == k then ks else k ∷ without h ks

abbrev pub close_handle : ℕ → World → World
close_handle h w = record w { handles = without h w.handles }

-- What a reader yields: its bytes, and the failure that follows them in place of the end. The
-- failure comes on a read of its own.
pub record Body : Type 0 where
  pub content : List ℕ
  pub failure : Option Error

-- `handle` is present when the reader's type is an io.Closer.
pub record Reader : Type 0 where
  pub body : Body
  pub handle : Option ℕ

pub record Source : Type 0 where
  pub reader : Reader
  pub kind : SourceKind

-- A provider may report success and yield no Source.
abbrev pub Provider : Type 0
Provider = World → Result (Option Source) × World

abbrev pub bytes_source : List ℕ → SourceKind → Source
bytes_source content kind = record {
  reader = record { body = record { content = content; failure = none }; handle = none };
  kind = kind;
}

-- `staticProvider`
abbrev pub static_provider : Source → Provider
static_provider src w = (ok (some src), w)

-- `FromYAMLBytes` and `FromJSONBytes`
unfoldable pub from_bytes : SourceKind → List ℕ → Provider
from_bytes kind content = static_provider (bytes_source content kind)

-- `nopReader`
abbrev pub nop_reader : Reader → Reader
nop_reader r = record r { handle = none }

-- `FromReader`
unfoldable pub from_reader : Reader → SourceKind → Provider
from_reader r kind = static_provider (record { reader = nop_reader r; kind = kind })

abbrev has_code : ℕ → Text → Bool
has_code c [] = false
has_code c (d ∷ s) = c == d || has_code c s

-- `filepath.Ext`
unfoldable pub extension : Text → Text
extension [] = []
extension (c ∷ s) =
    let rest = extension s in
    if is_empty rest && c == 46 && not (has_code 47 s) then c ∷ s else rest

-- `strings.ToLower`
abbrev pub to_lower : Text → Text
to_lower [] = []
to_lower (c ∷ s) = (if leb 65 c && leb c 90 then c + 32 else c) ∷ to_lower s

unfoldable pub kind_of_extension : Text → Option SourceKind
kind_of_extension ext =
    let low = to_lower ext in
    if text_eq low (codes ".yaml") || text_eq low (codes ".yml")
    then some yaml
    else if text_eq low (codes ".json")
    then some json
    else none

abbrev pub file_kind : Text → SourceKind → Result SourceKind
file_kind path yaml = ok yaml
file_kind path json = ok json
file_kind path unspecified = elim (kind_of_extension (extension path)) [
  | some kind ↦ ok kind
  | none ↦ err (config_error [] [] (unsupported_extension (extension path)))
]

module _ (open_file : Text → Result Body) where
  -- `fileProvider.Source` once the kind is known: an opened file, which is an io.Closer.
  abbrev pub open_source : Text → SourceKind → Provider
  open_source path kind w = elim (open_file path) [
    | err e ↦ (err (config_error [] [] e), w)
    | ok body ↦
        let (h, w') = open_handle w in
        (ok (some (record { reader = record { body = body; handle = some h }; kind = kind })), w')
  ]

  -- `FromFile` is at `unspecified`, `FromYAMLFile` at `yaml`, `FromJSONFile` at `json`.
  unfoldable pub from_file : SourceKind → Text → Provider
  from_file kind path w = elim (file_kind path kind) [
    | err e ↦ (err e, w)
    | ok k ↦ open_source path k w
  ]
