-- ===== src/Mapper.antt =====
-- mapper.go: a Scope projected into a tree by one expression for each output path. What
-- mapstructure decodes the tree into is a parameter.
pub mod Nested
pub mod Assembled
use rlng.Base.{
  ◌<◌, ◌^◌, Bool, true, false, ◌&&◌, Option, none, some, List, [], ◌∷◌, if◌then◌else◌, map, ltb,
  leb,
}
use rlng.Base.Int.{ℤ, pos_part, neg_part}
use rlng.Base.Text.{Text, is_empty}
use rlng.Base.Dict.{Dict, lookup}
use rlng.Value.{
  Value, str, signed, unsigned, float, obj, dec, Fields, end, Decimal, Float, int64, uint64,
  float64,
}
use rlng.Value.Access.{lookup_field, insert_field}
use rlng.Error.{
  Error, mapping_error, output_conflict, empty_mapping_key, lossy_narrowing, Result, ok, err, bind,
  map_err,
}
use rlng.Expr.{Function, new_function, apply}
use rlng.Expr.Options.{Compiler, function_config}
use rlng.Scope.Path.{split_dots, child_map}
use rlng.Table.Compile.{sort_texts, keys}

pub record MappedField : Type 0 where
  pub path : Text
  pub fn : Function

-- The fields of a `Mapper`, in the order of their paths.
abbrev pub Mapper : Type 0
Mapper = List MappedField

abbrev pub template_of : Option Text → Text
template_of none = []
template_of (some t) = t

module _ (compiler : Compiler) where
  abbrev pub compile_field : Text → Text → Result MappedField
  compile_field path expression =
      if is_empty path
      then err (mapping_error path empty_mapping_key)
      else bind
          (map_err (mapping_error path)
            (new_function path expression (function_config compiler [])))
          (λ fn. ok (record { path = path; fn = fn }))

  unfoldable pub compile_paths : Dict Text → List Text → Result Mapper
  compile_paths tmpl [] = ok []
  compile_paths tmpl (p ∷ ps) =
      let rest = compile_paths tmpl ps in
      bind (compile_field p (template_of (lookup p tmpl))) (λ f. bind rest (λ fs. ok (f ∷ fs)))

  -- `NewMapper`
  unfoldable pub new_mapper : Dict Text → Result Mapper
  new_mapper tmpl = compile_paths tmpl (sort_texts (keys tmpl))

-- `setNested`, over the segments of the path. The source writes in place into the maps on the way,
-- also into one that the expression of a shorter path returned, which may be a live map of the
-- Scope; here it is the tree alone that changes, as in the source where no path leads to another.
unfoldable pub set_nested : Value → Fields → List Text → Result Fields
set_nested v out [] = ok out
set_nested v out (k ∷ []) = ok (insert_field k v out)
set_nested v out (k ∷ j ∷ ks) = elim (child_map (lookup_field k out)) [
  | none ↦ err (output_conflict k)
  | some child ↦ bind (set_nested v child (j ∷ ks)) (λ c. ok (insert_field k (obj c) out))
]

-- The loop of `Map` over the fields.
unfoldable pub project : Fields → Mapper → Fields → Result Fields
project scope [] out = ok out
project scope (f ∷ fs) out = bind (map_err (mapping_error f.path) (apply f.fn scope)) (λ v.
    bind (map_err (mapping_error f.path) (set_nested v out (split_dots f.path))) (project scope fs))

-- `Map`
unfoldable pub map_scope : {R : Type 0} → (Fields → Result R) → Mapper → Fields → Result R
map_scope decode m scope =
    bind (project scope m end) (λ out. map_err (mapping_error []) (decode out))

-- The kinds of a target field that decimalNarrowHook tells apart.
pub data TargetKind : Type 0 where
  int_target uint_target float_target string_target other_target : TargetKind

-- The operations of decimal.Decimal that the hook calls; `big_int` drops the fraction.
pub record Narrowing : Type 0 where
  pub is_integer : Decimal → Bool
  pub big_int : Decimal → ℤ
  pub inexact_float : Decimal → Float
  pub decimal_string : Decimal → Text

-- `big.Int.IsInt64`, `big.Int.IsUint64`
abbrev pub is_int64 : ℤ → Bool
is_int64 n = ltb (pos_part n) (2 ^ 63) && leb (neg_part n) (2 ^ 63)

abbrev pub is_uint64 : ℤ → Bool
is_uint64 n = ltb (pos_part n) (2 ^ 64) && leb (neg_part n) 0

module _ (q : Narrowing) where
  abbrev integer_or : Decimal → Bool → Value → Result Value
  integer_or d fits v =
      if q.is_integer d
      then if fits then ok v else err (lossy_narrowing d)
      else err (lossy_narrowing d)

  unfoldable pub narrow_decimal : TargetKind → Decimal → Result Value
  narrow_decimal int_target d = integer_or d (is_int64 (q.big_int d)) (signed int64 (q.big_int d))
  narrow_decimal uint_target d =
      integer_or d (is_uint64 (q.big_int d)) (unsigned uint64 (pos_part (q.big_int d)))
  narrow_decimal float_target d = ok (float float64 (q.inexact_float d))
  narrow_decimal string_target d = ok (str (q.decimal_string d))
  narrow_decimal other_target d = ok (dec d)

  -- `decimalNarrowHook`
  unfoldable pub decimal_narrow_hook : TargetKind → Value → Result Value
  decimal_narrow_hook to (dec d) = narrow_decimal to d
  decimal_narrow_hook to v = ok v
