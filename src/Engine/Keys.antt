-- ===== src/Engine/Keys.antt =====
-- engine.go: the decimals of an input by their paths of keys, and what a map holds under such a path.
use rlng.Base.{Bool, true, false, not, ◌&&◌, ◌||◌, Option, none, some, List, [], ◌∷◌, if◌then◌else◌}
use rlng.Base.Text.{Text, text_eq}
use rlng.Value.{Value, Decimal}
use rlng.Value.Access.{lookup_field}
use rlng.Value.Reflect.{GoValue, pointer, struct, Members, no_member, member, decimal_of}
use rlng.Engine.Seed.{mapstructure_key, child_of}

-- The decimal of a value under a path of keys: through pointers, exported members and the structs
-- in them.
unfoldable mutual
  pub decimal_at : GoValue → List Text → Option Decimal
  decimal_at (pointer v) path = decimal_at v path
  decimal_at (struct whole ms) path = member_at ms path
  decimal_at v path = none

  pub member_at : Members → List Text → Option Decimal
  member_at no_member path = none
  member_at (member name exported tag v ms) [] = none
  member_at (member name exported tag v ms) (k ∷ []) =
      if exported && text_eq (mapstructure_key name tag) k
      then decimal_of v
      else member_at ms (k ∷ [])
  member_at (member name exported tag v ms) (k ∷ l ∷ path) =
      let inner = decimal_at v (l ∷ path) in
      let rest = member_at ms (k ∷ l ∷ path) in
      if exported && text_eq (mapstructure_key name tag) k
      then elim (decimal_of v) [ some d ↦ none | none ↦ inner ]
      else rest

-- What stands under a path of keys below a value.
unfoldable pub below : List Text → Option Value → Option Value
below [] o = o
below (k ∷ path) o = elim (child_of o) [ none ↦ none | some c ↦ below path (lookup_field k c) ]

-- Every key of the path but the last one holds a map.
unfoldable pub is_nested : List Text → Option Value → Bool
is_nested [] o = true
is_nested (k ∷ path) o = elim (child_of o) [
  | none ↦ false
  | some c ↦ is_nested path (lookup_field k c)
]

unfoldable pub has_key : Text → Members → Bool
has_key k no_member = false
has_key k (member name exported tag v ms) =
    (exported && text_eq (mapstructure_key name tag) k) || has_key k ms

-- No struct inside has two exported members with one key.
unfoldable mutual
  pub is_distinct : GoValue → Bool
  is_distinct (pointer v) = is_distinct v
  is_distinct (struct whole ms) = are_distinct ms
  is_distinct v = true

  pub are_distinct : Members → Bool
  are_distinct no_member = true
  are_distinct (member name exported tag v ms) =
      not (exported && has_key (mapstructure_key name tag) ms) && is_distinct v && are_distinct ms
