-- ===== src/Engine/Seed.antt =====
-- engine.go: the decimals of an input struct, which the decoder takes apart, put back into the
-- seed.
use rlng.Base.{true, false, Option, none, some, [], ◌∷◌, ◌==◌, if◌then◌else◌}
use rlng.Base.Text.{Text, is_empty}
use rlng.Value.{Value, obj, dec, Decimal, Fields}
use rlng.Value.Access.{lookup_field, insert_field}
use rlng.Value.Reflect.{
  GoValue, nil_pointer, pointer, struct, Members, no_member, member, decimal_of,
}

-- What stands before the first comma.
abbrev before_comma : Text → Text
before_comma [] = []
before_comma (c ∷ s) = if c == 44 then [] else c ∷ before_comma s

-- `mapstructureKey`
unfoldable pub mapstructure_key : Text → Text → Text
mapstructure_key name tag = let key = before_comma tag in if is_empty key then name else key

abbrev pub put_decimal : Text → Decimal → Fields → Fields
put_decimal key d m = insert_field key (dec d) m

-- The map under a key.
abbrev pub child_of : Option Value → Option Fields
child_of (some (obj m)) = some m
child_of v = none

-- `restoreDecimals`; a nested map is changed in place, so it is put back under its key.
unfoldable mutual
  pub restore_decimals : GoValue → Fields → Fields
  restore_decimals nil_pointer m = m
  restore_decimals (pointer v) m = restore_decimals v m
  restore_decimals (struct whole ms) m = restore_members ms m
  restore_decimals v m = m

  pub restore_members : Members → Fields → Fields
  restore_members no_member m = m
  restore_members (member name false tag v ms) m = restore_members ms m
  restore_members (member name true tag v ms) m = restore_members ms (elim (decimal_of v) [
    | some d ↦ put_decimal (mapstructure_key name tag) d m
    | none ↦ elim (child_of (lookup_field (mapstructure_key name tag) m)) [
      | some child ↦ insert_field (mapstructure_key name tag) (obj (restore_decimals v child)) m
      | none ↦ m
    ]
  ])
