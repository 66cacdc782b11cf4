-- ===== src/Value/Reflect.antt =====
-- Go values of static types, as package reflect shows them to expr/env.go and engine.go. A value
-- is finite: no pointer leads back to it.
use rlng.Base.{Bool, false, ◌||◌, Option, none, some}
use rlng.Base.Text.{Text}
use rlng.Value.{Value, dec, Decimal}

-- `plain` is a value of any other kind, one in an interface included; a struct stands beside the
-- value that it is as a whole. A member has its name, whether it is exported, and its
-- `mapstructure` tag; an entry has its key as `fmt.Sprint` prints it.
mutual
  pub data GoValue : Type 0 where
    nil_pointer : GoValue
    pointer : GoValue → GoValue
    struct : Value → Members → GoValue
    sequence : Elements → GoValue
    go_map : Entries → GoValue
    plain : Value → GoValue

  pub data Members : Type 0 where
    no_member : Members
    member : (name : Text) (exported : Bool) (tag : Text) → GoValue → Members → Members

  pub data Elements : Type 0 where
    no_element : Elements
    element : GoValue → Elements → Elements

  pub data Entries : Type 0 where
    no_entry : Entries
    entry : Text → GoValue → Entries → Entries

-- A value whose type is decimal.Decimal.
abbrev pub decimal_of : GoValue → Option Decimal
decimal_of (struct (dec d) ms) = some d
decimal_of v = none

-- `hasExportedFields`
abbrev pub has_exported : Members → Bool
has_exported no_member = false
has_exported (member name exported tag v ms) = exported || has_exported ms
