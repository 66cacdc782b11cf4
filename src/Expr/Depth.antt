-- ===== src/Expr/Depth.antt =====
-- expr/env.go: which environments are too deep, and what the others become.
use rlng.Base.{
  ℕ, zero, suc, ◌+◌, ◌≡◌, refl, Bool, true, false, not, ◌||◌, leb, ◌==◌, arith, if◌then◌else◌,
}
use rlng.Value.{Value, null, obj, list, Items, nil, cons, Fields, end}
use rlng.Value.Access.{insert_field}
use rlng.Value.Reflect.{
  GoValue, nil_pointer, pointer, struct, sequence, go_map, plain, Members, no_member, member,
  Elements, no_element, element, Entries, no_entry, entry, has_exported,
}
use rlng.Error.{env_too_deep, Result, ok, err}
use rlng.Expr.Env.{
  convert_value, struct_to_map, convert_elements, convert_entries, max_env_depth, to_env, pointee,
}

-- The value without a bound: structs and maps become maps, pointers what they point to.
unfoldable mutual
  pub value_of : GoValue → Value
  value_of nil_pointer = null
  value_of (pointer v) = value_of v
  value_of (struct whole ms) = if has_exported ms then obj (members_of ms end) else whole
  value_of (sequence es) = list (elements_of es)
  value_of (go_map es) = obj (entries_of es end)
  value_of (plain v) = v

  pub members_of : Members → Fields → Fields
  members_of no_member out = out
  members_of (member name true tag v ms) out = members_of ms (insert_field name (value_of v) out)
  members_of (member name false tag v ms) out = members_of ms out

  pub elements_of : Elements → Items
  elements_of no_element = nil
  elements_of (element v es) = cons (value_of v) (elements_of es)

  pub entries_of : Entries → Fields → Fields
  entries_of no_entry out = out
  entries_of (entry key v es) out = entries_of es (insert_field key (value_of v) out)

abbrev max : ℕ → ℕ → ℕ
max a b = if leb a b then b else a

-- How deep a value is below its own level: a struct in a struct counts for two levels, an element
-- of a list or an entry of a map for one, a pointer for none.
unfoldable mutual
  pub levels : GoValue → ℕ
  levels nil_pointer = 0
  levels (pointer v) = levels v
  levels (struct whole ms) = if has_exported ms then suc (member_levels ms) else 0
  levels (sequence es) = element_levels es
  levels (go_map es) = entry_levels es
  levels (plain v) = 0

  pub member_levels : Members → ℕ
  member_levels no_member = 0
  member_levels (member name true tag v ms) = max (suc (levels v)) (member_levels ms)
  member_levels (member name false tag v ms) = member_levels ms

  pub element_levels : Elements → ℕ
  element_levels no_element = 0
  element_levels (element v es) = max (suc (levels v)) (element_levels es)

  pub entry_levels : Entries → ℕ
  entry_levels no_entry = 0
  entry_levels (entry key v es) = max (suc (levels v)) (entry_levels es)

member_levels-has_exported : (ms : Members) → (0 == member_levels ms) ≡ not (has_exported ms)
unfolding member_levels
member_levels-has_exported no_member = refl
member_levels-has_exported (member name true tag v ms) = ground arith
member_levels-has_exported (member name false tag v ms) = member_levels-has_exported ms

-- The parts at `n` levels fit below a value at `depth`.
abbrev fits : ℕ → ℕ → Bool
fits n depth = (0 == n) || leb (depth + n) max_env_depth

abbrev bounded : {A : Type 0} → Bool → A → Result A
bounded b a = if b then ok a else err env_too_deep

mutual
  unfolding convert_value value_of levels

  convert_value-eq :
      (v : GoValue) (depth : ℕ)
      → convert_value v depth ≡ bounded (leb (depth + levels v) max_env_depth) (value_of v)
  convert_value-eq nil_pointer depth = ground arith
  convert_value-eq (pointer v) depth = convert_value-eq v depth
  convert_value-eq (struct whole ms) depth =
      ground (arith, struct_to_map-eq ms (suc depth) end, member_levels-has_exported ms)
  convert_value-eq (sequence es) depth = ground (arith, convert_elements-eq es depth)
  convert_value-eq (go_map es) depth = ground (arith, convert_entries-eq es depth end)
  convert_value-eq (plain v) depth = ground arith

  struct_to_map-eq :
      (ms : Members) (depth : ℕ) (out : Fields)
      → struct_to_map ms depth out ≡ bounded (fits (member_levels ms) depth) (members_of ms out)
  struct_to_map-eq no_member depth out = ground arith
  struct_to_map-eq (member name true tag v ms) depth out = ground (
    arith,
    convert_value-eq v (suc depth),
    struct_to_map-eq ms depth (insert_field name (value_of v) out),
  )
  struct_to_map-eq (member name false tag v ms) depth out = struct_to_map-eq ms depth out

  convert_elements-eq :
      (es : Elements) (depth : ℕ)
      → convert_elements es depth ≡ bounded (fits (element_levels es) depth) (elements_of es)
  convert_elements-eq no_element depth = ground arith
  convert_elements-eq (element v es) depth =
      ground (arith, convert_value-eq v (suc depth), convert_elements-eq es depth)

  convert_entries-eq :
      (es : Entries) (depth : ℕ) (out : Fields)
      → convert_entries es depth out ≡ bounded (fits (entry_levels es) depth) (entries_of es out)
  convert_entries-eq no_entry depth out = ground arith
  convert_entries-eq (entry key v es) depth out = ground (
    arith,
    convert_value-eq v (suc depth),
    convert_entries-eq es depth (insert_field key (value_of v) out),
  )

-- A value behind a number of pointers.
abbrev pub behind : ℕ → GoValue → GoValue
behind zero v = v
behind (suc n) v = pointer (behind n v)

pointee-behind :
    (n : ℕ) (whole : Value) (ms : Members)
    → pointee (behind n (struct whole ms)) ≡ struct_to_map ms 0 end
unfolding pointee
pointee-behind zero whole ms = refl
pointee-behind (suc n) whole ms = pointee-behind n whole ms

-- A struct, given itself or behind any number of pointers, becomes the map of its exported members
-- as they are without a bound when they are at most 1000 levels deep, where a struct in a struct
-- counts for two levels, and is refused as too deep otherwise.
pub to_env-eq :
    (n : ℕ) (whole : Value) (ms : Members)
    → to_env (behind n (struct whole ms))
      ≡ (if leb (member_levels ms) 1000 then ok (members_of ms end) else err env_too_deep)
unfolding to_env
to_env-eq zero whole ms = ground (arith, pointee-behind 0 whole ms, struct_to_map-eq ms 0 end)
to_env-eq (suc n) whole ms =
    ground (arith, pointee-behind (suc n) whole ms, struct_to_map-eq ms 0 end)
