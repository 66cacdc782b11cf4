-- ===== src/Expr/Env.antt =====
-- expr/env.go: an environment of any type as a map from names to values, and the bound on its
-- nesting.
use rlng.Base.{ℕ, suc, Bool, true, false, [], ltb, if◌then◌else◌}
use rlng.Value.{Value, Arith, null, obj, list, Items, nil, cons, Fields, end}
use rlng.Value.Access.{insert_field}
use rlng.Value.Reflect.{
  GoValue, nil_pointer, pointer, struct, sequence, go_map, plain, Members, no_member, member,
  Elements, no_element, element, Entries, no_entry, entry, has_exported,
}
use rlng.Error.{env_too_deep, env_not_struct, eval_error, Result, ok, err, bind}
use rlng.Expr.{Function, Predicate, apply, test}

abbrev pub max_env_depth : ℕ
max_env_depth = 1000

abbrev within_depth {ℓ} : {A : Type ℓ} → ℕ → Result A → Result A
within_depth depth r = if ltb max_env_depth depth then err env_too_deep else r

-- `convertValue` and `structToMap`; the members, elements and entries of a value at `depth`.
unfoldable mutual
  pub convert_value : GoValue → ℕ → Result Value
  convert_value nil_pointer depth = within_depth depth (ok null)
  convert_value (pointer v) depth = convert_value v depth
  convert_value (struct whole ms) depth =
      let converted = struct_to_map ms (suc depth) end in
      within_depth depth (if has_exported ms then bind converted (λ m. ok (obj m)) else ok whole)
  convert_value (sequence es) depth =
      within_depth depth (bind (convert_elements es depth) (λ vs. ok (list vs)))
  convert_value (go_map es) depth =
      within_depth depth (bind (convert_entries es depth end) (λ m. ok (obj m)))
  convert_value (plain v) depth = within_depth depth (ok v)

  pub struct_to_map : Members → ℕ → Fields → Result Fields
  struct_to_map no_member depth out = ok out
  struct_to_map (member name true tag v ms) depth out = elim (convert_value v (suc depth)) [
    | err e ↦ err e
    | ok cv ↦ struct_to_map ms depth (insert_field name cv out)
  ]
  struct_to_map (member name false tag v ms) depth out = struct_to_map ms depth out

  pub convert_elements : Elements → ℕ → Result Items
  convert_elements no_element depth = ok nil
  convert_elements (element v es) depth = elim (convert_value v (suc depth)) [
    | err e ↦ err e
    | ok cv ↦ bind (convert_elements es depth) (λ vs. ok (cons cv vs))
  ]

  pub convert_entries : Entries → ℕ → Fields → Result Fields
  convert_entries no_entry depth out = ok out
  convert_entries (entry key v es) depth out = elim (convert_value v (suc depth)) [
    | err e ↦ err e
    | ok cv ↦ convert_entries es depth (insert_field key cv out)
  ]

-- The loop over pointers of `toEnv`, and what follows it.
unfoldable pub pointee : GoValue → Result Fields
pointee nil_pointer = ok end
pointee (pointer v) = pointee v
pointee (struct whole ms) = struct_to_map ms 0 end
pointee v = err env_not_struct

-- `toEnv`; a map[string]any is a `plain` value.
unfoldable pub to_env : GoValue → Result Fields
to_env (plain null) = ok end
to_env (plain (obj m)) = ok m
to_env (plain v) = err env_not_struct
to_env v = pointee v

-- `Function.Apply` and `Predicate.Test` on an environment of any type.
unfoldable pub apply_env : Function → GoValue → Result Value
apply_env f env = elim (to_env env) [
  | err e ↦ err (eval_error f.name f.expression e)
  | ok m ↦ apply f m
]

unfoldable pub test_env : Arith → Predicate → GoValue → Result Bool
test_env ops p env = elim (to_env env) [
  | err e ↦ err (eval_error [] p.expression e)
  | ok m ↦ test ops p m
]
