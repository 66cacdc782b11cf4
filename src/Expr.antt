-- ===== src/Expr.antt =====
-- expr/function.go and expr/predicate.go. Compilation and the virtual machine are
-- github.com/expr-lang/expr: a compiled program is the function that running it gives, and what the
-- compiler returns under a set of options is a field of those options.
pub mod Fallback
pub mod Env
pub mod Decimal
pub mod Depth
pub mod Options
pub mod References
use rlng.Base.{
  ℕ, Bool, true, false, ◌&&◌, ◌||◌, not, Option, none, some, List, [], ◌∷◌, ◌==◌, leb,
  if◌then◌else◌, ◌++◌,
}
use rlng.Base.Int.{ℤ, eqb_ℤ, pos}
use rlng.Base.Text.{Text, text_eq, is_empty, codes}
use rlng.Value.{
  Value, null, bool, str, signed, unsigned, float, number, list, obj, Fields, end, Items, nil, cons,
  field, Arith, is_finite,
}
use rlng.Error.{
  Error, not_bool, joined, eval_error, compile_error, empty_expression, Result, ok, err, bind,
  map_err,
}

-- `exprlang.Run` of a `*vm.Program` on an environment.
abbrev pub Program : Type 0
Program = Fields → Result Value

-- The options of an expression that the code itself reads, what `exprlang.Compile` returns under
-- them, and the paths that `references` finds in a source.
pub record Config : Type 0 where
  pub coerce : Bool
  pub fallback : Text
  pub fallback_on_nil : Bool
  pub compile : Text → Result Program
  pub references : Text → List Text

pub record Function : Type 0 where
  pub name : Text
  pub expression : Text
  pub program : Program
  pub fallback : Option Program
  pub fallback_src : Text
  pub refs : List Text
  pub fallback_on_nil : Bool

pub record Predicate : Type 0 where
  pub expression : Text
  pub program : Program
  pub coerce : Bool
  pub refs : List Text

-- `unicode.IsSpace`
abbrev is_space : ℕ → Bool
is_space c =
    (leb 9 c && leb c 13)
    || c == 32
    || c == 0x85
    || c == 0xa0
    || c == 0x1680
    || (leb 0x2000 c && leb c 0x200a)
    || c == 0x2028
    || c == 0x2029
    || c == 0x202f
    || c == 0x205f
    || c == 0x3000

trim_left : Text → Text
trim_left [] = []
trim_left (c ∷ s) = let rest = trim_left s in if is_space c then rest else c ∷ s

abbrev keep_unless_blank : ℕ → Text → Text
keep_unless_blank c [] = if is_space c then [] else c ∷ []
keep_unless_blank c (d ∷ s) = c ∷ d ∷ s

trim_right : Text → Text
trim_right [] = []
trim_right (c ∷ s) = keep_unless_blank c (trim_right s)

-- `strings.TrimSpace`
unfoldable pub trim_space : Text → Text
unfolding trim_left trim_right
trim_space s = trim_right (trim_left s)

abbrev set_fallback : Function → Config → Text → Result Function
set_fallback fn cfg [] = ok fn
set_fallback fn cfg (c ∷ fb) = elim (cfg.compile (c ∷ fb)) [
  | err e ↦ err (compile_error fn.name cfg.fallback e)
  | ok program ↦ ok (record fn { fallback = some program; fallback_src = cfg.fallback })
]

-- `NewFunction`
unfoldable pub new_function : Text → Text → Config → Result Function
new_function name expression cfg =
    let src = trim_space expression in
    if is_empty src
    then err (compile_error name expression empty_expression)
    else bind (map_err (compile_error name expression) (cfg.compile src)) (λ program.
      set_fallback
        (record {
          name = name;
          expression = expression;
          program = program;
          fallback = none;
          fallback_src = [];
          refs = cfg.references src;
          fallback_on_nil = cfg.fallback_on_nil;
        })
        cfg (trim_space cfg.fallback))

abbrev cause_of : Option Error → Error → Error
cause_of none e = e
cause_of (some main) e = joined main e

-- `runFallback`: over an empty environment, with the error that it masks, if any.
unfoldable pub run_fallback : Function → Program → Option Error → Result Value
run_fallback f fallback main =
    map_err (λ e. eval_error f.name f.fallback_src (cause_of main e)) (fallback end)

abbrev pub is_null : Value → Bool
is_null null = true
is_null v = false

-- `Function.Apply`; the observer of a masked error is left out.
unfoldable pub apply : Function → Fields → Result Value
apply f env = elim (f.program env) [
  | err e ↦ elim f.fallback [
    | none ↦ err (eval_error f.name f.expression e)
    | some fallback ↦ run_fallback f fallback (some e)
  ]
  | ok v ↦ elim f.fallback [
    | none ↦ ok v
    | some fallback ↦ if is_null v && f.fallback_on_nil then run_fallback f fallback none else ok v
  ]
]

-- `NewPredicate`
unfoldable pub new_predicate : Text → Config → Result Predicate
new_predicate expression cfg =
    let src = trim_space expression in
    if is_empty src
    then err (compile_error [] expression empty_expression)
    else bind (map_err (compile_error [] expression) (cfg.compile src)) (λ program. ok (record {
      expression = expression;
      program = program;
      coerce = cfg.coerce;
      refs = cfg.references src;
    }))

abbrev one_of : Text → List Text → Bool
one_of s [] = false
one_of s (t ∷ ts) = text_eq s t || one_of s ts

-- `strconv.ParseBool`
unfoldable pub parse_bool : Text → Option Bool
parse_bool s =
    if one_of s
      (codes "1" ∷ codes "t" ∷ codes "T" ∷ codes "TRUE" ∷ codes "true" ∷ codes "True" ∷ [])
    then some true
    else if one_of s
        (codes "0" ∷ codes "f" ∷ codes "F" ∷ codes "FALSE" ∷ codes "false" ∷ codes "False" ∷ [])
    then some false
    else none

abbrev truthy_text : Text → Bool
truthy_text s = elim (parse_bool s) [ some b ↦ b | none ↦ not (is_empty s) ]

abbrev has_items : Items → Bool
has_items nil = false
has_items (cons v vs) = true

abbrev has_fields : Fields → Bool
has_fields end = false
has_fields (field k v m) = true

module _ (ops : Arith) where
  unfoldable pub truthy : Value → Result Bool
  truthy null = ok false
  truthy (bool b) = ok b
  truthy (str s) = ok (truthy_text (trim_space s))
  truthy (number s) = ok (truthy_text (trim_space s))
  truthy (signed k n) = ok (not (eqb_ℤ n (pos 0)))
  truthy (unsigned k u) = ok (not (u == 0))
  truthy (float k f) = ok (not (ops.float_eq f 0) && is_finite f)
  truthy (list xs) = ok (has_items xs)
  truthy (obj m) = ok (has_fields m)
  truthy v = err (not_bool v)

  abbrev strict_bool : Value → Result Bool
  strict_bool (bool b) = ok b
  strict_bool v = err (not_bool v)

  -- `Predicate.Test`
  unfoldable pub test : Predicate → Fields → Result Bool
  test p env =
      map_err (eval_error [] p.expression)
        (bind (p.program env) (if p.coerce then truthy else strict_bool))
