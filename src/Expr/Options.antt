-- ===== src/Expr/Options.antt =====
-- expr/options.go: the options of an expression and the settings that they make. The observer of a
-- fallback, the kind of a result and host functions are left out: no definition of config/ sets them.
use rlng.Base.{Bool, true, false, Option, none, some, List, [], ◌∷◌}
use rlng.Base.Text.{Text}
use rlng.Value.{Fields, end, field}
use rlng.Value.Access.{insert_field}
use rlng.Error.{Result}
use rlng.Expr.{Config, Program}

-- `config`
pub record Settings : Type 0 where
  pub globals : Fields
  pub locals : Fields
  pub coerce : Bool
  pub fallback : Text
  pub fallback_on_nil : Bool
  pub env : Option Fields

pub data ExprOption : Type 0 where
  with_globals with_locals with_env : Fields → ExprOption
  with_fallback : Text → ExprOption
  with_coerce with_fallback_on_nil : ExprOption

-- `mergeInto`: the last value of a key wins.
unfoldable pub merge_into : Fields → Fields → Fields
merge_into dst end = dst
merge_into dst (field k v src) = merge_into (insert_field k v dst) src

abbrev configure : Settings → ExprOption → Settings
configure c (with_globals vars) = record c { globals = merge_into c.globals vars }
configure c (with_locals vars) = record c { locals = merge_into c.locals vars }
configure c (with_env vars) = record c { env = some vars }
configure c (with_fallback expression) = record c { fallback = expression }
configure c with_coerce = record c { coerce = true }
configure c with_fallback_on_nil = record c { fallback_on_nil = true }

unfoldable pub configure_all : Settings → List ExprOption → Settings
configure_all c [] = c
configure_all c (o ∷ os) = configure_all (configure c o) os

-- `newConfig`
unfoldable pub new_config : List ExprOption → Settings
new_config opts =
    configure_all
      (record {
        globals = end;
        locals = end;
        coerce = false;
        fallback = [];
        fallback_on_nil = false;
        env = none;
      })
      opts

-- `strictEnv`, over the declared environment.
unfoldable pub strict_env : Settings → Fields → Fields
strict_env c env = merge_into (merge_into (merge_into end env) c.globals) c.locals

-- What `exprlang.Compile` returns for a Function and for a Predicate, under the environment that an
-- expression is checked against and the variables that it may fall back on.
pub record Compiler : Type 0 where
  pub compile_function : Option Fields → (globals locals : Fields) → Text → Result Program
  pub compile_predicate : Option Fields → (globals locals : Fields) → Bool → Text → Result Program
  pub references : Text → List Text

abbrev checked_env : Settings → Option Fields → Option Fields
checked_env c none = none
checked_env c (some env) = some (strict_env c env)

module _ (compiler : Compiler) where
  abbrev settled : Settings → (Text → Result Program) → Config
  settled c compile = record {
    coerce = c.coerce;
    fallback = c.fallback;
    fallback_on_nil = c.fallback_on_nil;
    compile = compile;
    references = compiler.references;
  }

  abbrev function_of : Settings → Config
  function_of c = settled c (compiler.compile_function (checked_env c c.env) c.globals c.locals)

  abbrev predicate_of : Settings → Config
  predicate_of c =
      settled c (compiler.compile_predicate (checked_env c c.env) c.globals c.locals c.coerce)

  unfoldable pub function_config : List ExprOption → Config
  function_config opts = function_of (new_config opts)

  unfoldable pub predicate_config : List ExprOption → Config
  predicate_config opts = predicate_of (new_config opts)
