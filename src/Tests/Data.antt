-- ===== src/Tests/Data.antt =====
-- Small tables, expressions and scopes. The arithmetic is exact on whole numbers.
use rlng.Base.{ℕ, ◌+◌, Bool, true, false, none, List, [], ◌∷◌, ltb, ◌==◌, if◌then◌else◌, String}
use rlng.Base.Int.{ℤ, pos, pos_part, ◌+ℤ◌, ltb_ℤ, eqb_ℤ}
use rlng.Base.Text.{Text, codes}
use rlng.Value.{
  Value, bool, signed, int, obj, Fields, end, field, Decimal, Sign, minus, zero, plus, Arith,
}
use rlng.Error.{ok}
use rlng.Expr.{Function, Predicate}
use rlng.Numeric.{aggregate_sum}
use rlng.Scope.{Scope, blank_scope}
use rlng.Table.{HitPolicy, CompiledRule, DecisionTable}

abbrev whole : ℤ → Decimal
whole n = record { coefficient = n; exponent = pos 0 }

abbrev sign_of : ℤ → ℤ → Sign
sign_of a b = if ltb_ℤ a b then minus else if ltb_ℤ b a then plus else zero

abbrev pub exact : Arith
exact = record {
  float_of_int = pos_part;
  float_add = λ a b. a + b;
  float_lt = ltb;
  float_eq = λ a b. a == b;
  decimal_of_int = whole;
  decimal_of_float = λ f. whole (pos f);
  decimal_add = λ a b. whole (a.coefficient +ℤ b.coefficient);
  decimal_cmp = λ a b. sign_of a.coefficient b.coefficient;
  decimal_equal = λ a b. eqb_ℤ a.coefficient b.coefficient;
}

abbrev pub number_value : ℕ → Value
number_value n = signed int (pos n)

abbrev pub constant : Value → Function
constant v = record {
  name = codes "k";
  expression = codes "k";
  program = λ env. ok v;
  fallback = none;
  fallback_src = [];
  refs = [];
  fallback_on_nil = false;
}

abbrev pub when : Bool → Predicate
when b = record { expression = codes "p"; program = λ env. ok (bool b); coerce = false; refs = [] }

abbrev pub rule : Bool → ℕ → CompiledRule
rule b n = record {
  id = codes "r";
  message = [];
  cond = when b;
  decisions = record { key = codes "v"; fn = constant (number_value n) } ∷ [];
}

abbrev pub table : String → HitPolicy → List CompiledRule → List Text → DecisionTable
table name policy rules deps = record {
  name = codes name;
  deps = deps;
  hit_policy = policy;
  aggregation = aggregate_sum;
  rules = rules;
  defaults = [];
}

-- `{"in": {"x": 7}}`
abbrev pub given : Fields
given = field (codes "in") (obj (field (codes "x") (number_value 7) end)) end

abbrev pub scope : Scope
scope = record blank_scope { store = given }

abbrev pub strict_scope : Scope
strict_scope = record blank_scope { store = given; strict = true }
