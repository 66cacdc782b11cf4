-- ===== src/Tests/Levels.antt =====
-- A level of a stage that reads and writes and a stage that fails.
use rlng.Base.{
  ◌≡◌, ◌≢◌, inl, inr, arith, refl, ap, ◌∙◌, sym, subst, false, Option, none, some, List, [], ◌∷◌,
}
use rlng.Base.Text.{Text, codes, text_eq}
use rlng.Value.{Fields, Value, null}
use rlng.Value.Access.{lookup_field, insert_field}
use rlng.Error.{ok, err, vm_error, eval_error}
use rlng.Expr.{apply}
use rlng.Stage.{Context, Exec, Stage}
use rlng.Single.{SingleExpr, single_stage, execute_single_expr, single_error}
use rlng.Single.Laws.{execute_single_expr-Keeps}
use rlng.Single.Local.{execute_single_expr-same}
use rlng.Scope.{Scope, snapshot}
use rlng.Scope.Action.{get, set, derive_or_set}
use rlng.Scope.Path.{lookup_path, contains_dot, walk, split_dots, set_keys, set_path}
use rlng.Pipeline.{mem_text}
use rlng.Base.Dict.{lookup, insert}
use rlng.Scope.Local.{SameAt, get-same}
use rlng.Scope.Frame.{head_segment, diverge_of_heads}
use rlng.Engine.Evaluated.{snapshot-store}
use rlng.Pipeline.Run.{run_level, first_error, time_stage}
use rlng.Pipeline.Alone.{
  AgreeFor, IsOrderOf, IgnoresOthers, IsAlone, run_level-IsAlone, first_error-run_level,
}
use rlng.Pipeline.Isolation.{IsNamespaced}
use rlng.Pipeline.Settings.{single_stage-KeepsModes}
use rlng.Tests.Data.{exact, number_value, constant, scope}

abbrev never : Context
never n = false

-- What the environment has at `in`.
abbrev input_of : Fields → Value
input_of env = elim (lookup_field (codes "in") env) [ none ↦ null | some v ↦ v ]

abbrev copier : SingleExpr
copier = record {
  name = codes "s";
  output = codes "s.x";
  deps = [];
  cond = none;
  fn = record (constant null) { program = λ env. ok (input_of env) };
}

abbrev breaker : SingleExpr
breaker = record {
  name = codes "t";
  output = codes "t";
  deps = [];
  cond = none;
  fn = record (constant null) { program = λ env. err (vm_error (codes "t")) };
}

abbrev copying : Stage
copying = single_stage exact copier

abbrev breaking : Stage
breaking = single_stage exact breaker

abbrev level : List Stage
level = copying ∷ breaking ∷ []

abbrev swapped : List Stage
swapped = breaking ∷ copying ∷ []

copying-IsNamespaced : IsNamespaced copying
unfolding head_segment
copying-IsNamespaced q ctx x apart =
    execute_single_expr-Keeps exact q copier (ctx x.asks) x.scope
      (diverge_of_heads copier.output q apart)

breaking-IsNamespaced : IsNamespaced breaking
breaking-IsNamespaced q ctx x apart =
    execute_single_expr-Keeps exact q breaker (ctx x.asks) x.scope
      (diverge_of_heads breaker.output q apart)

t-ne-s : head_segment breaking.name ≢ head_segment copying.name
unfolding head_segment
t-ne-s = λ e. ground arith

s-ne-t : head_segment copying.name ≢ head_segment breaking.name
unfolding head_segment
s-ne-t = λ e. ground arith

same_input : (a b : Scope) → AgreeFor copying level a b → SameAt (codes "in") a.store b.store
unfolding get lookup_path contains_dot head_segment
same_input a b agree = agree.1 (codes "in") (inr (λ e. ground arith, (λ e. ground arith, tt)))

same_value :
    (a b : Scope)
    → AgreeFor copying level a b
    → apply copier.fn (snapshot a) ≡ apply copier.fn (snapshot b)
unfolding apply
same_value a b agree =
    ap (λ env. apply copier.fn env) (snapshot-store a)
    ∙ ap (λ (v : Option Value). ok (elim v [ none ↦ null | some w ↦ w ])) (same_input a b agree)
    ∙ ap (λ env. apply copier.fn env) (sym (snapshot-store b))

copying-IgnoresOthers : IgnoresOthers level never copying
unfolding get lookup_path contains_dot head_segment
copying-IgnoresOthers x y agree =
    let (result, at) =
      execute_single_expr-same exact copier false x.scope y.scope refl
        (same_value x.scope y.scope agree) (ap (λ t. t.0) agree.0) (ap (λ t. t.1) agree.0)
        (agree.1 (codes "s") (inl refl)) in
    (
      result,
      λ q h.
          get-same q (execute_single_expr exact copier false x.scope).1
            (execute_single_expr exact copier false y.scope).1
            (subst
              (λ (k : Text).
                SameAt k (execute_single_expr exact copier false x.scope).1.store
                  (execute_single_expr exact copier false y.scope).1.store)
              h at),
    )

breaking-IgnoresOthers : IgnoresOthers level never breaking
unfolding execute_single_expr apply
breaking-IgnoresOthers x y agree = (refl, λ q h. agree.1 q (inl h))

abbrev begin : Exec
begin = record { scope = scope; asks = 0 }

swapped-IsOrderOf : IsOrderOf level swapped
swapped-IsOrderOf = (
  ((t-ne-s, tt), (tt, tt)),
  (breaking-IsNamespaced, (copying-IsNamespaced, tt)),
  (single_stage-KeepsModes exact breaker, (single_stage-KeepsModes exact copier, tt)),
  (inr (inl refl), (inl refl, tt)),
)

level-IsOrderOf : IsOrderOf level level
level-IsOrderOf = (
  ((s-ne-t, tt), (tt, tt)),
  (copying-IsNamespaced, (breaking-IsNamespaced, tt)),
  (single_stage-KeepsModes exact copier, (single_stage-KeepsModes exact breaker, tt)),
  (inl refl, (inr (inl refl), tt)),
)

run_level-IsAlone_example : IsAlone never copying begin (run_level never swapped [] begin)
run_level-IsAlone_example =
    run_level-IsAlone never level swapped copying begin (inr (inl refl)) swapped-IsOrderOf.0
      swapped-IsOrderOf.1 swapped-IsOrderOf.2 swapped-IsOrderOf.3 copying-IgnoresOthers

-- What the copying stage leaves, and the error of the breaking one, in the swapped order.
copied : get (codes "s.x.x") (run_level never swapped [] begin).1.scope ≡ some (number_value 7)
unfolding run_level time_stage execute_single_expr apply derive_or_set set set_path set_keys
    split_dots lookup_field insert_field text_eq get lookup_path contains_dot walk snapshot mem_text
copied = refl

broken :
    first_error level (run_level never swapped [] begin).0
    ≡ some (single_error (codes "t") (eval_error (codes "k") (codes "k") (vm_error (codes "t"))))
unfolding run_level time_stage execute_single_expr apply derive_or_set set set_path set_keys
    split_dots lookup_field insert_field text_eq snapshot first_error lookup insert mem_text
broken = refl

first_error-run_level_example :
    first_error level (run_level never swapped [] begin).0
    ≡ first_error level (run_level never level [] begin).0
first_error-run_level_example =
    first_error-run_level never level level swapped level begin swapped-IsOrderOf level-IsOrderOf (
      inl (inr (inl refl), inl refl, copying-IgnoresOthers),
      (inl (inl refl, inr (inl refl), breaking-IgnoresOthers), tt),
    )
