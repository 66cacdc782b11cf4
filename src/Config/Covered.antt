-- ===== src/Config/Covered.antt =====
-- What a table without findings is like.
use rlng.Base.{
  ℕ, suc, ◌≤◌, ◌≡◌, ◌≢◌, ◌⊎◌, inl, inr, refl, ap, true, false, none, some, List, [], ◌∷◌, ◌++◌,
  arith, All, Bool-cases, Option-cases,
}
use rlng.Base.Text.{Text}
use rlng.Config.{RuleDef, StageFields}
use rlng.Config.Lint.{
  is_first_match, is_catch_all, catch_all_from, unreachable_from, lint_rules, lint_table,
}

abbrev pub IsGuarded : RuleDef → Type 0
IsGuarded r = is_catch_all r.condition.expression ≡ false

-- The last rule, and no other, is a catch-all.
abbrev pub EndsInCatchAll : List RuleDef → Type 0
EndsInCatchAll rs =
    (front : List RuleDef) × (r : RuleDef) × (rs ≡ front ++ r ∷ [])
    × All IsGuarded front
    × (is_catch_all r.condition.expression ≡ true)

none-IsGuarded : (i : ℕ) (rs : List RuleDef) → catch_all_from i rs ≡ none → All IsGuarded rs
unfolding catch_all_from
none-IsGuarded i [] h = tt
none-IsGuarded i (r ∷ rs) h = (ground arith, none-IsGuarded (suc i) rs (ground arith))

catch_all_from-le : (i j : ℕ) (rs : List RuleDef) → catch_all_from i rs ≡ some j → i ≤ j
unfolding catch_all_from
catch_all_from-le i j [] h = ground arith
catch_all_from-le i j (r ∷ rs) h = ground (arith, catch_all_from-le (suc i) j rs)

after_catch_all :
    (stage : Text) (i : ℕ) (rs : List RuleDef) → unreachable_from stage i (suc i) rs ≡ [] → rs ≡ []
unfolding unreachable_from
after_catch_all stage i [] h = refl
after_catch_all stage i (r ∷ rs) h = ground arith

some-EndsInCatchAll :
    (stage : Text) (i j : ℕ) (rs : List RuleDef)
    → catch_all_from i rs ≡ some j
    → unreachable_from stage j i rs ≡ []
    → EndsInCatchAll rs
unfolding catch_all_from unreachable_from
some-EndsInCatchAll stage i j [] h e = ground arith
some-EndsInCatchAll stage i j (r ∷ rs) h e =
    elim (Bool-cases (is_catch_all r.condition.expression)) [
      | inl all ↦ ([], r, ap (λ x. r ∷ x) (after_catch_all stage i rs (ground arith)), tt, all)
      | inr guarded ↦
          let found : catch_all_from (suc i) rs ≡ some j = ground arith in
          let (front, last, eq, fs, all) =
            some-EndsInCatchAll stage (suc i) j rs found
              (ground (arith, catch_all_from-le (suc i) j rs)) in
          (r ∷ front, last, ap (λ x. r ∷ x) eq, (guarded, fs), all)
    ]

-- A table of the policy single or unique on which lint finds nothing either ends in its only
-- catch-all rule, or has no catch-all rule but decisions for the case that no rule matches.
pub lint_table-EndsInCatchAll :
    (d : StageFields)
    → is_first_match d.hit_policy ≡ true
    → lint_table d ≡ []
    → EndsInCatchAll d.rules ⊎ (All IsGuarded d.rules × (d.default ≢ []))
unfolding lint_table
lint_table-EndsInCatchAll d first clean = elim (Option-cases (catch_all_from 0 d.rules)) [
  | inl no_catch_all ↦ inr (none-IsGuarded 0 d.rules no_catch_all, ground arith)
  | inr (j, found) ↦
      inl (some-EndsInCatchAll d.name 0 j d.rules found (rw (first, found, lint_rules) at clean))
]
