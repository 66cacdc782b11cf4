-- ===== src/Mapper/Assembled.antt =====
-- What a Mapper that NewMapper makes assembles of a template none of whose paths leads to another.
use rlng.Base.{
  ◌≡◌, refl, some, List, [], ◌∷◌, ⊤, arith, All, Among, inl, inr, Bool-cases, subst, sym,
}
use rlng.Base.Text.{Text, text_lt, is_empty}
use rlng.Base.Dict.{Dict, lookup}
use rlng.Value.{Value, obj, Fields, end}
use rlng.Error.{mapping_error, ok, map_err, Cases, Result-Cases, ok_injective}
use rlng.Expr.{apply, new_function}
use rlng.Expr.Options.{Compiler, function_config}
use rlng.Scope.Path.{walk, split_dots}
use rlng.Table.Compile.{insert_sorted, sort_texts, keys}
use rlng.Mapper.{
  MappedField, Mapper, template_of, compile_field, compile_paths, new_mapper, project,
}
use rlng.Mapper.Nested.{IsSpread, AreApart, diverge_sym, segments, project-found}

-- No path is another one of the list or leads to it.
abbrev pub AreSpread : List Text → Type 0
AreSpread [] = ⊤
AreSpread (p ∷ ps) = All (λ q. AreApart p q) ps × AreSpread ps

insert-All :
    (P : Text → Type 0) (k : Text) (ks : List Text) → P k → All P ks → All P (insert_sorted k ks)
unfolding insert_sorted
insert-All P k [] h hs = (h, tt)
insert-All P k (j ∷ ks) h hs = elim (Bool-cases (text_lt j k)) [
  | inl before ↦ rw (before, insert_sorted) (hs.0, insert-All P k ks h hs.1)
  | inr after ↦ rw (after, insert_sorted) (h, hs)
]

sort_texts-All : (P : Text → Type 0) (ks : List Text) → All P ks → All P (sort_texts ks)
unfolding sort_texts
sort_texts-All P [] h = tt
sort_texts-All P (k ∷ ks) h = insert-All P k (sort_texts ks) h.0 (sort_texts-All P ks h.1)

insert-AreSpread :
    (k : Text) (ks : List Text)
    → All (λ q. AreApart k q) ks
    → AreSpread ks
    → AreSpread (insert_sorted k ks)
unfolding insert_sorted
insert-AreSpread k [] d h = (tt, tt)
insert-AreSpread k (j ∷ ks) d h = elim (Bool-cases (text_lt j k)) [
  | inl before ↦
      rw (before, insert_sorted)
        (
          insert-All (λ q. AreApart j q) k ks (diverge_sym (split_dots k) (split_dots j) d.0) h.0,
          insert-AreSpread k ks d.1 h.1,
        )
  | inr after ↦ rw (after, insert_sorted) (d, h)
]

sort_texts-AreSpread : (ks : List Text) → AreSpread ks → AreSpread (sort_texts ks)
unfolding sort_texts
sort_texts-AreSpread [] d = tt
sort_texts-AreSpread (k ∷ ks) d =
    insert-AreSpread k (sort_texts ks) (sort_texts-All _ ks d.0) (sort_texts-AreSpread ks d.1)

module _ (compiler : Compiler) where
  compile_field-path :
      (p t : Text) (f : MappedField) → compile_field compiler p t ≡ ok f → f.path ≡ p
  compile_field-path p t f h = elim (Bool-cases (is_empty p)) [
    | inl empty ↦ ground arith
    | inr named ↦
        elim (Result-Cases
          (map_err (mapping_error p) (new_function p t (function_config compiler [])))) [
            | Cases.bad x failed ↦ ground arith
            | Cases.good fn q ↦ rw (← ok_injective (rw (named, q, compile_field) at h)) refl
          ]
  ]

  compile_paths-All :
      (P : Text → Type 0) (tmpl : Dict Text) (ps : List Text) (fs : Mapper)
      → compile_paths compiler tmpl ps ≡ ok fs
      → All P ps
      → All (λ f. P f.path) fs
  unfolding compile_paths
  compile_paths-All P tmpl [] fs h d = rw (← ok_injective h) tt
  compile_paths-All P tmpl (p ∷ ps) fs h d =
      elim (Result-Cases (compile_field compiler p (template_of (lookup p tmpl)))) [
        | Cases.bad x failed ↦ ground arith
        | Cases.good f q ↦ elim (Result-Cases (compile_paths compiler tmpl ps)) [
          | Cases.bad x failed ↦ ground arith
          | Cases.good gs r ↦
              subst (All (λ g. P g.path)) (ok_injective (rw (q, r, compile_paths) at h)) (
                subst P (sym (compile_field-path p (template_of (lookup p tmpl)) f q)) d.0,
                compile_paths-All P tmpl ps gs r d.1,
              )
        ]
      ]

  compile_paths-IsSpread :
      (tmpl : Dict Text) (ps : List Text) (fs : Mapper)
      → compile_paths compiler tmpl ps ≡ ok fs
      → AreSpread ps
      → IsSpread fs
  unfolding compile_paths
  compile_paths-IsSpread tmpl [] fs h d = subst IsSpread (ok_injective h) tt
  compile_paths-IsSpread tmpl (p ∷ ps) fs h d =
      elim (Result-Cases (compile_field compiler p (template_of (lookup p tmpl)))) [
        | Cases.bad x failed ↦ ground arith
        | Cases.good f q ↦ elim (Result-Cases (compile_paths compiler tmpl ps)) [
          | Cases.bad x failed ↦ ground arith
          | Cases.good gs r ↦ subst IsSpread (ok_injective (rw (q, r, compile_paths) at h)) (
            subst (λ t. All (λ g. AreApart t g.path) gs)
                (sym (compile_field-path p (template_of (lookup p tmpl)) f q))
                (compile_paths-All (λ t. AreApart p t) tmpl ps gs r d.0),
            compile_paths-IsSpread tmpl ps gs r d.1,
          )
        ]
      ]

  -- For a template no path of which is another one or leads to it, segment by segment, every value
  -- that an expression gives, a map or not, is found in the assembled tree at the path of its field.
  pub new_mapper-found :
      (tmpl : Dict Text) (fs : Mapper) (f : MappedField) (scope n : Fields) (v : Value)
      → AreSpread (keys tmpl)
      → new_mapper compiler tmpl ≡ ok fs
      → Among f fs
      → project scope fs end ≡ ok n
      → apply f.fn scope ≡ ok v
      → walk (segments f) (obj n) ≡ some v
  unfolding new_mapper
  new_mapper-found tmpl fs f scope n v d made a h r =
      project-found scope end n fs f v
        (compile_paths-IsSpread tmpl (sort_texts (keys tmpl)) fs made
          (sort_texts-AreSpread (keys tmpl) d))
        a h r
