-- ===== src/Tests/Mappers.antt =====
-- A template of two paths, the second below nothing of the first.
use rlng.Base.{◌≡◌, refl, inl, false, none, some, [], ◌∷◌, arith}
use rlng.Base.Text.{Text, codes, text_eq, text_lt}
use rlng.Base.Dict.{Dict, lookup}
use rlng.Value.{str, obj, Fields, end, field}
use rlng.Value.Access.{lookup_field, insert_field}
use rlng.Error.{ok}
use rlng.Expr.{apply, new_function, trim_space}
use rlng.Expr.Options.{Compiler, function_config, new_config, configure_all}
use rlng.Scope.Path.{walk, split_dots}
use rlng.Table.Compile.{keys, sort_texts, insert_sorted}
use rlng.Mapper.{MappedField, Mapper, compile_paths, new_mapper, set_nested, project}
use rlng.Mapper.Nested.{segments}
use rlng.Mapper.Assembled.{AreSpread, new_mapper-found}

-- Every expression gives its own source.
abbrev pub quoting : Compiler
quoting = record {
  compile_function = λ env globals locals src. ok (λ scope. ok (str src));
  compile_predicate = λ env globals locals coerce src. ok (λ scope. ok (str src));
  references = λ src. [];
}

abbrev template : Dict Text
template = (codes "t.b", codes "y") ∷ (codes "t.a", codes "x") ∷ []

abbrev quoted : Text → Text → MappedField
quoted path src = record {
  path = path;
  fn = record {
    name = path;
    expression = src;
    program = λ scope. ok (str src);
    fallback = none;
    fallback_src = [];
    refs = [];
    fallback_on_nil = false;
  };
}

abbrev mapper : Mapper
mapper = quoted (codes "t.a") (codes "x") ∷ quoted (codes "t.b") (codes "y") ∷ []

mapper-made : new_mapper quoting template ≡ ok mapper
unfolding new_mapper compile_paths new_function function_config new_config configure_all sort_texts
    insert_sorted lookup text_eq text_lt trim_space
mapper-made = refl

abbrev projected : Fields
projected =
    field (codes "t")
      (obj (field (codes "a") (str (codes "x")) (field (codes "b") (str (codes "y")) end))) end

projected-made : project end mapper end ≡ ok projected
unfolding project apply set_nested split_dots lookup_field insert_field text_eq
projected-made = refl

applied : apply (quoted (codes "t.a") (codes "x")).fn end ≡ ok (str (codes "x"))
unfolding apply
applied = refl

spread : AreSpread (keys template)
unfolding text_eq split_dots
spread = ground arith

new_mapper-found_example :
    walk (segments (quoted (codes "t.a") (codes "x"))) (obj projected) ≡ some (str (codes "x"))
new_mapper-found_example =
    new_mapper-found quoting template mapper (quoted (codes "t.a") (codes "x")) end projected
      (str (codes "x")) spread mapper-made (inl refl) projected-made applied
