-- ===== src/Tests/Scopes.antt =====
-- The theorems on Set and Get at concrete paths.
use rlng.Base.{◌≡◌, refl, some, inl}
use rlng.Base.Text.{text_eq, codes}
use rlng.Value.Access.{lookup_field, insert_field}
use rlng.Error.{ok}
use rlng.Scope.Path.{set_path, set_keys, split_dots, contains_dot, walk, lookup_path}
use rlng.Scope.Action.{set, get}
use rlng.Scope.Roundtrip.{get-set, get-set_kept}
use rlng.Tests.Data.{number_value, scope, strict_scope}

get_given : get (codes "in.x") scope ≡ some (number_value 7)
unfolding get lookup_path contains_dot split_dots walk lookup_field text_eq
get_given = refl

get_given_strict : get (codes "in.x") strict_scope ≡ some (number_value 7)
unfolding get lookup_path contains_dot split_dots walk lookup_field text_eq
get_given_strict = refl

set_new : (set (codes "in.y.z") (number_value 3) scope).0 ≡ ok tt
unfolding set set_path set_keys split_dots lookup_field insert_field text_eq
set_new = refl

get-set_example :
    get (codes "in.y.z") (set (codes "in.y.z") (number_value 3) scope).1 ≡ some (number_value 3)
get-set_example = get-set (codes "in.y.z") (number_value 3) scope set_new

get-set_kept_example :
    get (codes "in.x") (set (codes "in.x") (number_value 3) strict_scope).1 ≡ some (number_value 7)
get-set_kept_example =
    get-set_kept (codes "in.x") (codes "in.x") (number_value 3) (number_value 7) strict_scope
      get_given_strict refl (inl refl)
