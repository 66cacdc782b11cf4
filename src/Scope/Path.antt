-- ===== src/Scope/Path.antt =====
-- The dot paths of pipe/scope.go: `setPath` and `lookupPath`.
use rlng.Base.{
  ℕ, Bool, false, ◌&&◌, ◌||◌, Option, none, some, List, [], ◌∷◌, ◌++◌, ◌==◌, if◌then◌else◌,
}
use rlng.Base.Text.{Text, is_empty}
use rlng.Value.{Value, obj, Fields, end}
use rlng.Value.Access.{lookup_field, insert_field, has_field}
use rlng.Error.{Error, path_conflict, path_not_map, empty_path_segment}

abbrev pub push_head : ℕ → List Text → List Text
push_head c [] = (c ∷ []) ∷ []
push_head c (w ∷ ws) = (c ∷ w) ∷ ws

-- `strings.Split(path, ".")`
unfoldable pub split_dots : Text → List Text
split_dots [] = [] ∷ []
split_dots (c ∷ s) = let rest = split_dots s in if c == b'.' then [] ∷ rest else push_head c rest

-- `strings.Contains(path, ".")`
unfoldable pub contains_dot : Text → Bool
contains_dot [] = false
contains_dot (c ∷ s) = c == b'.' || contains_dot s

-- `name + "." + key`
unfoldable pub qualify : Text → Text → Text
qualify name key = name ++ (b'.' ∷ key)

-- The map that an intermediate segment leads to, a new one if the segment is missing.
abbrev pub child_map : Option Value → Option Fields
child_map none = some end
child_map (some (obj m)) = some m
child_map (some _) = none

abbrev pub nest : Text → Fields → Fields × Option Error → Fields × Option Error
nest k m (child, e) = (insert_field k (obj child) m, e)

abbrev set_leaf : Bool → Value → Fields → Text → Fields × Option Error
set_leaf strict v m k =
    if is_empty k
    then (m, some empty_path_segment)
    else if strict && has_field k m
    then (m, some path_conflict)
    else (insert_field k v m, none)

-- `setPath` on the segments of the path. The maps that it makes stay on the error paths too. The
-- source stores a reference to a map that is written, and changes the maps on the way in place: this
-- is what it does to a tree none of whose maps is reached by two paths.
unfoldable pub set_keys : Bool → Value → Fields → List Text → Fields × Option Error
set_keys strict v m [] = (m, some empty_path_segment)
set_keys strict v m (k ∷ []) = set_leaf strict v m k
set_keys strict v m (k ∷ j ∷ ks) =
    if is_empty k then (m, some empty_path_segment) else elim (child_map (lookup_field k m)) [
      | none ↦ (m, some path_not_map)
      | some child ↦ nest k m (set_keys strict v child (j ∷ ks))
    ]

unfoldable pub set_path : Fields → Text → Value → Bool → Fields × Option Error
set_path root path v strict = set_keys strict v root (split_dots path)

abbrev pub child_value : Value → Text → Option Value
child_value (obj m) k = lookup_field k m
child_value v k = none

-- The loop of `lookupPath` over the segments.
unfoldable pub walk : List Text → Value → Option Value
walk [] v = some v
walk (k ∷ ks) v = elim (child_value v k) [ none ↦ none | some w ↦ walk ks w ]

unfoldable pub lookup_path : Fields → Text → Option Value
lookup_path m path =
    if is_empty path
    then none
    else if contains_dot path
    then walk (split_dots path) (obj m)
    else lookup_field path m
