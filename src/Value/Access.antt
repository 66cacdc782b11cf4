-- ===== src/Value/Access.antt =====
-- Reading and writing a map[string]any and a []any.
use rlng.Base.{
  ℕ, suc, ◌≡◌, refl, Bool, true, false, Option, none, some, List, [], ◌∷◌, arith, if◌then◌else◌,
}
use rlng.Base.Text.{Text, text_eq, text_eq_iff, text_eq_refl}
use rlng.Value.{Value, Items, nil, cons, Fields, end, field}

unfoldable pub lookup_field : Text → Fields → Option Value
lookup_field k end = none
lookup_field k (field j v m) = if text_eq j k then some v else lookup_field k m

unfoldable pub insert_field : Text → Value → Fields → Fields
insert_field k v end = field k v end
insert_field k v (field j w m) = if text_eq j k then field k v m else field j w (insert_field k v m)

abbrev pub has_field : Text → Fields → Bool
has_field k m = elim (lookup_field k m) [ none ↦ false | some _ ↦ true ]

unfoldable pub count_fields : Fields → ℕ
count_fields end = 0
count_fields (field k v m) = suc (count_fields m)

unfoldable pub count_items : Items → ℕ
count_items nil = 0
count_items (cons v vs) = suc (count_items vs)

unfoldable pub to_items : List Value → Items
to_items [] = nil
to_items (v ∷ vs) = cons v (to_items vs)

unfoldable pub of_items : Items → List Value
of_items nil = []
of_items (cons v vs) = v ∷ of_items vs

pub of_items-to_items : (vs : List Value) → of_items (to_items vs) ≡ vs
unfolding of_items to_items
of_items-to_items [] = refl
of_items-to_items (v ∷ vs) = ground (arith, of_items-to_items vs)

pub lookup_field-insert_field :
    (k j : Text) (v : Value) (m : Fields)
    → lookup_field j (insert_field k v m) ≡ (if text_eq k j then some v else lookup_field j m)
unfolding lookup_field insert_field
lookup_field-insert_field k j v end = refl
lookup_field-insert_field k j v (field i w m) =
    ground
      (arith, text_eq_iff k j, text_eq_iff i k, text_eq_iff i j, lookup_field-insert_field k j v m)

pub lookup_field-insert_field_self :
    (k : Text) (v : Value) (m : Fields) → lookup_field k (insert_field k v m) ≡ some v
lookup_field-insert_field_self k v m = simp (lookup_field-insert_field, text_eq_refl)
