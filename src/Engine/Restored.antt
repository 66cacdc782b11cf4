-- ===== src/Engine/Restored.antt =====
-- engine.go: every decimal of an input struct stands in the seed after restoreDecimals.
use rlng.Base.{
  ◌≡◌, refl, subst, ap, ◌∙◌, Bool, true, false, not, ◌&&◌, none, some, List, [], ◌∷◌, arith,
  Bool-cases, Option-cases, inl, inr,
}
use rlng.Base.Text.{Text, codes, text_eq, text_eq_iff, text_eq_refl}
use rlng.Value.{Value, obj, dec, Decimal, Fields}
use rlng.Value.Access.{lookup_field, insert_field, lookup_field-insert_field}
use rlng.Value.Reflect.{
  GoValue, nil_pointer, pointer, struct, sequence, go_map, plain, Members, no_member, member,
  decimal_of,
}
use rlng.Engine.Keys.{decimal_at, member_at, below, is_nested, has_key, is_distinct, are_distinct}
use rlng.Engine.Seed.{mapstructure_key, child_of, put_decimal, restore_decimals, restore_members}

-- The map after one exported member.
abbrev restored : Text → GoValue → Fields → Fields
restored key v m = elim (decimal_of v) [
  | some d ↦ put_decimal key d m
  | none ↦ elim (child_of (lookup_field key m)) [
    | some child ↦ insert_field key (obj (restore_decimals v child)) m
    | none ↦ m
  ]
]

restored-apart :
    (key k : Text) (v : GoValue) (m : Fields)
    → text_eq key k ≡ false
    → lookup_field k (restored key v m) ≡ lookup_field k m
restored-apart key k v m h = elim (Option-cases (decimal_of v)) [
  | inr (d, e) ↦ ground (arith, lookup_field-insert_field key k (dec d) m)
  | inl e ↦ elim (Option-cases (child_of (lookup_field key m))) [
    | inl f ↦ ground arith
    | inr (c, f) ↦ ground (arith, lookup_field-insert_field key k (obj (restore_decimals v c)) m)
  ]
]

-- A key that no exported member has keeps its value.
restore_members-apart :
    (k : Text) (ms : Members) (m : Fields)
    → has_key k ms ≡ false
    → lookup_field k (restore_members ms m) ≡ lookup_field k m
unfolding restore_members has_key
restore_members-apart k no_member m h = refl
restore_members-apart k (member name false tag v ms) m h = restore_members-apart k ms m h
restore_members-apart k (member name true tag v ms) m h =
    restore_members-apart k ms (restored (mapstructure_key name tag) v m) (ground arith)
    ∙ restored-apart (mapstructure_key name tag) k v m (ground arith)

and_right : (a b : Bool) → (a && b) ≡ true → b ≡ true
and_right true b h = h
and_right false b h = cc

module _ (name : Text) (exported : Bool) (tag : Text) (v : GoValue) (ms : Members) where
  are_distinct-rest : are_distinct (member name exported tag v ms) ≡ true → are_distinct ms ≡ true
  unfolding are_distinct
  are_distinct-rest h =
      and_right (not (exported && has_key (mapstructure_key name tag) ms) && is_distinct v)
        (are_distinct ms) h

  are_distinct-value : are_distinct (member name exported tag v ms) ≡ true → is_distinct v ≡ true
  unfolding are_distinct
  are_distinct-value h = ground arith

are_distinct-key :
    (name tag : Text) (v : GoValue) (ms : Members)
    → are_distinct (member name true tag v ms) ≡ true
    → has_key (mapstructure_key name tag) ms ≡ false
unfolding are_distinct
are_distinct-key name tag v ms h = ground arith

-- Its own member decides what a key holds in the end.
restore_members-own :
    (key k : Text) (v : GoValue) (ms : Members) (m : Fields)
    → text_eq key k ≡ true
    → has_key key ms ≡ false
    → lookup_field k (restore_members ms (restored key v m)) ≡ lookup_field k (restored key v m)
restore_members-own key k v ms m same h =
    restore_members-apart k ms (restored key v m)
      (subst (λ j. has_key j ms ≡ false) ((text_eq_iff key k).0 same) h)

restored-decimal :
    (key k : Text) (v : GoValue) (d : Decimal) (m : Fields)
    → text_eq key k ≡ true
    → decimal_of v ≡ some d
    → lookup_field k (restored key v m) ≡ some (dec d)
restored-decimal key k v d m same e = ground (arith, lookup_field-insert_field key k (dec d) m)

restored-child :
    (key k : Text) (v : GoValue) (c m : Fields)
    → text_eq key k ≡ true
    → decimal_of v ≡ none
    → child_of (lookup_field k m) ≡ some c
    → lookup_field k (restored key v m) ≡ some (obj (restore_decimals v c))
restored-child key k v c m same e f = ground (
  arith,
  text_eq_iff key k,
  ap (λ j. child_of (lookup_field j m)) ((text_eq_iff key k).0 same),
  lookup_field-insert_field key k (obj (restore_decimals v c)) m,
)

mutual
  unfolding restore_decimals restore_members decimal_at is_distinct below is_nested

  restore_decimals-at :
      (v : GoValue) (path : List Text) (d : Decimal) (m : Fields)
      → is_distinct v ≡ true
      → decimal_at v path ≡ some d
      → is_nested path (some (obj m)) ≡ true
      → below path (some (obj (restore_decimals v m))) ≡ some (dec d)
  restore_decimals-at nil_pointer path d m h e n = cc
  restore_decimals-at (pointer v) path d m h e n = restore_decimals-at v path d m h e n
  restore_decimals-at (struct whole ms) path d m h e n = restore_members-at ms path d m h e n
  restore_decimals-at (sequence es) path d m h e n = cc
  restore_decimals-at (go_map es) path d m h e n = cc
  restore_decimals-at (plain v) path d m h e n = cc

  restore_members-at :
      (ms : Members) (path : List Text) (d : Decimal) (m : Fields)
      → are_distinct ms ≡ true
      → member_at ms path ≡ some d
      → is_nested path (some (obj m)) ≡ true
      → below path (some (obj (restore_members ms m))) ≡ some (dec d)
  restore_members-at no_member path d m h e n = cc
  restore_members-at (member name exported tag v ms) [] d m h e n = cc
  restore_members-at (member name false tag v ms) (k ∷ []) d m h e n =
      restore_members-at ms (k ∷ []) d m (are_distinct-rest name false tag v ms h) e n
  restore_members-at (member name true tag v ms) (k ∷ []) d m h e n =
      let key = mapstructure_key name tag in
      elim (Bool-cases (text_eq key k)) [
        | inl same ↦
            restore_members-own key k v ms m same (are_distinct-key name tag v ms h)
            ∙ restored-decimal key k v d m same (rw (same, member_at) at e)
        | inr apart ↦
            restore_members-at ms (k ∷ []) d (restored key v m)
              (are_distinct-rest name true tag v ms h) (rw (apart, member_at) at e) refl
      ]
  restore_members-at (member name false tag v ms) (k ∷ l ∷ path) d m h e n =
      restore_members-at ms (k ∷ l ∷ path) d m (are_distinct-rest name false tag v ms h) e n
  restore_members-at (member name true tag v ms) (k ∷ l ∷ path) d m h e n =
      let key = mapstructure_key name tag in
      elim (Bool-cases (text_eq key k)) [
        | inl same ↦ elim (Option-cases (decimal_of v)) [
          | inr (f, q) ↦ (let x = (rw (same, q, member_at) at e) in cc)
          | inl q ↦ elim (Option-cases (child_of (lookup_field k m))) [
            | inl z ↦ (let x = (rw (z, is_nested) at n) in cc)
            | inr (c, z) ↦
                ap (below (l ∷ path)) (
                  restore_members-own key k v ms m same (are_distinct-key name tag v ms h)
                  ∙ restored-child key k v c m same q z)
                ∙ (restore_decimals-at v (l ∷ path) d c (are_distinct-value name true tag v ms h)
                    (rw (same, q, member_at) at e) (rw (z, is_nested) at n))
          ]
        ]
        | inr apart ↦
            restore_members-at ms (k ∷ l ∷ path) d (restored key v m)
              (are_distinct-rest name true tag v ms h) (rw (apart, member_at) at e)
              (ap (is_nested (l ∷ path)) (restored-apart key k v m apart) ∙ n)
      ]

-- Let no struct inside the input have two exported members with one key, and let the decoder have
-- left a map under every key on the way. Then each exported decimal of the input, through nested
-- structs and pointers, stands in the seed under its path of keys after restoreDecimals.
pub restore_decimals-below :
    (v : GoValue) (path : List Text) (d : Decimal) (m : Fields)
    → is_distinct v ≡ true
    → decimal_at v path ≡ some d
    → is_nested path (some (obj m)) ≡ true
    → below path (some (obj (restore_decimals v m))) ≡ some (dec d)
restore_decimals-below = restore_decimals-at

-- A decimal member that its tag excludes by `-` is put into the seed under the key `-`.
pub restore_members-dash :
    (whole : Value) (name : Text) (v : GoValue) (d : Decimal) (m : Fields)
    → decimal_of v ≡ some d
    → lookup_field
        (codes "-")
        (restore_decimals (struct whole (member name true (codes "-") v no_member)) m)
      ≡ some (dec d)
unfolding restore_decimals restore_members mapstructure_key
restore_members-dash whole name v d m e =
    restored-decimal (codes "-") (codes "-") v d m (text_eq_refl (codes "-")) e
