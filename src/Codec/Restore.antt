-- ===== src/Codec/Restore.antt =====
-- Restoring a Scope from its envelope.
use rlng.Base.{◌≡◌, refl, Option, List, arith}
use rlng.Base.Dict.{Dict}
use rlng.Value.{Fields}
use rlng.Error.{ok, Cases, Result-Cases, ok_injective}
use rlng.Scope.{Scope, FiringRule, RulesetIdentity, Derivation, blank_scope}
use rlng.Codec.{Wire, traverse_fields, encode_value, decode_value}
use rlng.Codec.Envelope.{
  ScopeJson, levels, kept_derivations, non_empty, stamped, restore_firing, restore_ruleset,
  restore_derivations, marshal_scope, unmarshal_scope,
}
use rlng.Codec.Reload.{
  WireLaws, HoldsHeld, map_fields, canonical, traverse_fields-back, encode_value-back,
}

module _ (w : Wire) (laws : WireLaws w) where
  data-back :
      (s : Scope) (m : Fields)
      → HoldsHeld w s.store
      → traverse_fields (encode_value w levels) s.store ≡ ok m
      → traverse_fields (decode_value w levels) m ≡ ok (map_fields (canonical w levels) s.store)
  data-back s m h done =
      traverse_fields-back w (encode_value w levels) (decode_value w levels) (canonical w levels)
        (encode_value-back w laws levels) s.store h done

  restored :
      (firing : Dict (List FiringRule)) (id : RulesetIdentity) (ds : Option (Dict Derivation))
      (m : Fields)
      → let t = restore_firing w (non_empty firing) (
          restore_ruleset w
            (stamped id)
            (restore_derivations w ds (record blank_scope { store = m }))) in
        (t.store ≡ m) × (t.firing ≡ firing) × (t.identity ≡ id)
  restored firing id ds m = (ground arith, ground arith, ground arith)

  -- A Scope that marshals, whose integers are in the range of their Go types and whose times have a
  -- year of four digits and an offset in whole minutes, unmarshals into a blank one: its data come
  -- back value for value in the canonical kinds, and its firing rules and ruleset identity come back
  -- as they were.
  pub marshal_scope-back :
      (s : Scope) (env : ScopeJson)
      → HoldsHeld w s.store
      → marshal_scope w s ≡ ok env
      → (t : Scope) × (unmarshal_scope w env blank_scope ≡ ok t)
        × (t.store ≡ map_fields (canonical w levels) s.store)
        × (t.firing ≡ s.firing)
        × (t.identity ≡ s.identity)
  unfolding marshal_scope unmarshal_scope
  marshal_scope-back s env h e =
      elim (Result-Cases (traverse_fields (encode_value w levels) s.store)) [
        | Cases.bad x failed ↦ ground arith
        | Cases.good m done ↦ elim (Result-Cases (kept_derivations w s)) [
          | Cases.bad x failed ↦ ground arith
          | Cases.good ds kept ↦
              let (a, b, c) =
                restored s.firing s.identity ds (map_fields (canonical w levels) s.store) in
              rw (← ok_injective (rw (done, kept, marshal_scope) at e))
                (rw (data-back s m h done) (_, refl, a, b, c))
        ]
      ]
