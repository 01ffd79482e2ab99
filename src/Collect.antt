-- ===== src/Collect.antt =====
-- The loops of include/redisdal/redis_template.hpp and redis_operations.hpp that fill an unordered
-- container with elements as they are serialized or deserialized. Those that fill a container of
-- the caller leave what they have put there when an element throws.
pub mod Caller
use redisdal.Prelude.{Option, none, some, List, [], ◌∷◌}
use redisdal.Text.{Bytes}
use redisdal.Errors.{Result, ok, err, ◌>>=◌}
use redisdal.Reply.{Double}
use redisdal.Reply.Decode.{StringMap, emplace}
use redisdal.Exec
use redisdal.Exec.{Exec, pure, lift}
use redisdal.Local.{WithLocal, get_local, set_local}
use redisdal.Serializer.{Serializer, deserialize_optional}
use redisdal.Containers.{Eq, insert_element, lookup, emplace_pair, assign_found}

module _ {K V : Type 0} (key_serializer : Serializer K) (value_serializer : Serializer V) where
  -- The map of `hset`: the first of two fields that are serialized alike stays.
  unfoldable pub serialize_map : List (K × V) → StringMap → Result StringMap
  serialize_map [] m = ok m
  serialize_map ((key, value) ∷ pairs) m = do
    k ← key_serializer.serialize key
    v ← value_serializer.serialize value
    serialize_map pairs (emplace k v m)

  module _ ⦃eq : Eq K⦄ where
    -- The result of `hgetall`.
    unfoldable pub collect_pairs : StringMap → List (K × V) → Result (List (K × V))
    collect_pairs [] m = ok m
    collect_pairs ((k, v) ∷ raw) m = do
      key ← key_serializer.deserialize k
      value ← value_serializer.deserialize v
      collect_pairs raw (emplace_pair key value m)

module _ {V : Type 0} (value_serializer : Serializer V) where
  -- The map of `zadd`.
  unfoldable pub serialize_members :
      List (V × Double) → List (Bytes × Double) → Result (List (Bytes × Double))
  serialize_members [] m = ok m
  serialize_members ((member, score) ∷ members) m = do
    s ← value_serializer.serialize member
    serialize_members members (emplace s score m)

module _ {K : Type 0} (key_serializer : Serializer K) where
  -- The map that `hget` hands to the connection: every field without a value.
  unfoldable pub serialize_fields :
      {V : Type 0}
      → List (K × V)
      → List (Bytes × Option Bytes)
      → Result (List (Bytes × Option Bytes))
  serialize_fields [] m = ok m
  serialize_fields ((field, value) ∷ fields) m = do
    f ← key_serializer.serialize field
    serialize_fields fields (emplace f none m)

  module _ ⦃eq : Eq K⦄ where
    -- The result of `scan`.
    unfoldable pub collect_keys : List Bytes → List K → Result (List K)
    collect_keys [] keys = ok keys
    collect_keys (s_key ∷ s_keys) keys = do
      key ← key_serializer.deserialize s_key
      collect_keys s_keys (insert_element key keys)
