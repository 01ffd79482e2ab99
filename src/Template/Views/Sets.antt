-- ===== src/Template/Views/Sets.antt =====
-- `default_set_operations` of include/redisdal/redis_operations.hpp: the set view.
use redisdal.Prelude.{Bool, Option, List}
use redisdal.Prelude.Int.{ℤ}
use redisdal.Serializer.{serialize_each, deserialize_each, deserialize_optional}
use redisdal.Exec.{Exec, lift, ◌>>=◌}
use redisdal.Template.{RedisTemplate, serialize_key, serialize_value}

module _ {S K V : Type 0} (tpl : RedisTemplate S K V) where
  open tpl use {connection, key_serializer, value_serializer}

  unfoldable pub sadd : K → List V → Exec S ℤ
  sadd key members = do
    serialized_members ← lift (serialize_each value_serializer members)
    k ← serialize_key tpl key
    connection.sadd k serialized_members

  unfoldable pub srem : K → List V → Exec S ℤ
  srem key members = do
    serialized_members ← lift (serialize_each value_serializer members)
    k ← serialize_key tpl key
    connection.srem k serialized_members

  unfoldable pub spop : K → Exec S (Option V)
  spop key = do
    k ← serialize_key tpl key
    val ← connection.spop k
    lift (deserialize_optional value_serializer val)

  unfoldable pub smembers : K → Exec S (List V)
  smembers key = do
    k ← serialize_key tpl key
    raw ← connection.smembers k
    lift (deserialize_each value_serializer raw)

  unfoldable pub scard : K → Exec S ℤ
  scard key = do k ← serialize_key tpl key; connection.scard k

  unfoldable pub sismember : K → V → Exec S Bool
  sismember key member = do
    k ← serialize_key tpl key
    v ← serialize_value tpl member
    connection.sismember k v

  unfoldable pub sinter : List K → Exec S (List V)
  sinter keys = do
    serialized_keys ← lift (serialize_each key_serializer keys)
    raw ← connection.sinter serialized_keys
    lift (deserialize_each value_serializer raw)
