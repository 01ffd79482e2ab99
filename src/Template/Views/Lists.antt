-- ===== src/Template/Views/Lists.antt =====
-- `default_list_operations` of include/redisdal/redis_operations.hpp: the list view.
use redisdal.Prelude.{Option, List}
use redisdal.Prelude.Int.{ℤ}
use redisdal.Serializer.{serialize_each, deserialize_each, deserialize_optional}
use redisdal.Exec.{Exec, lift, ◌>>=◌}
use redisdal.Template.{RedisTemplate, serialize_key, serialize_value}

module _ {S K V : Type 0} (tpl : RedisTemplate S K V) where
  open tpl use {connection, key_serializer, value_serializer}

  unfoldable pub lpush_values : K → List V → Exec S ℤ
  lpush_values key values = do
    serialized_values ← lift (serialize_each value_serializer values)
    k ← serialize_key tpl key
    connection.lpush_values k serialized_values

  unfoldable pub lpush : K → V → Exec S ℤ
  lpush key value = do
    k ← serialize_key tpl key
    v ← serialize_value tpl value
    connection.lpush k v

  unfoldable pub rpush_values : K → List V → Exec S ℤ
  rpush_values key values = do
    serialized_values ← lift (serialize_each value_serializer values)
    k ← serialize_key tpl key
    connection.rpush_values k serialized_values

  unfoldable pub rpush : K → V → Exec S ℤ
  rpush key value = do
    k ← serialize_key tpl key
    v ← serialize_value tpl value
    connection.rpush k v

  unfoldable pub lpop : K → Exec S (Option V)
  lpop key = do
    k ← serialize_key tpl key
    val ← connection.lpop k
    lift (deserialize_optional value_serializer val)

  unfoldable pub lpop_count : K → ℤ → Exec S (List V)
  lpop_count key count = do
    k ← serialize_key tpl key
    raw ← connection.lpop_count k count
    lift (deserialize_each value_serializer raw)

  unfoldable pub rpop : K → Exec S (Option V)
  rpop key = do
    k ← serialize_key tpl key
    val ← connection.rpop k
    lift (deserialize_optional value_serializer val)

  unfoldable pub rpop_count : K → ℤ → Exec S (List V)
  rpop_count key count = do
    k ← serialize_key tpl key
    raw ← connection.rpop_count k count
    lift (deserialize_each value_serializer raw)

  unfoldable pub lrange : K → ℤ → ℤ → Exec S (List V)
  lrange key start stop = do
    k ← serialize_key tpl key
    raw ← connection.lrange k start stop
    lift (deserialize_each value_serializer raw)

  unfoldable pub llen : K → Exec S ℤ
  llen key = do k ← serialize_key tpl key; connection.llen k

  unfoldable pub lindex : K → ℤ → Exec S (Option V)
  lindex key index = do
    k ← serialize_key tpl key
    val ← connection.lindex k index
    lift (deserialize_optional value_serializer val)
