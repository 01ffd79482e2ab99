-- ===== src/Template/Views/Values.antt =====
-- `default_value_operations` of include/redisdal/redis_operations.hpp: the string view.
use redisdal.Prelude.{Bool, Option}
use redisdal.Prelude.Int.{ℤ}
use redisdal.Serializer.{deserialize_optional}
use redisdal.Exec.{Exec, lift, ◌>>=◌}
use redisdal.Template.{RedisTemplate, serialize_key, serialize_value}

module _ {S K V : Type 0} (tpl : RedisTemplate S K V) where
  open tpl use {connection, key_serializer, value_serializer}

  unfoldable pub set : K → V → Exec S Bool
  set key value = do k ← serialize_key tpl key; v ← serialize_value tpl value; connection.set k v

  unfoldable pub get : K → Exec S (Option V)
  get key = do
    k ← serialize_key tpl key
    val ← connection.get k
    lift (deserialize_optional value_serializer val)

  unfoldable pub incr : K → ℤ → Exec S ℤ
  incr key delta = do k ← serialize_key tpl key; connection.incr k delta

  unfoldable pub decr : K → ℤ → Exec S ℤ
  decr key delta = do k ← serialize_key tpl key; connection.decr k delta

  unfoldable pub append : K → V → Exec S ℤ
  append key value = do
    k ← serialize_key tpl key
    v ← serialize_value tpl value
    connection.append k v

  unfoldable pub get_and_set : K → V → Exec S (Option V)
  get_and_set key value = do
    k ← serialize_key tpl key
    v ← serialize_value tpl value
    val ← connection.getset k v
    lift (deserialize_optional value_serializer val)
