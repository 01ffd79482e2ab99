-- ===== src/Template/Views/Hashes.antt =====
-- `default_hash_operations` of include/redisdal/redis_operations.hpp: the hash view. A map of the
-- caller that a method fills is the local of its state.
use redisdal.Prelude.{ℕ, Bool, Option, List, [], is_empty, if◌then◌else◌}
use redisdal.Prelude.Int.{ℤ}
use redisdal.Serializer.{serialize_each, deserialize_each, deserialize_optional}
use redisdal.Local.{WithLocal, on_state, get_local, set_local}
use redisdal.Containers.{Eq}
use redisdal.Collect.{serialize_map, collect_pairs, serialize_fields}
use redisdal.Collect.Caller.{emplace_fields, update_fields}
use redisdal.Exec.{Exec, pure, lift, ◌>>=◌}
use redisdal.Template.{RedisTemplate, serialize_key, serialize_value}

module _ {S K V : Type 0} (tpl : RedisTemplate S K V) where
  open tpl use {connection, key_serializer, value_serializer}

  unfoldable pub hget : K → K → Exec S (Option V)
  hget key hash_key = do
    k ← serialize_key tpl key
    f ← serialize_key tpl hash_key
    val ← connection.hget k f
    lift (deserialize_optional value_serializer val)

  unfoldable pub hkeys : K → Exec S (List K)
  hkeys key = do
    k ← serialize_key tpl key
    raw ← connection.hkeys k
    lift (deserialize_each key_serializer raw)

  unfoldable pub hvals : K → Exec S (List V)
  hvals key = do
    k ← serialize_key tpl key
    raw ← connection.hvals k
    lift (deserialize_each value_serializer raw)

  unfoldable pub hset : K → K → V → Exec S Bool
  hset key field value = do
    k ← serialize_key tpl key
    f ← serialize_key tpl field
    v ← serialize_value tpl value
    connection.hset k f v

  unfoldable pub hset_map : K → List (K × V) → Exec S Bool
  hset_map key hash_map = do
    serialized_map ← lift (serialize_map key_serializer value_serializer hash_map [])
    k ← serialize_key tpl key
    connection.hset_map k serialized_map

  unfoldable pub hdel : K → K → Exec S ℤ
  hdel key hash_key = do
    k ← serialize_key tpl key
    f ← serialize_key tpl hash_key
    connection.hdel k f

  unfoldable pub hdel_fields : K → List K → Exec S ℤ
  hdel_fields key hash_keys = do
    serialized_keys ← lift (serialize_each key_serializer hash_keys)
    k ← serialize_key tpl key
    connection.hdel_fields k serialized_keys

module _ {S K V : Type 0} ⦃eq : Eq K⦄ (tpl : RedisTemplate S K V) where
  open tpl use {connection, key_serializer, value_serializer}

  unfoldable pub hgetall : K → Exec S (List (K × V))
  hgetall key = do
    k ← serialize_key tpl key
    raw_map ← connection.hgetall k
    lift (collect_pairs key_serializer value_serializer raw_map [])

  unfoldable pub hget_map : K → Exec (WithLocal S (List (K × Option V))) (Unit {0})
  hget_map key = do
    hash_map ← get_local
    if is_empty hash_map then pure tt else do
      serialized_map ← lift (serialize_fields key_serializer hash_map [])
      k ← on_state (serialize_key tpl key)
      filled ← on_state (connection.hget_map k serialized_map)
      update_fields key_serializer value_serializer filled

  unfoldable pub hscan : K → ℕ → K → ℕ → Exec (WithLocal S (List (K × V))) ℕ
  hscan key cursor pattern count = do
    k ← on_state (serialize_key tpl key)
    p ← on_state (serialize_key tpl pattern)
    page ← on_state (connection.hscan k cursor p count [])
    cleared ← set_local []
    done ← emplace_fields key_serializer value_serializer page.1
    pure page.0
