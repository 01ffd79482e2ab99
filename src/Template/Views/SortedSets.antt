-- ===== src/Template/Views/SortedSets.antt =====
-- `default_zset_operations` of include/redisdal/redis_operations.hpp: the sorted set view.
use redisdal.Prelude.{Option, List, []}
use redisdal.Prelude.Int.{ℤ}
use redisdal.Reply.{Double}
use redisdal.Serializer.{serialize_each, deserialize_each, deserialize_scored}
use redisdal.Collect.{serialize_members}
use redisdal.Exec.{Exec, lift, ◌>>=◌}
use redisdal.Template.{RedisTemplate, serialize_key, serialize_value}

module _ {S K V : Type 0} (tpl : RedisTemplate S K V) where
  open tpl use {connection, key_serializer, value_serializer}

  unfoldable pub zadd : K → List (V × Double) → Exec S ℤ
  zadd key members = do
    serialized_members ← lift (serialize_members value_serializer members [])
    k ← serialize_key tpl key
    connection.zadd k serialized_members

  unfoldable pub zrem : K → List V → Exec S ℤ
  zrem key members = do
    serialized_members ← lift (serialize_each value_serializer members)
    k ← serialize_key tpl key
    connection.zrem k serialized_members

  unfoldable pub zincrby : K → Double → V → Exec S Double
  zincrby key increment member = do
    k ← serialize_key tpl key
    v ← serialize_value tpl member
    connection.zincrby k increment v

  unfoldable pub zscore : K → V → Exec S (Option Double)
  zscore key member = do
    k ← serialize_key tpl key
    v ← serialize_value tpl member
    connection.zscore k v

  unfoldable pub zrange : K → ℤ → ℤ → Exec S (List V)
  zrange key start stop = do
    k ← serialize_key tpl key
    raw ← connection.zrange k start stop
    lift (deserialize_each value_serializer raw)

  unfoldable pub zrevrange : K → ℤ → ℤ → Exec S (List V)
  zrevrange key start stop = do
    k ← serialize_key tpl key
    raw ← connection.zrevrange k start stop
    lift (deserialize_each value_serializer raw)

  unfoldable pub zrange_withscores : K → ℤ → ℤ → Exec S (List (V × Double))
  zrange_withscores key start stop = do
    k ← serialize_key tpl key
    raw_pairs ← connection.zrange_withscores k start stop
    lift (deserialize_scored value_serializer raw_pairs)

  unfoldable pub zrevrange_withscores : K → ℤ → ℤ → Exec S (List (V × Double))
  zrevrange_withscores key start stop = do
    k ← serialize_key tpl key
    raw_pairs ← connection.zrevrange_withscores k start stop
    lift (deserialize_scored value_serializer raw_pairs)
