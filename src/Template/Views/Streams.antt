-- ===== src/Template/Views/Streams.antt =====
-- `default_stream_operations` of include/redisdal/redis_operations.hpp: the stream view.
use redisdal.Prelude.{Bool, Option, List}
use redisdal.Prelude.Int.{ℤ}
use redisdal.Text.{Bytes}
use redisdal.Reply.Decode.{StreamEntry, StreamBatch}
use redisdal.Serializer.{serialize_pairs}
use redisdal.CmdOps.Options.{
  StreamTrimOptions, StreamAddOptions, StreamReadOptions, StreamReadGroupOptions, StreamReadRequest,
}
use redisdal.Template.Entries.{serialize_requests, deserialize_entries, deserialize_batches}
use redisdal.Exec.{Exec, lift, ◌>>=◌}
use redisdal.Template.{RedisTemplate, serialize_key}

module _ {S K V : Type 0} (tpl : RedisTemplate S K V) where
  open tpl use {connection, key_serializer, value_serializer}

  unfoldable pub xadd : K → List (K × V) → StreamAddOptions → Exec S (Option Bytes)
  xadd key fields options = do
    serialized_fields ← lift (serialize_pairs key_serializer value_serializer fields)
    k ← serialize_key tpl key
    connection.xadd k serialized_fields options

  unfoldable pub xlen : K → Exec S ℤ
  xlen key = do k ← serialize_key tpl key; connection.xlen k

  unfoldable pub xrange : K → Bytes → Bytes → Option ℤ → Exec S (List (StreamEntry K V))
  xrange key start end count = do
    k ← serialize_key tpl key
    raw_entries ← connection.xrange k start end count
    lift (deserialize_entries key_serializer value_serializer raw_entries)

  unfoldable pub xrevrange : K → Bytes → Bytes → Option ℤ → Exec S (List (StreamEntry K V))
  xrevrange key end start count = do
    k ← serialize_key tpl key
    raw_entries ← connection.xrevrange k end start count
    lift (deserialize_entries key_serializer value_serializer raw_entries)

  unfoldable pub xread :
      List (StreamReadRequest K) → StreamReadOptions → Exec S (List (StreamBatch K V))
  xread streams options = do
    serialized_streams ← lift (serialize_requests key_serializer streams)
    raw_batches ← connection.xread serialized_streams options
    lift (deserialize_batches key_serializer value_serializer raw_batches)

  unfoldable pub xdel : K → List Bytes → Exec S ℤ
  xdel key ids = do k ← serialize_key tpl key; connection.xdel k ids

  unfoldable pub xtrim : K → StreamTrimOptions → Exec S ℤ
  xtrim key options = do k ← serialize_key tpl key; connection.xtrim k options

  unfoldable pub xgroup_create : K → Bytes → Bytes → Bool → Exec S Bool
  xgroup_create key group id mkstream = do
    k ← serialize_key tpl key
    connection.xgroup_create k group id mkstream

  unfoldable pub xgroup_setid : K → Bytes → Bytes → Exec S Bool
  xgroup_setid key group id = do k ← serialize_key tpl key; connection.xgroup_setid k group id

  unfoldable pub xgroup_destroy : K → Bytes → Exec S Bool
  xgroup_destroy key group = do k ← serialize_key tpl key; connection.xgroup_destroy k group

  unfoldable pub xgroup_createconsumer : K → Bytes → Bytes → Exec S Bool
  xgroup_createconsumer key group consumer = do
    k ← serialize_key tpl key
    connection.xgroup_createconsumer k group consumer

  unfoldable pub xgroup_delconsumer : K → Bytes → Bytes → Exec S ℤ
  xgroup_delconsumer key group consumer = do
    k ← serialize_key tpl key
    connection.xgroup_delconsumer k group consumer

  unfoldable pub xreadgroup :
      Bytes
      → Bytes
      → List (StreamReadRequest K)
      → StreamReadGroupOptions
      → Exec S (List (StreamBatch K V))
  xreadgroup group consumer streams options = do
    serialized_streams ← lift (serialize_requests key_serializer streams)
    raw_batches ← connection.xreadgroup group consumer serialized_streams options
    lift (deserialize_batches key_serializer value_serializer raw_batches)

  unfoldable pub xack : K → Bytes → List Bytes → Exec S ℤ
  xack key group ids = do k ← serialize_key tpl key; connection.xack k group ids
