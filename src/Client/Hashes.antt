-- ===== src/Client/Hashes.antt =====
-- Hash methods of src/redis_client.cpp. Those that fill a map of the caller take it and return it as it is
-- left.
use redisdal.Prelude.{ℕ, Bool, false, Option, List, map, is_empty, if◌then◌else◌}
use redisdal.Prelude.Int.{ℤ, pos}
use redisdal.Text.{Bytes, text}
use redisdal.Reply.Decode.{as_integer, optional_string, strings, StringMap, hash}
use redisdal.Exec.{Exec, Executor, pure}
use redisdal.Client.Requests.{received, hset_succeeded, scanned_fields, field_values}
use redisdal.CmdOps.Hashes as Ops

module _ {S : Type 0} (connection : Executor S) where
  unfoldable pub hget : Bytes → Bytes → Exec S (Option Bytes)
  hget key hash_key =
      received (Ops.hget connection key hash_key) (λ r. optional_string r (text "HGET"))

  unfoldable pub hget_map :
      Bytes → List (Bytes × Option Bytes) → Exec S (List (Bytes × Option Bytes))
  hget_map key hash_map =
      if is_empty hash_map
      then pure hash_map
      else received (Ops.hget_fields connection key (map (λ field. field.0) hash_map))
          (field_values hash_map)

  unfoldable pub hset : Bytes → Bytes → Bytes → Exec S Bool
  hset key field value = received (Ops.hset connection key field value) hset_succeeded

  unfoldable pub hset_map : Bytes → StringMap → Exec S Bool
  hset_map key hash_map =
      if is_empty hash_map
      then pure false
      else received (Ops.hset_map connection key hash_map) hset_succeeded

  unfoldable pub hgetall : Bytes → Exec S StringMap
  hgetall key = received (Ops.hgetall connection key) (λ r. hash r (text "HGETALL"))

  unfoldable pub hkeys : Bytes → Exec S (List Bytes)
  hkeys key = received (Ops.hkeys connection key) (λ r. strings r (text "HKEYS"))

  unfoldable pub hvals : Bytes → Exec S (List Bytes)
  hvals key = received (Ops.hvals connection key) (λ r. strings r (text "HVALS"))

  unfoldable pub hscan : Bytes → ℕ → Bytes → ℕ → StringMap → Exec S (ℕ × StringMap)
  hscan key cursor pattern count hash_map =
      received (Ops.hscan connection key cursor pattern count) (scanned_fields hash_map)

  unfoldable pub hdel : Bytes → Bytes → Exec S ℤ
  hdel key hash_key = received (Ops.hdel connection key hash_key) (λ r. as_integer r (text "HDEL"))

  unfoldable pub hdel_fields : Bytes → List Bytes → Exec S ℤ
  hdel_fields key hash_keys =
      if is_empty hash_keys
      then pure (pos 0)
      else received (Ops.hdel_fields connection key hash_keys) (λ r. as_integer r (text "HDEL"))
