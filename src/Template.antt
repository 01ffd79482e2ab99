-- ===== src/Template.antt =====
-- `redis_template` of include/redisdal/redis_template.hpp: the typed facade over a `kv_connection`,
-- its key methods and raw commands. Where two arguments of one call are serialized, the source
-- leaves the order open; here the left one is first.
pub mod Scripts
pub mod Entries
pub mod Views
pub mod Facade
pub mod Methods
pub mod Contract
pub mod Strings
pub mod RoundTrip
pub mod Caller
pub mod Safe
use redisdal.Prelude.{ℕ, Bool, List, [], ◌∷◌}
use redisdal.Prelude.Int.{ℤ}
use redisdal.Text.{Bytes}
use redisdal.Reply.{CmdReply}
use redisdal.Exec.{Exec, pure, lift, ◌>>=◌}
use redisdal.Local.{WithLocal, on_state}
use redisdal.Client.Requests.{ScanResult}
use redisdal.KvConnection.{KvConnection}
use redisdal.Serializer.{Serializer, serialize_each, string_serializer}
use redisdal.Containers.{Eq}
use redisdal.Collect.{collect_keys}
use redisdal.Collect.Caller.{insert_keys}

-- The injected dependencies. The members that change are in `Scripts`.
pub record RedisTemplate (S K V : Type 0) : Type 0 where
  pub connection : KvConnection S
  pub key_serializer : Serializer K
  pub value_serializer : Serializer V

-- The constructor of `string_redis_template`.
unfoldable pub string_redis_template : {S : Type 0} → KvConnection S → RedisTemplate S Bytes Bytes
string_redis_template connection = record {
  connection = connection;
  key_serializer = string_serializer;
  value_serializer = string_serializer;
}

module _ {S K V : Type 0} (tpl : RedisTemplate S K V) where
  open tpl use {connection, key_serializer, value_serializer}

  unfoldable pub serialize_key : K → Exec S Bytes
  serialize_key key = lift (key_serializer.serialize key)

  unfoldable pub serialize_value : V → Exec S Bytes
  serialize_value value = lift (value_serializer.serialize value)

  unfoldable pub exists : K → Exec S Bool
  exists key = do k ← serialize_key key; connection.exists k

  unfoldable pub type : K → Exec S Bytes
  type key = do k ← serialize_key key; connection.type k

  unfoldable pub expire : K → ℤ → Exec S Bool
  expire key seconds = do k ← serialize_key key; connection.expire k seconds

  unfoldable pub pexpire : K → ℤ → Exec S Bool
  pexpire key milliseconds = do k ← serialize_key key; connection.pexpire k milliseconds

  unfoldable pub del : K → Exec S ℤ
  del key = do k ← serialize_key key; connection.del k

  unfoldable pub del_keys : List K → Exec S ℤ
  del_keys keys = do s_keys ← lift (serialize_each key_serializer keys); connection.del_keys s_keys

  unfoldable pub ttl : K → Exec S ℤ
  ttl key = do k ← serialize_key key; connection.ttl k

  unfoldable pub pttl : K → Exec S ℤ
  pttl key = do k ← serialize_key key; connection.pttl k

  unfoldable pub persist : K → Exec S Bool
  persist key = do k ← serialize_key key; connection.persist k

  unfoldable pub ping : Exec S Bytes
  ping = connection.ping

  unfoldable pub ping_message : Bytes → Exec S Bytes
  ping_message message = connection.ping_message message

  unfoldable pub eval : Bytes → List K → List V → Exec S CmdReply
  eval script keys args = do
    s_keys ← lift (serialize_each key_serializer keys)
    s_args ← lift (serialize_each value_serializer args)
    connection.eval script s_keys s_args

  unfoldable pub exec_cmd : Bytes → List Bytes → Exec S CmdReply
  exec_cmd cmd args = connection.command cmd args

module _ {S K V : Type 0} ⦃eq : Eq K⦄ (tpl : RedisTemplate S K V) where
  open tpl use {connection, key_serializer}

  unfoldable pub keys : Bytes → Exec (WithLocal S (List K)) (Unit {0})
  keys pattern = do
    s_keys ← on_state (connection.keys pattern [])
    insert_keys key_serializer s_keys

  unfoldable pub scan : ℕ → Bytes → ℕ → Exec S (ScanResult K)
  scan cursor pattern count = do
    s_result ← connection.scan cursor pattern count
    keys ← lift (collect_keys key_serializer s_result.keys [])
    pure (record { cursor = s_result.cursor; keys = keys })
