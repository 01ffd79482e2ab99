-- ===== src/KvConnection.antt =====
-- include/redisdal/kv_connection.hpp: the interface between the typed facade and a connection that
-- works on strings. An overload has a longer name. `S` is the state behind the connection. A
-- container of the caller that a method fills is taken, and returned as it is left.
pub mod FromClient
use redisdal.Prelude.{ℕ, Bool, Option, List}
use redisdal.Prelude.Int.{ℤ}
use redisdal.Text.{Bytes}
use redisdal.Reply.{Double, CmdReply}
use redisdal.Reply.Decode.{StringMap, StringStreamEntry, StringStreamBatch}
use redisdal.Exec.{Exec}
use redisdal.Client.Requests.{ScanResult}
use redisdal.CmdOps.Options.{
  StreamTrimOptions, StreamAddOptions, StreamReadOptions, StreamReadGroupOptions,
  StringStreamReadRequest,
}

pub record KeyCommands (S : Type 0) : Type 0 where
  pub exists : Bytes → Exec S Bool
  pub keys : Bytes → List Bytes → Exec S (List Bytes)
  pub scan : ℕ → Bytes → ℕ → Exec S (ScanResult Bytes)
  pub type : Bytes → Exec S Bytes
  pub expire : Bytes → ℤ → Exec S Bool
  pub pexpire : Bytes → ℤ → Exec S Bool
  pub ttl : Bytes → Exec S ℤ
  pub pttl : Bytes → Exec S ℤ
  pub persist : Bytes → Exec S Bool
  pub ping : Exec S Bytes
  pub ping_message : Bytes → Exec S Bytes
  pub del : Bytes → Exec S ℤ
  pub del_keys : List Bytes → Exec S ℤ

pub record StringCommands (S : Type 0) : Type 0 where
  pub set : Bytes → Bytes → Exec S Bool
  pub set_not_exists : Bytes → Bytes → Exec S Bool
  pub set_ex : Bytes → Bytes → ℤ → Exec S Bool
  pub set_px : Bytes → Bytes → ℤ → Exec S Bool
  pub get : Bytes → Exec S (Option Bytes)
  pub getset : Bytes → Bytes → Exec S (Option Bytes)
  pub incr : Bytes → ℤ → Exec S ℤ
  pub decr : Bytes → ℤ → Exec S ℤ
  pub append : Bytes → Bytes → Exec S ℤ

pub record HashCommands (S : Type 0) : Type 0 where
  pub hget : Bytes → Bytes → Exec S (Option Bytes)
  pub hget_map : Bytes → List (Bytes × Option Bytes) → Exec S (List (Bytes × Option Bytes))
  pub hset : Bytes → Bytes → Bytes → Exec S Bool
  pub hset_map : Bytes → StringMap → Exec S Bool
  pub hgetall : Bytes → Exec S StringMap
  pub hkeys : Bytes → Exec S (List Bytes)
  pub hvals : Bytes → Exec S (List Bytes)
  pub hscan : Bytes → ℕ → Bytes → ℕ → StringMap → Exec S (ℕ × StringMap)
  pub hdel : Bytes → Bytes → Exec S ℤ
  pub hdel_fields : Bytes → List Bytes → Exec S ℤ

pub record ListCommands (S : Type 0) : Type 0 where
  pub llen : Bytes → Exec S ℤ
  pub lpush_values : Bytes → List Bytes → Exec S ℤ
  pub lpush : Bytes → Bytes → Exec S ℤ
  pub rpush : Bytes → Bytes → Exec S ℤ
  pub rpush_values : Bytes → List Bytes → Exec S ℤ
  pub lpop : Bytes → Exec S (Option Bytes)
  pub rpop : Bytes → Exec S (Option Bytes)
  pub lpop_count : Bytes → ℤ → Exec S (List Bytes)
  pub rpop_count : Bytes → ℤ → Exec S (List Bytes)
  pub lrange : Bytes → ℤ → ℤ → Exec S (List Bytes)
  pub lindex : Bytes → ℤ → Exec S (Option Bytes)

pub record SetCommands (S : Type 0) : Type 0 where
  pub sadd : Bytes → List Bytes → Exec S ℤ
  pub srem : Bytes → List Bytes → Exec S ℤ
  pub smembers : Bytes → Exec S (List Bytes)
  pub scard : Bytes → Exec S ℤ
  pub sismember : Bytes → Bytes → Exec S Bool
  pub spop : Bytes → Exec S (Option Bytes)
  pub sinter : List Bytes → Exec S (List Bytes)

pub record SortedSetCommands (S : Type 0) : Type 0 where
  pub zadd : Bytes → List (Bytes × Double) → Exec S ℤ
  pub zrem : Bytes → List Bytes → Exec S ℤ
  pub zscore : Bytes → Bytes → Exec S (Option Double)
  pub zrange : Bytes → ℤ → ℤ → Exec S (List Bytes)
  pub zrevrange : Bytes → ℤ → ℤ → Exec S (List Bytes)
  pub zrange_withscores : Bytes → ℤ → ℤ → Exec S (List (Bytes × Double))
  pub zrevrange_withscores : Bytes → ℤ → ℤ → Exec S (List (Bytes × Double))
  pub zincrby : Bytes → Double → Bytes → Exec S Double

pub record StreamCommands (S : Type 0) : Type 0 where
  pub xadd : Bytes → List (Bytes × Bytes) → StreamAddOptions → Exec S (Option Bytes)
  pub xlen : Bytes → Exec S ℤ
  pub xrange : Bytes → Bytes → Bytes → Option ℤ → Exec S (List StringStreamEntry)
  pub xrevrange : Bytes → Bytes → Bytes → Option ℤ → Exec S (List StringStreamEntry)
  pub xread : List StringStreamReadRequest → StreamReadOptions → Exec S (List StringStreamBatch)
  pub xdel : Bytes → List Bytes → Exec S ℤ
  pub xtrim : Bytes → StreamTrimOptions → Exec S ℤ
  pub xgroup_create : Bytes → Bytes → Bytes → Bool → Exec S Bool
  pub xgroup_setid : Bytes → Bytes → Bytes → Exec S Bool
  pub xgroup_destroy : Bytes → Bytes → Exec S Bool
  pub xgroup_createconsumer : Bytes → Bytes → Bytes → Exec S Bool
  pub xgroup_delconsumer : Bytes → Bytes → Bytes → Exec S ℤ
  pub xreadgroup :
      Bytes
      → Bytes
      → List StringStreamReadRequest
      → StreamReadGroupOptions
      → Exec S (List StringStreamBatch)
  pub xack : Bytes → Bytes → List Bytes → Exec S ℤ

pub record ScriptCommands (S : Type 0) : Type 0 where
  pub script_load : Bytes → Exec S Bytes
  pub eval_sha1 : Bytes → List Bytes → List Bytes → Exec S CmdReply
  pub eval : Bytes → List Bytes → List Bytes → Exec S CmdReply
  pub command : Bytes → List Bytes → Exec S CmdReply

pub record KvConnection (S : Type 0) : Type 0 where
  pub key_commands : KeyCommands S
  pub open key_commands use *
  pub string_commands : StringCommands S
  pub open string_commands use *
  pub hash_commands : HashCommands S
  pub open hash_commands use *
  pub list_commands : ListCommands S
  pub open list_commands use *
  pub set_commands : SetCommands S
  pub open set_commands use *
  pub sorted_set_commands : SortedSetCommands S
  pub open sorted_set_commands use *
  pub stream_commands : StreamCommands S
  pub open stream_commands use *
  pub script_commands : ScriptCommands S
  pub open script_commands use *
