-- ===== src/Operations.antt =====
-- include/redisdal/operations.hpp: the interfaces of the operation views. An overload has a longer
-- name, and a map of the caller that a method fills is the local of its state.
use redisdal.Prelude.{ℕ, Bool, Option, List}
use redisdal.Prelude.Int.{ℤ}
use redisdal.Text.{Bytes}
use redisdal.Reply.{Double}
use redisdal.Reply.Decode.{StreamEntry, StreamBatch}
use redisdal.CmdOps.Options.{
  StreamTrimOptions, StreamAddOptions, StreamReadOptions, StreamReadGroupOptions, StreamReadRequest,
}
use redisdal.Exec.{Exec}
use redisdal.Local.{WithLocal}

pub record ValueOperations (S K V : Type 0) : Type 0 where
  pub set : K → V → Exec S Bool
  pub get : K → Exec S (Option V)
  pub incr : K → ℤ → Exec S ℤ
  pub decr : K → ℤ → Exec S ℤ
  pub append : K → V → Exec S ℤ
  pub get_and_set : K → V → Exec S (Option V)

pub record HashOperations (S K V : Type 0) : Type 0 where
  pub hget : K → K → Exec S (Option V)
  pub hkeys : K → Exec S (List K)
  pub hvals : K → Exec S (List V)
  pub hset : K → K → V → Exec S Bool
  pub hset_map : K → List (K × V) → Exec S Bool
  pub hdel : K → K → Exec S ℤ
  pub hdel_fields : K → List K → Exec S ℤ
  pub hgetall : K → Exec S (List (K × V))
  pub hget_map : K → Exec (WithLocal S (List (K × Option V))) (Unit {0})
  pub hscan : K → ℕ → K → ℕ → Exec (WithLocal S (List (K × V))) ℕ

pub record ListOperations (S K V : Type 0) : Type 0 where
  pub lpush_values : K → List V → Exec S ℤ
  pub lpush : K → V → Exec S ℤ
  pub rpush_values : K → List V → Exec S ℤ
  pub rpush : K → V → Exec S ℤ
  pub lpop : K → Exec S (Option V)
  pub lpop_count : K → ℤ → Exec S (List V)
  pub rpop : K → Exec S (Option V)
  pub rpop_count : K → ℤ → Exec S (List V)
  pub lrange : K → ℤ → ℤ → Exec S (List V)
  pub llen : K → Exec S ℤ
  pub lindex : K → ℤ → Exec S (Option V)

pub record SetOperations (S K V : Type 0) : Type 0 where
  pub sadd : K → List V → Exec S ℤ
  pub srem : K → List V → Exec S ℤ
  pub spop : K → Exec S (Option V)
  pub smembers : K → Exec S (List V)
  pub scard : K → Exec S ℤ
  pub sismember : K → V → Exec S Bool
  pub sinter : List K → Exec S (List V)

pub record ZsetOperations (S K V : Type 0) : Type 0 where
  pub zadd : K → List (V × Double) → Exec S ℤ
  pub zrem : K → List V → Exec S ℤ
  pub zincrby : K → Double → V → Exec S Double
  pub zscore : K → V → Exec S (Option Double)
  pub zrange : K → ℤ → ℤ → Exec S (List V)
  pub zrevrange : K → ℤ → ℤ → Exec S (List V)
  pub zrange_withscores : K → ℤ → ℤ → Exec S (List (V × Double))
  pub zrevrange_withscores : K → ℤ → ℤ → Exec S (List (V × Double))

pub record StreamOperations (S K V : Type 0) : Type 0 where
  pub xadd : K → List (K × V) → StreamAddOptions → Exec S (Option Bytes)
  pub xlen : K → Exec S ℤ
  pub xrange : K → Bytes → Bytes → Option ℤ → Exec S (List (StreamEntry K V))
  pub xrevrange : K → Bytes → Bytes → Option ℤ → Exec S (List (StreamEntry K V))
  pub xread : List (StreamReadRequest K) → StreamReadOptions → Exec S (List (StreamBatch K V))
  pub xdel : K → List Bytes → Exec S ℤ
  pub xtrim : K → StreamTrimOptions → Exec S ℤ
  pub xgroup_create : K → Bytes → Bytes → Bool → Exec S Bool
  pub xgroup_setid : K → Bytes → Bytes → Exec S Bool
  pub xgroup_destroy : K → Bytes → Exec S Bool
  pub xgroup_createconsumer : K → Bytes → Bytes → Exec S Bool
  pub xgroup_delconsumer : K → Bytes → Bytes → Exec S ℤ
  pub xreadgroup :
      Bytes
      → Bytes
      → List (StreamReadRequest K)
      → StreamReadGroupOptions
      → Exec S (List (StreamBatch K V))
  pub xack : K → Bytes → List Bytes → Exec S ℤ
