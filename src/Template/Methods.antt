-- ===== src/Template/Methods.antt =====
-- The methods of `redis_template` and of its default views, listed by the classes: a value at `A` and
-- `m` says that the action `m`, with a result of type `A`, is a call of one of the methods. A method
-- that fills a container of its caller is `observed` at the content before the call. The script
-- methods, which use the cache, are in `Scripts.Runs`.
use redisdal.Prelude.{ℕ, Bool, Option, List}
use redisdal.Prelude.Int.{ℤ}
use redisdal.Text.{Bytes}
use redisdal.Reply.{Double, CmdReply}
use redisdal.Reply.Decode.{StreamEntry, StreamBatch}
use redisdal.Exec.{Exec}
use redisdal.Local.{observed}
use redisdal.Client.Requests.{ScanResult}
use redisdal.CmdOps.Options.{
  StreamTrimOptions, StreamAddOptions, StreamReadOptions, StreamReadGroupOptions, StreamReadRequest,
}
use redisdal.Containers.{Eq}
use redisdal.Template as Facade
use redisdal.Template.{RedisTemplate}
use redisdal.Template.Views.Values
use redisdal.Template.Views.Hashes
use redisdal.Template.Views.Lists
use redisdal.Template.Views.Sets
use redisdal.Template.Views.SortedSets
use redisdal.Template.Views.Streams

pub data FacadeMethod {S K V : Type 0} ⦃eq : Eq K⦄ (tpl : RedisTemplate S K V)
    : (A : Type 0) → Exec S A → Type 1 where
  exists : (key : K) → FacadeMethod tpl Bool (Facade.exists tpl key)
  type : (key : K) → FacadeMethod tpl Bytes (Facade.type tpl key)
  expire : (key : K) (seconds : ℤ) → FacadeMethod tpl Bool (Facade.expire tpl key seconds)
  pexpire :
      (key : K) (milliseconds : ℤ) → FacadeMethod tpl Bool (Facade.pexpire tpl key milliseconds)
  del : (key : K) → FacadeMethod tpl ℤ (Facade.del tpl key)
  del_keys : (keys : List K) → FacadeMethod tpl ℤ (Facade.del_keys tpl keys)
  ttl : (key : K) → FacadeMethod tpl ℤ (Facade.ttl tpl key)
  pttl : (key : K) → FacadeMethod tpl ℤ (Facade.pttl tpl key)
  persist : (key : K) → FacadeMethod tpl Bool (Facade.persist tpl key)
  ping : FacadeMethod tpl Bytes (Facade.ping tpl)
  ping_message : (message : Bytes) → FacadeMethod tpl Bytes (Facade.ping_message tpl message)
  eval :
      (script : Bytes) (keys : List K) (args : List V)
      → FacadeMethod tpl CmdReply (Facade.eval tpl script keys args)
  exec_cmd :
      (cmd : Bytes) (args : List Bytes) → FacadeMethod tpl CmdReply (Facade.exec_cmd tpl cmd args)
  keys :
      (pattern : Bytes) (local : List K)
      → FacadeMethod tpl Unit (observed local (Facade.keys tpl pattern))
  scan :
      (cursor : ℕ) (pattern : Bytes) (count : ℕ)
      → FacadeMethod tpl (ScanResult K) (Facade.scan tpl cursor pattern count)

pub data ValueMethod {S K V : Type 0} (tpl : RedisTemplate S K V)
    : (A : Type 0) → Exec S A → Type 1 where
  set : (key : K) (value : V) → ValueMethod tpl Bool (Values.set tpl key value)
  get : (key : K) → ValueMethod tpl (Option V) (Values.get tpl key)
  incr : (key : K) (delta : ℤ) → ValueMethod tpl ℤ (Values.incr tpl key delta)
  decr : (key : K) (delta : ℤ) → ValueMethod tpl ℤ (Values.decr tpl key delta)
  append : (key : K) (value : V) → ValueMethod tpl ℤ (Values.append tpl key value)
  get_and_set :
      (key : K) (value : V) → ValueMethod tpl (Option V) (Values.get_and_set tpl key value)

pub data TypedHashMethod {S K V : Type 0} ⦃eq : Eq K⦄ (tpl : RedisTemplate S K V)
    : (A : Type 0) → Exec S A → Type 1 where
  hget : (key : K) (hash_key : K) → TypedHashMethod tpl (Option V) (Hashes.hget tpl key hash_key)
  hkeys : (key : K) → TypedHashMethod tpl (List K) (Hashes.hkeys tpl key)
  hvals : (key : K) → TypedHashMethod tpl (List V) (Hashes.hvals tpl key)
  hset :
      (key : K) (field : K) (value : V) → TypedHashMethod tpl Bool (Hashes.hset tpl key field value)
  hset_map :
      (key : K) (hash_map : List (K × V))
      → TypedHashMethod tpl Bool (Hashes.hset_map tpl key hash_map)
  hdel : (key : K) (hash_key : K) → TypedHashMethod tpl ℤ (Hashes.hdel tpl key hash_key)
  hdel_fields :
      (key : K) (hash_keys : List K) → TypedHashMethod tpl ℤ (Hashes.hdel_fields tpl key hash_keys)
  hgetall : (key : K) → TypedHashMethod tpl (List (K × V)) (Hashes.hgetall tpl key)
  hget_map :
      (key : K) (local : List (K × Option V))
      → TypedHashMethod tpl Unit (observed local (Hashes.hget_map tpl key))
  hscan :
      (key : K) (cursor : ℕ) (pattern : K) (count : ℕ) (local : List (K × V))
      → TypedHashMethod tpl ℕ (observed local (Hashes.hscan tpl key cursor pattern count))

pub data TypedListMethod {S K V : Type 0} (tpl : RedisTemplate S K V)
    : (A : Type 0) → Exec S A → Type 1 where
  lpush_values :
      (key : K) (values : List V) → TypedListMethod tpl ℤ (Lists.lpush_values tpl key values)
  lpush : (key : K) (value : V) → TypedListMethod tpl ℤ (Lists.lpush tpl key value)
  rpush_values :
      (key : K) (values : List V) → TypedListMethod tpl ℤ (Lists.rpush_values tpl key values)
  rpush : (key : K) (value : V) → TypedListMethod tpl ℤ (Lists.rpush tpl key value)
  lpop : (key : K) → TypedListMethod tpl (Option V) (Lists.lpop tpl key)
  lpop_count : (key : K) (count : ℤ) → TypedListMethod tpl (List V) (Lists.lpop_count tpl key count)
  rpop : (key : K) → TypedListMethod tpl (Option V) (Lists.rpop tpl key)
  rpop_count : (key : K) (count : ℤ) → TypedListMethod tpl (List V) (Lists.rpop_count tpl key count)
  lrange :
      (key : K) (start : ℤ) (stop : ℤ)
      → TypedListMethod tpl (List V) (Lists.lrange tpl key start stop)
  llen : (key : K) → TypedListMethod tpl ℤ (Lists.llen tpl key)
  lindex : (key : K) (index : ℤ) → TypedListMethod tpl (Option V) (Lists.lindex tpl key index)

pub data TypedSetMethod {S K V : Type 0} (tpl : RedisTemplate S K V)
    : (A : Type 0) → Exec S A → Type 1 where
  sadd : (key : K) (members : List V) → TypedSetMethod tpl ℤ (Sets.sadd tpl key members)
  srem : (key : K) (members : List V) → TypedSetMethod tpl ℤ (Sets.srem tpl key members)
  spop : (key : K) → TypedSetMethod tpl (Option V) (Sets.spop tpl key)
  smembers : (key : K) → TypedSetMethod tpl (List V) (Sets.smembers tpl key)
  scard : (key : K) → TypedSetMethod tpl ℤ (Sets.scard tpl key)
  sismember : (key : K) (member : V) → TypedSetMethod tpl Bool (Sets.sismember tpl key member)
  sinter : (keys : List K) → TypedSetMethod tpl (List V) (Sets.sinter tpl keys)

pub data TypedSortedSetMethod {S K V : Type 0} (tpl : RedisTemplate S K V)
    : (A : Type 0) → Exec S A → Type 1 where
  zadd :
      (key : K) (members : List (V × Double))
      → TypedSortedSetMethod tpl ℤ (SortedSets.zadd tpl key members)
  zrem : (key : K) (members : List V) → TypedSortedSetMethod tpl ℤ (SortedSets.zrem tpl key members)
  zincrby :
      (key : K) (increment : Double) (member : V)
      → TypedSortedSetMethod tpl Double (SortedSets.zincrby tpl key increment member)
  zscore :
      (key : K) (member : V)
      → TypedSortedSetMethod tpl (Option Double) (SortedSets.zscore tpl key member)
  zrange :
      (key : K) (start : ℤ) (stop : ℤ)
      → TypedSortedSetMethod tpl (List V) (SortedSets.zrange tpl key start stop)
  zrevrange :
      (key : K) (start : ℤ) (stop : ℤ)
      → TypedSortedSetMethod tpl (List V) (SortedSets.zrevrange tpl key start stop)
  zrange_withscores :
      (key : K) (start : ℤ) (stop : ℤ)
      → TypedSortedSetMethod tpl
          (List (V × Double))
          (SortedSets.zrange_withscores tpl key start stop)
  zrevrange_withscores :
      (key : K) (start : ℤ) (stop : ℤ)
      → TypedSortedSetMethod tpl
          (List (V × Double))
          (SortedSets.zrevrange_withscores tpl key start stop)

pub data TypedStreamMethod {S K V : Type 0} (tpl : RedisTemplate S K V)
    : (A : Type 0) → Exec S A → Type 1 where
  xadd :
      (key : K) (fields : List (K × V)) (options : StreamAddOptions)
      → TypedStreamMethod tpl (Option Bytes) (Streams.xadd tpl key fields options)
  xlen : (key : K) → TypedStreamMethod tpl ℤ (Streams.xlen tpl key)
  xrange :
      (key : K) (start : Bytes) (end : Bytes) (count : Option ℤ)
      → TypedStreamMethod tpl (List (StreamEntry K V)) (Streams.xrange tpl key start end count)
  xrevrange :
      (key : K) (end : Bytes) (start : Bytes) (count : Option ℤ)
      → TypedStreamMethod tpl (List (StreamEntry K V)) (Streams.xrevrange tpl key end start count)
  xread :
      (streams : List (StreamReadRequest K)) (options : StreamReadOptions)
      → TypedStreamMethod tpl (List (StreamBatch K V)) (Streams.xread tpl streams options)
  xdel : (key : K) (ids : List Bytes) → TypedStreamMethod tpl ℤ (Streams.xdel tpl key ids)
  xtrim :
      (key : K) (options : StreamTrimOptions)
      → TypedStreamMethod tpl ℤ (Streams.xtrim tpl key options)
  xgroup_create :
      (key : K) (group : Bytes) (id : Bytes) (mkstream : Bool)
      → TypedStreamMethod tpl Bool (Streams.xgroup_create tpl key group id mkstream)
  xgroup_setid :
      (key : K) (group : Bytes) (id : Bytes)
      → TypedStreamMethod tpl Bool (Streams.xgroup_setid tpl key group id)
  xgroup_destroy :
      (key : K) (group : Bytes) → TypedStreamMethod tpl Bool (Streams.xgroup_destroy tpl key group)
  xgroup_createconsumer :
      (key : K) (group : Bytes) (consumer : Bytes)
      → TypedStreamMethod tpl Bool (Streams.xgroup_createconsumer tpl key group consumer)
  xgroup_delconsumer :
      (key : K) (group : Bytes) (consumer : Bytes)
      → TypedStreamMethod tpl ℤ (Streams.xgroup_delconsumer tpl key group consumer)
  xreadgroup :
      (group : Bytes) (consumer : Bytes) (streams : List (StreamReadRequest K))
      (options : StreamReadGroupOptions)
      → TypedStreamMethod tpl
          (List (StreamBatch K V))
          (Streams.xreadgroup tpl group consumer streams options)
  xack :
      (key : K) (group : Bytes) (ids : List Bytes)
      → TypedStreamMethod tpl ℤ (Streams.xack tpl key group ids)

pub data TypedMethod {S K V : Type 0} ⦃eq : Eq K⦄ (tpl : RedisTemplate S K V)
    : (A : Type 0) → Exec S A → Type 1 where
  on_facade : {A : Type 0} {m : Exec S A} → FacadeMethod tpl A m → TypedMethod tpl A m
  on_values : {A : Type 0} {m : Exec S A} → ValueMethod tpl A m → TypedMethod tpl A m
  on_hashes : {A : Type 0} {m : Exec S A} → TypedHashMethod tpl A m → TypedMethod tpl A m
  on_lists : {A : Type 0} {m : Exec S A} → TypedListMethod tpl A m → TypedMethod tpl A m
  on_sets : {A : Type 0} {m : Exec S A} → TypedSetMethod tpl A m → TypedMethod tpl A m
  on_sorted_sets : {A : Type 0} {m : Exec S A} → TypedSortedSetMethod tpl A m → TypedMethod tpl A m
  on_streams : {A : Type 0} {m : Exec S A} → TypedStreamMethod tpl A m → TypedMethod tpl A m
