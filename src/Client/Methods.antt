-- ===== src/Client/Methods.antt =====
-- The methods of `redis_client` (src/redis_client.cpp), listed by the parts of the class: in each
-- family a value at `A` and `m` says that the action `m`, with a result of type `A`, is a call of one
-- of the methods.
use redisdal.Prelude.{ℕ, Bool, Option, List}
use redisdal.Prelude.Int.{ℤ}
use redisdal.Text.{Bytes}
use redisdal.Reply.{Double, CmdReply}
use redisdal.Reply.Decode.{StringMap, StringStreamEntry, StringStreamBatch}
use redisdal.Serialization.{DoubleChars}
use redisdal.Exec.{Exec, Executor}
use redisdal.Client.Requests.{ScanResult}
use redisdal.CmdOps.Options.{
  StreamTrimOptions, StreamAddOptions, StreamReadOptions, StreamReadGroupOptions,
  StringStreamReadRequest,
}
use redisdal.Client.Keys
use redisdal.Client.Strings
use redisdal.Client.Hashes
use redisdal.Client.Lists
use redisdal.Client.Sets
use redisdal.Client.SortedSets
use redisdal.Client.Streams
use redisdal.Client.Scripts

pub data KeyMethod {S : Type 0} (connection : Executor S) : (A : Type 0) → Exec S A → Type 1 where
  exists : (key : Bytes) → KeyMethod connection Bool (Keys.exists connection key)
  keys :
      (pattern : Bytes) (set : List Bytes)
      → KeyMethod connection (List Bytes) (Keys.keys connection pattern set)
  scan :
      (cursor : ℕ) (pattern : Bytes) (count : ℕ)
      → KeyMethod connection (ScanResult Bytes) (Keys.scan connection cursor pattern count)
  type : (key : Bytes) → KeyMethod connection Bytes (Keys.type connection key)
  expire :
      (key : Bytes) (seconds : ℤ) → KeyMethod connection Bool (Keys.expire connection key seconds)
  pexpire :
      (key : Bytes) (milliseconds : ℤ)
      → KeyMethod connection Bool (Keys.pexpire connection key milliseconds)
  ttl : (key : Bytes) → KeyMethod connection ℤ (Keys.ttl connection key)
  pttl : (key : Bytes) → KeyMethod connection ℤ (Keys.pttl connection key)
  persist : (key : Bytes) → KeyMethod connection Bool (Keys.persist connection key)
  ping : KeyMethod connection Bytes (Keys.ping connection)
  ping_message :
      (message : Bytes) → KeyMethod connection Bytes (Keys.ping_message connection message)
  del : (key : Bytes) → KeyMethod connection ℤ (Keys.del connection key)
  del_keys : (keys : List Bytes) → KeyMethod connection ℤ (Keys.del_keys connection keys)

pub data StringMethod {S : Type 0} (connection : Executor S)
    : (A : Type 0) → Exec S A → Type 1 where
  set :
      (key : Bytes) (value : Bytes)
      → StringMethod connection Bool (Strings.set connection key value)
  set_not_exists :
      (key : Bytes) (value : Bytes)
      → StringMethod connection Bool (Strings.set_not_exists connection key value)
  set_ex :
      (key : Bytes) (value : Bytes) (seconds : ℤ)
      → StringMethod connection Bool (Strings.set_ex connection key value seconds)
  set_px :
      (key : Bytes) (value : Bytes) (milliseconds : ℤ)
      → StringMethod connection Bool (Strings.set_px connection key value milliseconds)
  get : (key : Bytes) → StringMethod connection (Option Bytes) (Strings.get connection key)
  getset :
      (key : Bytes) (new_value : Bytes)
      → StringMethod connection (Option Bytes) (Strings.getset connection key new_value)
  incr : (key : Bytes) (delta : ℤ) → StringMethod connection ℤ (Strings.incr connection key delta)
  decr : (key : Bytes) (delta : ℤ) → StringMethod connection ℤ (Strings.decr connection key delta)
  append :
      (key : Bytes) (value : Bytes)
      → StringMethod connection ℤ (Strings.append connection key value)

pub data HashMethod {S : Type 0} (connection : Executor S) : (A : Type 0) → Exec S A → Type 1 where
  hget :
      (key : Bytes) (hash_key : Bytes)
      → HashMethod connection (Option Bytes) (Hashes.hget connection key hash_key)
  hget_map :
      (key : Bytes) (hash_map : List (Bytes × Option Bytes))
      → HashMethod connection
          (List (Bytes × Option Bytes))
          (Hashes.hget_map connection key hash_map)
  hset :
      (key : Bytes) (field : Bytes) (value : Bytes)
      → HashMethod connection Bool (Hashes.hset connection key field value)
  hset_map :
      (key : Bytes) (hash_map : StringMap)
      → HashMethod connection Bool (Hashes.hset_map connection key hash_map)
  hgetall : (key : Bytes) → HashMethod connection StringMap (Hashes.hgetall connection key)
  hkeys : (key : Bytes) → HashMethod connection (List Bytes) (Hashes.hkeys connection key)
  hvals : (key : Bytes) → HashMethod connection (List Bytes) (Hashes.hvals connection key)
  hscan :
      (key : Bytes) (cursor : ℕ) (pattern : Bytes) (count : ℕ) (hash_map : StringMap)
      → HashMethod connection
          (ℕ × StringMap)
          (Hashes.hscan connection key cursor pattern count hash_map)
  hdel :
      (key : Bytes) (hash_key : Bytes)
      → HashMethod connection ℤ (Hashes.hdel connection key hash_key)
  hdel_fields :
      (key : Bytes) (hash_keys : List Bytes)
      → HashMethod connection ℤ (Hashes.hdel_fields connection key hash_keys)

pub data ListMethod {S : Type 0} (connection : Executor S) : (A : Type 0) → Exec S A → Type 1 where
  llen : (key : Bytes) → ListMethod connection ℤ (Lists.llen connection key)
  lpush_values :
      (key : Bytes) (values : List Bytes)
      → ListMethod connection ℤ (Lists.lpush_values connection key values)
  lpush : (key : Bytes) (value : Bytes) → ListMethod connection ℤ (Lists.lpush connection key value)
  rpush : (key : Bytes) (value : Bytes) → ListMethod connection ℤ (Lists.rpush connection key value)
  rpush_values :
      (key : Bytes) (values : List Bytes)
      → ListMethod connection ℤ (Lists.rpush_values connection key values)
  lpop : (key : Bytes) → ListMethod connection (Option Bytes) (Lists.lpop connection key)
  rpop : (key : Bytes) → ListMethod connection (Option Bytes) (Lists.rpop connection key)
  lpop_count :
      (key : Bytes) (count : ℤ)
      → ListMethod connection (List Bytes) (Lists.lpop_count connection key count)
  rpop_count :
      (key : Bytes) (count : ℤ)
      → ListMethod connection (List Bytes) (Lists.rpop_count connection key count)
  lrange :
      (key : Bytes) (start : ℤ) (stop : ℤ)
      → ListMethod connection (List Bytes) (Lists.lrange connection key start stop)
  lindex :
      (key : Bytes) (index : ℤ)
      → ListMethod connection (Option Bytes) (Lists.lindex connection key index)

pub data SetMethod {S : Type 0} (connection : Executor S) : (A : Type 0) → Exec S A → Type 1 where
  sadd :
      (key : Bytes) (members : List Bytes)
      → SetMethod connection ℤ (Sets.sadd connection key members)
  srem :
      (key : Bytes) (members : List Bytes)
      → SetMethod connection ℤ (Sets.srem connection key members)
  smembers : (key : Bytes) → SetMethod connection (List Bytes) (Sets.smembers connection key)
  scard : (key : Bytes) → SetMethod connection ℤ (Sets.scard connection key)
  sismember :
      (key : Bytes) (member : Bytes)
      → SetMethod connection Bool (Sets.sismember connection key member)
  spop : (key : Bytes) → SetMethod connection (Option Bytes) (Sets.spop connection key)
  sinter : (keys : List Bytes) → SetMethod connection (List Bytes) (Sets.sinter connection keys)

pub data SortedSetMethod {S : Type 0} (connection : Executor S) (chars : DoubleChars)
    : (A : Type 0) → Exec S A → Type 1 where
  zadd :
      (key : Bytes) (members : List (Bytes × Double))
      → SortedSetMethod connection chars ℤ (SortedSets.zadd connection chars key members)
  zrem :
      (key : Bytes) (members : List Bytes)
      → SortedSetMethod connection chars ℤ (SortedSets.zrem connection key members)
  zscore :
      (key : Bytes) (member : Bytes)
      → SortedSetMethod connection chars
          (Option Double)
          (SortedSets.zscore connection chars key member)
  zrange :
      (key : Bytes) (start : ℤ) (stop : ℤ)
      → SortedSetMethod connection chars (List Bytes) (SortedSets.zrange connection key start stop)
  zrevrange :
      (key : Bytes) (start : ℤ) (stop : ℤ)
      → SortedSetMethod connection chars
          (List Bytes)
          (SortedSets.zrevrange connection key start stop)
  zrange_withscores :
      (key : Bytes) (start : ℤ) (stop : ℤ)
      → SortedSetMethod connection chars
          (List (Bytes × Double))
          (SortedSets.zrange_withscores connection chars key start stop)
  zrevrange_withscores :
      (key : Bytes) (start : ℤ) (stop : ℤ)
      → SortedSetMethod connection chars
          (List (Bytes × Double))
          (SortedSets.zrevrange_withscores connection chars key start stop)
  zincrby :
      (key : Bytes) (increment : Double) (member : Bytes)
      → SortedSetMethod connection chars Double
          (SortedSets.zincrby connection chars key increment member)

pub data StreamMethod {S : Type 0} (connection : Executor S)
    : (A : Type 0) → Exec S A → Type 1 where
  xadd :
      (key : Bytes) (fields : List (Bytes × Bytes)) (options : StreamAddOptions)
      → StreamMethod connection (Option Bytes) (Streams.xadd connection key fields options)
  xlen : (key : Bytes) → StreamMethod connection ℤ (Streams.xlen connection key)
  xrange :
      (key : Bytes) (start : Bytes) (end : Bytes) (count : Option ℤ)
      → StreamMethod connection
          (List StringStreamEntry)
          (Streams.xrange connection key start end count)
  xrevrange :
      (key : Bytes) (end : Bytes) (start : Bytes) (count : Option ℤ)
      → StreamMethod connection
          (List StringStreamEntry)
          (Streams.xrevrange connection key end start count)
  xread :
      (streams : List StringStreamReadRequest) (options : StreamReadOptions)
      → StreamMethod connection (List StringStreamBatch) (Streams.xread connection streams options)
  xdel :
      (key : Bytes) (ids : List Bytes) → StreamMethod connection ℤ (Streams.xdel connection key ids)
  xtrim :
      (key : Bytes) (options : StreamTrimOptions)
      → StreamMethod connection ℤ (Streams.xtrim connection key options)
  xgroup_create :
      (key : Bytes) (group : Bytes) (id : Bytes) (mkstream : Bool)
      → StreamMethod connection Bool (Streams.xgroup_create connection key group id mkstream)
  xgroup_setid :
      (key : Bytes) (group : Bytes) (id : Bytes)
      → StreamMethod connection Bool (Streams.xgroup_setid connection key group id)
  xgroup_destroy :
      (key : Bytes) (group : Bytes)
      → StreamMethod connection Bool (Streams.xgroup_destroy connection key group)
  xgroup_createconsumer :
      (key : Bytes) (group : Bytes) (consumer : Bytes)
      → StreamMethod connection Bool (Streams.xgroup_createconsumer connection key group consumer)
  xgroup_delconsumer :
      (key : Bytes) (group : Bytes) (consumer : Bytes)
      → StreamMethod connection ℤ (Streams.xgroup_delconsumer connection key group consumer)
  xreadgroup :
      (group : Bytes) (consumer : Bytes) (streams : List StringStreamReadRequest)
      (options : StreamReadGroupOptions)
      → StreamMethod connection
          (List StringStreamBatch)
          (Streams.xreadgroup connection group consumer streams options)
  xack :
      (key : Bytes) (group : Bytes) (ids : List Bytes)
      → StreamMethod connection ℤ (Streams.xack connection key group ids)

pub data ScriptMethod {S : Type 0} (connection : Executor S)
    : (A : Type 0) → Exec S A → Type 1 where
  script_load :
      (script : Bytes) → ScriptMethod connection Bytes (Scripts.script_load connection script)
  eval_sha1 :
      (sha1 : Bytes) (keys : List Bytes) (args : List Bytes)
      → ScriptMethod connection CmdReply (Scripts.eval_sha1 connection sha1 keys args)
  eval :
      (script : Bytes) (keys : List Bytes) (args : List Bytes)
      → ScriptMethod connection CmdReply (Scripts.eval connection script keys args)
  command :
      (cmd : Bytes) (args : List Bytes)
      → ScriptMethod connection CmdReply (Scripts.command connection cmd args)

pub data Method {S : Type 0} (connection : Executor S) (chars : DoubleChars)
    : (A : Type 0) → Exec S A → Type 1 where
  on_keys : {A : Type 0} {m : Exec S A} → KeyMethod connection A m → Method connection chars A m
  on_strings :
      {A : Type 0} {m : Exec S A} → StringMethod connection A m → Method connection chars A m
  on_hashes : {A : Type 0} {m : Exec S A} → HashMethod connection A m → Method connection chars A m
  on_lists : {A : Type 0} {m : Exec S A} → ListMethod connection A m → Method connection chars A m
  on_sets : {A : Type 0} {m : Exec S A} → SetMethod connection A m → Method connection chars A m
  on_sorted_sets :
      {A : Type 0} {m : Exec S A}
      → SortedSetMethod connection chars A m
      → Method connection chars A m
  on_streams :
      {A : Type 0} {m : Exec S A} → StreamMethod connection A m → Method connection chars A m
  on_scripts :
      {A : Type 0} {m : Exec S A} → ScriptMethod connection A m → Method connection chars A m
