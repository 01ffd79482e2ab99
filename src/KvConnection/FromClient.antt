-- ===== src/KvConnection/FromClient.antt =====
-- `redis_client` as a `kv_connection`.
use redisdal.Serialization.{DoubleChars}
use redisdal.Exec.{Executor}
use redisdal.KvConnection.{
  KeyCommands, StringCommands, HashCommands, ListCommands, SetCommands, SortedSetCommands,
  StreamCommands, ScriptCommands, KvConnection,
}
use redisdal.Client.Keys
use redisdal.Client.Strings
use redisdal.Client.Hashes
use redisdal.Client.Lists
use redisdal.Client.Sets
use redisdal.Client.SortedSets
use redisdal.Client.Streams
use redisdal.Client.Scripts

module _ {S : Type 0} (connection : Executor S) (chars : DoubleChars) where
  abbrev client_key_commands : KeyCommands S
  client_key_commands = record {
    exists = Keys.exists connection;
    keys = Keys.keys connection;
    scan = Keys.scan connection;
    type = Keys.type connection;
    expire = Keys.expire connection;
    pexpire = Keys.pexpire connection;
    ttl = Keys.ttl connection;
    pttl = Keys.pttl connection;
    persist = Keys.persist connection;
    ping = Keys.ping connection;
    ping_message = Keys.ping_message connection;
    del = Keys.del connection;
    del_keys = Keys.del_keys connection;
  }

  abbrev client_string_commands : StringCommands S
  client_string_commands = record {
    set = Strings.set connection;
    set_not_exists = Strings.set_not_exists connection;
    set_ex = Strings.set_ex connection;
    set_px = Strings.set_px connection;
    get = Strings.get connection;
    getset = Strings.getset connection;
    incr = Strings.incr connection;
    decr = Strings.decr connection;
    append = Strings.append connection;
  }

  abbrev client_hash_commands : HashCommands S
  client_hash_commands = record {
    hget = Hashes.hget connection;
    hget_map = Hashes.hget_map connection;
    hset = Hashes.hset connection;
    hset_map = Hashes.hset_map connection;
    hgetall = Hashes.hgetall connection;
    hkeys = Hashes.hkeys connection;
    hvals = Hashes.hvals connection;
    hscan = Hashes.hscan connection;
    hdel = Hashes.hdel connection;
    hdel_fields = Hashes.hdel_fields connection;
  }

  abbrev client_list_commands : ListCommands S
  client_list_commands = record {
    llen = Lists.llen connection;
    lpush_values = Lists.lpush_values connection;
    lpush = Lists.lpush connection;
    rpush = Lists.rpush connection;
    rpush_values = Lists.rpush_values connection;
    lpop = Lists.lpop connection;
    rpop = Lists.rpop connection;
    lpop_count = Lists.lpop_count connection;
    rpop_count = Lists.rpop_count connection;
    lrange = Lists.lrange connection;
    lindex = Lists.lindex connection;
  }

  abbrev client_set_commands : SetCommands S
  client_set_commands = record {
    sadd = Sets.sadd connection;
    srem = Sets.srem connection;
    smembers = Sets.smembers connection;
    scard = Sets.scard connection;
    sismember = Sets.sismember connection;
    spop = Sets.spop connection;
    sinter = Sets.sinter connection;
  }

  abbrev client_sorted_set_commands : SortedSetCommands S
  client_sorted_set_commands = record {
    zadd = SortedSets.zadd connection chars;
    zrem = SortedSets.zrem connection;
    zscore = SortedSets.zscore connection chars;
    zrange = SortedSets.zrange connection;
    zrevrange = SortedSets.zrevrange connection;
    zrange_withscores = SortedSets.zrange_withscores connection chars;
    zrevrange_withscores = SortedSets.zrevrange_withscores connection chars;
    zincrby = SortedSets.zincrby connection chars;
  }

  abbrev client_stream_commands : StreamCommands S
  client_stream_commands = record {
    xadd = Streams.xadd connection;
    xlen = Streams.xlen connection;
    xrange = Streams.xrange connection;
    xrevrange = Streams.xrevrange connection;
    xread = Streams.xread connection;
    xdel = Streams.xdel connection;
    xtrim = Streams.xtrim connection;
    xgroup_create = Streams.xgroup_create connection;
    xgroup_setid = Streams.xgroup_setid connection;
    xgroup_destroy = Streams.xgroup_destroy connection;
    xgroup_createconsumer = Streams.xgroup_createconsumer connection;
    xgroup_delconsumer = Streams.xgroup_delconsumer connection;
    xreadgroup = Streams.xreadgroup connection;
    xack = Streams.xack connection;
  }

  abbrev client_script_commands : ScriptCommands S
  client_script_commands = record {
    script_load = Scripts.script_load connection;
    eval_sha1 = Scripts.eval_sha1 connection;
    eval = Scripts.eval connection;
    command = Scripts.command connection;
  }

  abbrev pub client_connection : KvConnection S
  client_connection = record {
    key_commands = client_key_commands;
    string_commands = client_string_commands;
    hash_commands = client_hash_commands;
    list_commands = client_list_commands;
    set_commands = client_set_commands;
    sorted_set_commands = client_sorted_set_commands;
    stream_commands = client_stream_commands;
    script_commands = client_script_commands;
  }
