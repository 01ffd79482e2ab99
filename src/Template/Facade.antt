-- ===== src/Template/Facade.antt =====
-- The views that a facade owns: `ops_for_value` and its siblings of
-- include/redisdal/redis_template.hpp, over the constructor's default views.
use redisdal.Template.{RedisTemplate}
use redisdal.Containers.{Eq}
use redisdal.Operations.{
  ValueOperations, HashOperations, ListOperations, SetOperations, ZsetOperations, StreamOperations,
}
use redisdal.Template.Views.Values
use redisdal.Template.Views.Hashes
use redisdal.Template.Views.Lists
use redisdal.Template.Views.Sets
use redisdal.Template.Views.SortedSets
use redisdal.Template.Views.Streams

module _ {S K V : Type 0} (tpl : RedisTemplate S K V) where
  unfoldable pub default_value_operations : ValueOperations S K V
  default_value_operations = record {
    set = Values.set tpl;
    get = Values.get tpl;
    incr = Values.incr tpl;
    decr = Values.decr tpl;
    append = Values.append tpl;
    get_and_set = Values.get_and_set tpl;
  }

  -- `ops_for_value`
  unfoldable pub ops_for_value : ValueOperations S K V
  unfolding default_value_operations
  ops_for_value = default_value_operations

  unfoldable pub default_list_operations : ListOperations S K V
  default_list_operations = record {
    lpush_values = Lists.lpush_values tpl;
    lpush = Lists.lpush tpl;
    rpush_values = Lists.rpush_values tpl;
    rpush = Lists.rpush tpl;
    lpop = Lists.lpop tpl;
    lpop_count = Lists.lpop_count tpl;
    rpop = Lists.rpop tpl;
    rpop_count = Lists.rpop_count tpl;
    lrange = Lists.lrange tpl;
    llen = Lists.llen tpl;
    lindex = Lists.lindex tpl;
  }

  -- `ops_for_list`
  unfoldable pub ops_for_list : ListOperations S K V
  unfolding default_list_operations
  ops_for_list = default_list_operations

  unfoldable pub default_set_operations : SetOperations S K V
  default_set_operations = record {
    sadd = Sets.sadd tpl;
    srem = Sets.srem tpl;
    spop = Sets.spop tpl;
    smembers = Sets.smembers tpl;
    scard = Sets.scard tpl;
    sismember = Sets.sismember tpl;
    sinter = Sets.sinter tpl;
  }

  -- `ops_for_set`
  unfoldable pub ops_for_set : SetOperations S K V
  unfolding default_set_operations
  ops_for_set = default_set_operations

  unfoldable pub default_zset_operations : ZsetOperations S K V
  default_zset_operations = record {
    zadd = SortedSets.zadd tpl;
    zrem = SortedSets.zrem tpl;
    zincrby = SortedSets.zincrby tpl;
    zscore = SortedSets.zscore tpl;
    zrange = SortedSets.zrange tpl;
    zrevrange = SortedSets.zrevrange tpl;
    zrange_withscores = SortedSets.zrange_withscores tpl;
    zrevrange_withscores = SortedSets.zrevrange_withscores tpl;
  }

  -- `ops_for_zset`
  unfoldable pub ops_for_zset : ZsetOperations S K V
  unfolding default_zset_operations
  ops_for_zset = default_zset_operations

  unfoldable pub default_stream_operations : StreamOperations S K V
  default_stream_operations = record {
    xadd = Streams.xadd tpl;
    xlen = Streams.xlen tpl;
    xrange = Streams.xrange tpl;
    xrevrange = Streams.xrevrange tpl;
    xread = Streams.xread tpl;
    xdel = Streams.xdel tpl;
    xtrim = Streams.xtrim tpl;
    xgroup_create = Streams.xgroup_create tpl;
    xgroup_setid = Streams.xgroup_setid tpl;
    xgroup_destroy = Streams.xgroup_destroy tpl;
    xgroup_createconsumer = Streams.xgroup_createconsumer tpl;
    xgroup_delconsumer = Streams.xgroup_delconsumer tpl;
    xreadgroup = Streams.xreadgroup tpl;
    xack = Streams.xack tpl;
  }

  -- `ops_for_stream`
  unfoldable pub ops_for_stream : StreamOperations S K V
  unfolding default_stream_operations
  ops_for_stream = default_stream_operations

module _ {S K V : Type 0} ⦃eq : Eq K⦄ (tpl : RedisTemplate S K V) where
  unfoldable pub default_hash_operations : HashOperations S K V
  default_hash_operations = record {
    hget = Hashes.hget tpl;
    hkeys = Hashes.hkeys tpl;
    hvals = Hashes.hvals tpl;
    hset = Hashes.hset tpl;
    hset_map = Hashes.hset_map tpl;
    hdel = Hashes.hdel tpl;
    hdel_fields = Hashes.hdel_fields tpl;
    hgetall = Hashes.hgetall tpl;
    hget_map = Hashes.hget_map tpl;
    hscan = Hashes.hscan tpl;
  }

  -- `ops_for_hash`
  unfoldable pub ops_for_hash : HashOperations S K V
  unfolding default_hash_operations
  ops_for_hash = default_hash_operations
