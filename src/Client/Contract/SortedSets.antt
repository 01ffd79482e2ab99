-- ===== src/Client/Contract/SortedSets.antt =====
-- The sorted-set methods of `redis_client` send at most one command each.
use redisdal.Client.SortedSets as Client
use redisdal.CmdOps.SortedSets as Ops
use redisdal.Serialization.{DoubleChars}
use redisdal.Exec.{Exec, Executor}
use redisdal.Client.Methods
use redisdal.Client.Methods.{SortedSetMethod}
use redisdal.Client.Contract.{OneCommand, contract_rules}

module _ {S : Type 0} (connection : Executor S) (chars : DoubleChars) where
  pub SortedSetMethod-OneCommand :
      {A : Type 0} {m : Exec S A} → SortedSetMethod connection chars A m → OneCommand connection m
  unfolding Client.zadd Client.zrem Client.zscore Client.zrange Client.zrevrange
      Client.zrange_withscores Client.zrevrange_withscores Client.zincrby Ops.zadd Ops.zrem
      Ops.zscore Ops.zrange Ops.zrevrange Ops.zrange_withscores Ops.zrevrange_withscores Ops.zincrby
  SortedSetMethod-OneCommand (Methods.zadd key members) = search contract_rules
  SortedSetMethod-OneCommand (Methods.zrem key members) = search contract_rules
  SortedSetMethod-OneCommand (Methods.zscore key member) = search contract_rules
  SortedSetMethod-OneCommand (Methods.zrange key start stop) = search contract_rules
  SortedSetMethod-OneCommand (Methods.zrevrange key start stop) = search contract_rules
  SortedSetMethod-OneCommand (Methods.zrange_withscores key start stop) = search contract_rules
  SortedSetMethod-OneCommand (Methods.zrevrange_withscores key start stop) = search contract_rules
  SortedSetMethod-OneCommand (Methods.zincrby key increment member) = search contract_rules
