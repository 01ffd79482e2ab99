-- ===== src/Client/Safe/SortedSets.antt =====
-- The sorted-set methods of `redis_client` do nothing undefined.
use redisdal.Client.SortedSets as Client
use redisdal.CmdOps.SortedSets as Ops
use redisdal.Serialization.{DoubleChars}
use redisdal.Exec.{Exec, Executor}
use redisdal.Reply.Ensures.{Any}
use redisdal.Client.Methods
use redisdal.Client.Methods.{SortedSetMethod}
use redisdal.Client.Safe.{Safe, AnswersWellFormed, safe_rules, defined_rules}

module _ {S : Type 0} (connection : Executor S) (chars : DoubleChars)
    (wf : AnswersWellFormed connection) where
  pub SortedSetMethod-Safe :
      {A : Type 0} {m : Exec S A} → SortedSetMethod connection chars A m → Safe connection Any m
  unfolding Client.zadd Client.zrem Client.zscore Client.zrange Client.zrevrange
      Client.zrange_withscores Client.zrevrange_withscores Client.zincrby Ops.zadd Ops.zrem
      Ops.zscore Ops.zrange Ops.zrevrange Ops.zrange_withscores Ops.zrevrange_withscores Ops.zincrby
  SortedSetMethod-Safe (Methods.zadd key members) = search (safe_rules, defined_rules)
  SortedSetMethod-Safe (Methods.zrem key members) = search (safe_rules, defined_rules)
  SortedSetMethod-Safe (Methods.zscore key member) = search (safe_rules, defined_rules)
  SortedSetMethod-Safe (Methods.zrange key start stop) = search (safe_rules, defined_rules)
  SortedSetMethod-Safe (Methods.zrevrange key start stop) = search (safe_rules, defined_rules)
  SortedSetMethod-Safe (Methods.zrange_withscores key start stop) =
      search (safe_rules, defined_rules)
  SortedSetMethod-Safe (Methods.zrevrange_withscores key start stop) =
      search (safe_rules, defined_rules)
  SortedSetMethod-Safe (Methods.zincrby key increment member) = search (safe_rules, defined_rules)
