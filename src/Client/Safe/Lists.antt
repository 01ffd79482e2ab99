-- ===== src/Client/Safe/Lists.antt =====
-- The list methods of `redis_client` do nothing undefined.
use redisdal.Client.Lists as Client
use redisdal.CmdOps.Lists as Ops
use redisdal.Exec.{Exec, Executor}
use redisdal.Reply.Ensures.{Any}
use redisdal.Client.Methods
use redisdal.Client.Methods.{ListMethod}
use redisdal.Client.Safe.{Safe, AnswersWellFormed, safe_rules, defined_rules}

module _ {S : Type 0} (connection : Executor S) (wf : AnswersWellFormed connection) where
  pub ListMethod-Safe :
      {A : Type 0} {m : Exec S A} → ListMethod connection A m → Safe connection Any m
  unfolding Client.llen Client.lpush_values Client.lpush Client.rpush Client.rpush_values
      Client.lpop Client.rpop Client.lpop_count Client.rpop_count Client.lrange Client.lindex
      Ops.llen Ops.lpush_values Ops.lpush Ops.rpush Ops.rpush_values Ops.lpop Ops.rpop
      Ops.lpop_count Ops.rpop_count Ops.lrange Ops.lindex
  ListMethod-Safe (Methods.llen key) = search (safe_rules, defined_rules)
  ListMethod-Safe (Methods.lpush_values key values) = search (safe_rules, defined_rules)
  ListMethod-Safe (Methods.lpush key value) = search (safe_rules, defined_rules)
  ListMethod-Safe (Methods.rpush key value) = search (safe_rules, defined_rules)
  ListMethod-Safe (Methods.rpush_values key values) = search (safe_rules, defined_rules)
  ListMethod-Safe (Methods.lpop key) = search (safe_rules, defined_rules)
  ListMethod-Safe (Methods.rpop key) = search (safe_rules, defined_rules)
  ListMethod-Safe (Methods.lpop_count key count) = search (safe_rules, defined_rules)
  ListMethod-Safe (Methods.rpop_count key count) = search (safe_rules, defined_rules)
  ListMethod-Safe (Methods.lrange key start stop) = search (safe_rules, defined_rules)
  ListMethod-Safe (Methods.lindex key index) = search (safe_rules, defined_rules)
