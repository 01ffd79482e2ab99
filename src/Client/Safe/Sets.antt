-- ===== src/Client/Safe/Sets.antt =====
-- The set methods of `redis_client` do nothing undefined.
use redisdal.Client.Sets as Client
use redisdal.CmdOps.Sets as Ops
use redisdal.Exec.{Exec, Executor}
use redisdal.Reply.Ensures.{Any}
use redisdal.Client.Methods
use redisdal.Client.Methods.{SetMethod}
use redisdal.Client.Safe.{Safe, AnswersWellFormed, safe_rules, defined_rules}

module _ {S : Type 0} (connection : Executor S) (wf : AnswersWellFormed connection) where
  pub SetMethod-Safe :
      {A : Type 0} {m : Exec S A} → SetMethod connection A m → Safe connection Any m
  unfolding Client.sadd Client.srem Client.smembers Client.scard Client.sismember Client.spop
      Client.sinter Ops.sadd Ops.srem Ops.smembers Ops.scard Ops.sismember Ops.spop Ops.sinter
  SetMethod-Safe (Methods.sadd key members) = search (safe_rules, defined_rules)
  SetMethod-Safe (Methods.srem key members) = search (safe_rules, defined_rules)
  SetMethod-Safe (Methods.smembers key) = search (safe_rules, defined_rules)
  SetMethod-Safe (Methods.scard key) = search (safe_rules, defined_rules)
  SetMethod-Safe (Methods.sismember key member) = search (safe_rules, defined_rules)
  SetMethod-Safe (Methods.spop key) = search (safe_rules, defined_rules)
  SetMethod-Safe (Methods.sinter keys) = search (safe_rules, defined_rules)
