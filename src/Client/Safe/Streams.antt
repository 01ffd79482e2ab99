-- ===== src/Client/Safe/Streams.antt =====
-- The stream methods of `redis_client` do nothing undefined.
use redisdal.Client.Streams as Client
use redisdal.CmdOps.Streams as Ops
use redisdal.Exec.{Exec, Executor}
use redisdal.Reply.Ensures.{Any}
use redisdal.Client.Methods
use redisdal.Client.Methods.{StreamMethod}
use redisdal.Client.Safe.{Safe, AnswersWellFormed, safe_rules, defined_rules}

module _ {S : Type 0} (connection : Executor S) (wf : AnswersWellFormed connection) where
  pub StreamMethod-Safe :
      {A : Type 0} {m : Exec S A} → StreamMethod connection A m → Safe connection Any m
  unfolding Client.xadd Client.xlen Client.xrange Client.xrevrange Client.xread Client.xdel
      Client.xtrim Client.xgroup_create Client.xgroup_setid Client.xgroup_destroy
      Client.xgroup_createconsumer Client.xgroup_delconsumer Client.xreadgroup Client.xack Ops.xadd
      Ops.xlen Ops.xrange Ops.xrevrange Ops.xread Ops.xdel Ops.xtrim Ops.xgroup_create
      Ops.xgroup_setid Ops.xgroup_destroy Ops.xgroup_createconsumer Ops.xgroup_delconsumer
      Ops.xreadgroup Ops.xack
  StreamMethod-Safe (Methods.xadd key fields options) = search (safe_rules, defined_rules)
  StreamMethod-Safe (Methods.xlen key) = search (safe_rules, defined_rules)
  StreamMethod-Safe (Methods.xrange key start end count) = search (safe_rules, defined_rules)
  StreamMethod-Safe (Methods.xrevrange key end start count) = search (safe_rules, defined_rules)
  StreamMethod-Safe (Methods.xread streams options) = search (safe_rules, defined_rules)
  StreamMethod-Safe (Methods.xdel key ids) = search (safe_rules, defined_rules)
  StreamMethod-Safe (Methods.xtrim key options) = search (safe_rules, defined_rules)
  StreamMethod-Safe (Methods.xgroup_create key group id mkstream) =
      search (safe_rules, defined_rules)
  StreamMethod-Safe (Methods.xgroup_setid key group id) = search (safe_rules, defined_rules)
  StreamMethod-Safe (Methods.xgroup_destroy key group) = search (safe_rules, defined_rules)
  StreamMethod-Safe (Methods.xgroup_createconsumer key group consumer) =
      search (safe_rules, defined_rules)
  StreamMethod-Safe (Methods.xgroup_delconsumer key group consumer) =
      search (safe_rules, defined_rules)
  StreamMethod-Safe (Methods.xreadgroup group consumer streams options) =
      search (safe_rules, defined_rules)
  StreamMethod-Safe (Methods.xack key group ids) = search (safe_rules, defined_rules)
