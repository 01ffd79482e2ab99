-- ===== src/Client/Safe/Strings.antt =====
-- The string methods of `redis_client` do nothing undefined.
use redisdal.Client.Strings as Client
use redisdal.CmdOps.Strings as Ops
use redisdal.Exec.{Exec, Executor}
use redisdal.Reply.Ensures.{Any}
use redisdal.Client.Methods
use redisdal.Client.Methods.{StringMethod}
use redisdal.Client.Safe.{Safe, AnswersWellFormed, safe_rules, defined_rules}

module _ {S : Type 0} (connection : Executor S) (wf : AnswersWellFormed connection) where
  pub StringMethod-Safe :
      {A : Type 0} {m : Exec S A} → StringMethod connection A m → Safe connection Any m
  unfolding Client.set Client.set_not_exists Client.set_ex Client.set_px Client.get Client.getset
      Client.incr Client.decr Client.append Ops.set Ops.set_not_exists Ops.set_ex Ops.set_px Ops.get
      Ops.getset Ops.incr Ops.decr Ops.append
  StringMethod-Safe (Methods.set key value) = search (safe_rules, defined_rules)
  StringMethod-Safe (Methods.set_not_exists key value) = search (safe_rules, defined_rules)
  StringMethod-Safe (Methods.set_ex key value seconds) = search (safe_rules, defined_rules)
  StringMethod-Safe (Methods.set_px key value milliseconds) = search (safe_rules, defined_rules)
  StringMethod-Safe (Methods.get key) = search (safe_rules, defined_rules)
  StringMethod-Safe (Methods.getset key new_value) = search (safe_rules, defined_rules)
  StringMethod-Safe (Methods.incr key delta) = search (safe_rules, defined_rules)
  StringMethod-Safe (Methods.decr key delta) = search (safe_rules, defined_rules)
  StringMethod-Safe (Methods.append key value) = search (safe_rules, defined_rules)
