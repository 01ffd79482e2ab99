-- ===== src/Client/Safe/Keys.antt =====
-- The key methods of `redis_client` do nothing undefined.
use redisdal.Client.Keys as Client
use redisdal.CmdOps.Keys as Ops
use redisdal.Exec.{Exec, Executor}
use redisdal.Reply.Ensures.{Any}
use redisdal.Client.Methods
use redisdal.Client.Methods.{KeyMethod}
use redisdal.Client.Safe.{Safe, AnswersWellFormed, safe_rules, defined_rules}

module _ {S : Type 0} (connection : Executor S) (wf : AnswersWellFormed connection) where
  pub KeyMethod-Safe :
      {A : Type 0} {m : Exec S A} → KeyMethod connection A m → Safe connection Any m
  unfolding Client.exists Client.keys Client.scan Client.type Client.expire Client.pexpire
      Client.ttl Client.pttl Client.persist Client.ping Client.ping_message Client.del
      Client.del_keys Ops.exists Ops.keys Ops.scan Ops.type Ops.expire Ops.pexpire Ops.ttl Ops.pttl
      Ops.persist Ops.ping Ops.ping_message Ops.del Ops.del_keys
  KeyMethod-Safe (Methods.exists key) = search (safe_rules, defined_rules)
  KeyMethod-Safe (Methods.keys pattern set) = search (safe_rules, defined_rules)
  KeyMethod-Safe (Methods.scan cursor pattern count) = search (safe_rules, defined_rules)
  KeyMethod-Safe (Methods.type key) = search (safe_rules, defined_rules)
  KeyMethod-Safe (Methods.expire key seconds) = search (safe_rules, defined_rules)
  KeyMethod-Safe (Methods.pexpire key milliseconds) = search (safe_rules, defined_rules)
  KeyMethod-Safe (Methods.ttl key) = search (safe_rules, defined_rules)
  KeyMethod-Safe (Methods.pttl key) = search (safe_rules, defined_rules)
  KeyMethod-Safe (Methods.persist key) = search (safe_rules, defined_rules)
  KeyMethod-Safe Methods.ping = search (safe_rules, defined_rules)
  KeyMethod-Safe (Methods.ping_message message) = search (safe_rules, defined_rules)
  KeyMethod-Safe (Methods.del key) = search (safe_rules, defined_rules)
  KeyMethod-Safe (Methods.del_keys keys) = search (safe_rules, defined_rules)
