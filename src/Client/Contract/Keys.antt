-- ===== src/Client/Contract/Keys.antt =====
-- The key methods of `redis_client` send at most one command each.
use redisdal.Client.Keys as Client
use redisdal.CmdOps.Keys as Ops
use redisdal.Exec.{Exec, Executor}
use redisdal.Client.Methods
use redisdal.Client.Methods.{KeyMethod}
use redisdal.Client.Contract.{OneCommand, contract_rules}

module _ {S : Type 0} (connection : Executor S) where
  pub KeyMethod-OneCommand :
      {A : Type 0} {m : Exec S A} → KeyMethod connection A m → OneCommand connection m
  unfolding Client.exists Client.keys Client.scan Client.type Client.expire Client.pexpire
      Client.ttl Client.pttl Client.persist Client.ping Client.ping_message Client.del
      Client.del_keys Ops.exists Ops.keys Ops.scan Ops.type Ops.expire Ops.pexpire Ops.ttl Ops.pttl
      Ops.persist Ops.ping Ops.ping_message Ops.del Ops.del_keys
  KeyMethod-OneCommand (Methods.exists key) = search contract_rules
  KeyMethod-OneCommand (Methods.keys pattern set) = search contract_rules
  KeyMethod-OneCommand (Methods.scan cursor pattern count) = search contract_rules
  KeyMethod-OneCommand (Methods.type key) = search contract_rules
  KeyMethod-OneCommand (Methods.expire key seconds) = search contract_rules
  KeyMethod-OneCommand (Methods.pexpire key milliseconds) = search contract_rules
  KeyMethod-OneCommand (Methods.ttl key) = search contract_rules
  KeyMethod-OneCommand (Methods.pttl key) = search contract_rules
  KeyMethod-OneCommand (Methods.persist key) = search contract_rules
  KeyMethod-OneCommand Methods.ping = search contract_rules
  KeyMethod-OneCommand (Methods.ping_message message) = search contract_rules
  KeyMethod-OneCommand (Methods.del key) = search contract_rules
  KeyMethod-OneCommand (Methods.del_keys keys) = search contract_rules
