-- ===== src/Client/Contract/Strings.antt =====
-- The string methods of `redis_client` send at most one command each.
use redisdal.Client.Strings as Client
use redisdal.CmdOps.Strings as Ops
use redisdal.Exec.{Exec, Executor}
use redisdal.Client.Methods
use redisdal.Client.Methods.{StringMethod}
use redisdal.Client.Contract.{OneCommand, contract_rules}

module _ {S : Type 0} (connection : Executor S) where
  pub StringMethod-OneCommand :
      {A : Type 0} {m : Exec S A} → StringMethod connection A m → OneCommand connection m
  unfolding Client.set Client.set_not_exists Client.set_ex Client.set_px Client.get Client.getset
      Client.incr Client.decr Client.append Ops.set Ops.set_not_exists Ops.set_ex Ops.set_px Ops.get
      Ops.getset Ops.incr Ops.decr Ops.append
  StringMethod-OneCommand (Methods.set key value) = search contract_rules
  StringMethod-OneCommand (Methods.set_not_exists key value) = search contract_rules
  StringMethod-OneCommand (Methods.set_ex key value seconds) = search contract_rules
  StringMethod-OneCommand (Methods.set_px key value milliseconds) = search contract_rules
  StringMethod-OneCommand (Methods.get key) = search contract_rules
  StringMethod-OneCommand (Methods.getset key new_value) = search contract_rules
  StringMethod-OneCommand (Methods.incr key delta) = search contract_rules
  StringMethod-OneCommand (Methods.decr key delta) = search contract_rules
  StringMethod-OneCommand (Methods.append key value) = search contract_rules
