-- ===== src/Client/Contract/Lists.antt =====
-- The list methods of `redis_client` send at most one command each.
use redisdal.Client.Lists as Client
use redisdal.CmdOps.Lists as Ops
use redisdal.Exec.{Exec, Executor}
use redisdal.Client.Methods
use redisdal.Client.Methods.{ListMethod}
use redisdal.Client.Contract.{OneCommand, contract_rules}

module _ {S : Type 0} (connection : Executor S) where
  pub ListMethod-OneCommand :
      {A : Type 0} {m : Exec S A} → ListMethod connection A m → OneCommand connection m
  unfolding Client.llen Client.lpush_values Client.lpush Client.rpush Client.rpush_values
      Client.lpop Client.rpop Client.lpop_count Client.rpop_count Client.lrange Client.lindex
      Ops.llen Ops.lpush_values Ops.lpush Ops.rpush Ops.rpush_values Ops.lpop Ops.rpop
      Ops.lpop_count Ops.rpop_count Ops.lrange Ops.lindex
  ListMethod-OneCommand (Methods.llen key) = search contract_rules
  ListMethod-OneCommand (Methods.lpush_values key values) = search contract_rules
  ListMethod-OneCommand (Methods.lpush key value) = search contract_rules
  ListMethod-OneCommand (Methods.rpush key value) = search contract_rules
  ListMethod-OneCommand (Methods.rpush_values key values) = search contract_rules
  ListMethod-OneCommand (Methods.lpop key) = search contract_rules
  ListMethod-OneCommand (Methods.rpop key) = search contract_rules
  ListMethod-OneCommand (Methods.lpop_count key count) = search contract_rules
  ListMethod-OneCommand (Methods.rpop_count key count) = search contract_rules
  ListMethod-OneCommand (Methods.lrange key start stop) = search contract_rules
  ListMethod-OneCommand (Methods.lindex key index) = search contract_rules
