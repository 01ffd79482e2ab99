-- ===== src/Client/Contract/Sets.antt =====
-- The set methods of `redis_client` send at most one command each.
use redisdal.Client.Sets as Client
use redisdal.CmdOps.Sets as Ops
use redisdal.Exec.{Exec, Executor}
use redisdal.Client.Methods
use redisdal.Client.Methods.{SetMethod}
use redisdal.Client.Contract.{OneCommand, contract_rules}

module _ {S : Type 0} (connection : Executor S) where
  pub SetMethod-OneCommand :
      {A : Type 0} {m : Exec S A} → SetMethod connection A m → OneCommand connection m
  unfolding Client.sadd Client.srem Client.smembers Client.scard Client.sismember Client.spop
      Client.sinter Ops.sadd Ops.srem Ops.smembers Ops.scard Ops.sismember Ops.spop Ops.sinter
  SetMethod-OneCommand (Methods.sadd key members) = search contract_rules
  SetMethod-OneCommand (Methods.srem key members) = search contract_rules
  SetMethod-OneCommand (Methods.smembers key) = search contract_rules
  SetMethod-OneCommand (Methods.scard key) = search contract_rules
  SetMethod-OneCommand (Methods.sismember key member) = search contract_rules
  SetMethod-OneCommand (Methods.spop key) = search contract_rules
  SetMethod-OneCommand (Methods.sinter keys) = search contract_rules
