-- ===== src/Client/Contract/Streams.antt =====
-- The stream methods of `redis_client` send at most one command each.
use redisdal.Client.Streams as Client
use redisdal.CmdOps.Streams as Ops
use redisdal.Exec.{Exec, Executor}
use redisdal.Client.Methods
use redisdal.Client.Methods.{StreamMethod}
use redisdal.Client.Contract.{OneCommand, contract_rules}

module _ {S : Type 0} (connection : Executor S) where
  pub StreamMethod-OneCommand :
      {A : Type 0} {m : Exec S A} → StreamMethod connection A m → OneCommand connection m
  unfolding Client.xadd Client.xlen Client.xrange Client.xrevrange Client.xread Client.xdel
      Client.xtrim Client.xgroup_create Client.xgroup_setid Client.xgroup_destroy
      Client.xgroup_createconsumer Client.xgroup_delconsumer Client.xreadgroup Client.xack Ops.xadd
      Ops.xlen Ops.xrange Ops.xrevrange Ops.xread Ops.xdel Ops.xtrim Ops.xgroup_create
      Ops.xgroup_setid Ops.xgroup_destroy Ops.xgroup_createconsumer Ops.xgroup_delconsumer
      Ops.xreadgroup Ops.xack
  StreamMethod-OneCommand (Methods.xadd key fields options) = search contract_rules
  StreamMethod-OneCommand (Methods.xlen key) = search contract_rules
  StreamMethod-OneCommand (Methods.xrange key start end count) = search contract_rules
  StreamMethod-OneCommand (Methods.xrevrange key end start count) = search contract_rules
  StreamMethod-OneCommand (Methods.xread streams options) = search contract_rules
  StreamMethod-OneCommand (Methods.xdel key ids) = search contract_rules
  StreamMethod-OneCommand (Methods.xtrim key options) = search contract_rules
  StreamMethod-OneCommand (Methods.xgroup_create key group id mkstream) = search contract_rules
  StreamMethod-OneCommand (Methods.xgroup_setid key group id) = search contract_rules
  StreamMethod-OneCommand (Methods.xgroup_destroy key group) = search contract_rules
  StreamMethod-OneCommand (Methods.xgroup_createconsumer key group consumer) = search contract_rules
  StreamMethod-OneCommand (Methods.xgroup_delconsumer key group consumer) = search contract_rules
  StreamMethod-OneCommand (Methods.xreadgroup group consumer streams options) =
      search contract_rules
  StreamMethod-OneCommand (Methods.xack key group ids) = search contract_rules
