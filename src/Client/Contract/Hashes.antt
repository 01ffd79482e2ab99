-- ===== src/Client/Contract/Hashes.antt =====
-- The hash methods of `redis_client` send at most one command each.
use redisdal.Client.Hashes as Client
use redisdal.CmdOps.Hashes as Ops
use redisdal.Exec.{Exec, Executor}
use redisdal.Client.Methods
use redisdal.Client.Methods.{HashMethod}
use redisdal.Client.Contract.{OneCommand, contract_rules}

module _ {S : Type 0} (connection : Executor S) where
  pub HashMethod-OneCommand :
      {A : Type 0} {m : Exec S A} → HashMethod connection A m → OneCommand connection m
  unfolding Client.hget Client.hget_map Client.hset Client.hset_map Client.hgetall Client.hkeys
      Client.hvals Client.hscan Client.hdel Client.hdel_fields Ops.hget Ops.hget_fields Ops.hset
      Ops.hset_map Ops.hgetall Ops.hkeys Ops.hvals Ops.hscan Ops.hdel Ops.hdel_fields
  HashMethod-OneCommand (Methods.hget key hash_key) = search contract_rules
  HashMethod-OneCommand (Methods.hget_map key hash_map) = search contract_rules
  HashMethod-OneCommand (Methods.hset key field value) = search contract_rules
  HashMethod-OneCommand (Methods.hset_map key hash_map) = search contract_rules
  HashMethod-OneCommand (Methods.hgetall key) = search contract_rules
  HashMethod-OneCommand (Methods.hkeys key) = search contract_rules
  HashMethod-OneCommand (Methods.hvals key) = search contract_rules
  HashMethod-OneCommand (Methods.hscan key cursor pattern count hash_map) = search contract_rules
  HashMethod-OneCommand (Methods.hdel key hash_key) = search contract_rules
  HashMethod-OneCommand (Methods.hdel_fields key hash_keys) = search contract_rules
