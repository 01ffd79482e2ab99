-- ===== src/Client/Safe/Hashes.antt =====
-- The hash methods of `redis_client` do nothing undefined.
use redisdal.Client.Hashes as Client
use redisdal.CmdOps.Hashes as Ops
use redisdal.Exec.{Exec, Executor}
use redisdal.Reply.Ensures.{Any}
use redisdal.Client.Methods
use redisdal.Client.Methods.{HashMethod}
use redisdal.Client.Safe.{Safe, AnswersWellFormed, safe_rules, defined_rules}

module _ {S : Type 0} (connection : Executor S) (wf : AnswersWellFormed connection) where
  pub HashMethod-Safe :
      {A : Type 0} {m : Exec S A} → HashMethod connection A m → Safe connection Any m
  unfolding Client.hget Client.hget_map Client.hset Client.hset_map Client.hgetall Client.hkeys
      Client.hvals Client.hscan Client.hdel Client.hdel_fields Ops.hget Ops.hget_fields Ops.hset
      Ops.hset_map Ops.hgetall Ops.hkeys Ops.hvals Ops.hscan Ops.hdel Ops.hdel_fields
  HashMethod-Safe (Methods.hget key hash_key) = search (safe_rules, defined_rules)
  HashMethod-Safe (Methods.hget_map key hash_map) = search (safe_rules, defined_rules)
  HashMethod-Safe (Methods.hset key field value) = search (safe_rules, defined_rules)
  HashMethod-Safe (Methods.hset_map key hash_map) = search (safe_rules, defined_rules)
  HashMethod-Safe (Methods.hgetall key) = search (safe_rules, defined_rules)
  HashMethod-Safe (Methods.hkeys key) = search (safe_rules, defined_rules)
  HashMethod-Safe (Methods.hvals key) = search (safe_rules, defined_rules)
  HashMethod-Safe (Methods.hscan key cursor pattern count hash_map) =
      search (safe_rules, defined_rules)
  HashMethod-Safe (Methods.hdel key hash_key) = search (safe_rules, defined_rules)
  HashMethod-Safe (Methods.hdel_fields key hash_keys) = search (safe_rules, defined_rules)
