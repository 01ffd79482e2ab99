-- ===== src/Client/Safe/Scripts.antt =====
-- The script methods of `redis_client` do nothing undefined.
use redisdal.Client.Scripts as Client
use redisdal.CmdOps.Scripts as Ops
use redisdal.Exec.{Exec, Executor}
use redisdal.Reply.Ensures.{Any, Ensures, ensures_ok}
use redisdal.Errors.{ok}
use redisdal.Reply.{CmdReply}
use redisdal.Client.Methods
use redisdal.Client.Methods.{ScriptMethod}
use redisdal.Client.Safe.{Safe, AnswersWellFormed, safe_rules, defined_rules}

-- The reply itself is the result.
ok-Defined : (r : CmdReply) → Ensures Any (ok r)
ok-Defined r = ensures_ok r tt

module _ {S : Type 0} (connection : Executor S) (wf : AnswersWellFormed connection) where
  pub ScriptMethod-Safe :
      {A : Type 0} {m : Exec S A} → ScriptMethod connection A m → Safe connection Any m
  unfolding Client.script_load Client.eval_sha1 Client.eval Client.command Ops.script_load
      Ops.eval_sha1 Ops.eval Ops.command
  ScriptMethod-Safe (Methods.script_load script) = search (safe_rules, defined_rules)
  ScriptMethod-Safe (Methods.eval_sha1 sha1 keys args) =
      search (safe_rules, defined_rules, ok-Defined) depth 8
  ScriptMethod-Safe (Methods.eval script keys args) =
      search (safe_rules, defined_rules, ok-Defined) depth 8
  ScriptMethod-Safe (Methods.command cmd args) =
      search (safe_rules, defined_rules, ok-Defined) depth 8
