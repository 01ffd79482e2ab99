-- ===== src/Client/Scripts.antt =====
-- Script and raw methods of src/redis_client.cpp.
use redisdal.Prelude.{List}
use redisdal.Text.{Bytes}
use redisdal.Reply.{CmdReply}
use redisdal.Errors.{ok}
use redisdal.Exec.{Exec, Executor}
use redisdal.Client.Requests.{received}
use redisdal.CmdOps.Scripts as Ops

module _ {S : Type 0} (connection : Executor S) where
  unfoldable pub script_load : Bytes → Exec S Bytes
  script_load script = Ops.script_load connection script

  unfoldable pub eval_sha1 : Bytes → List Bytes → List Bytes → Exec S CmdReply
  eval_sha1 sha1 keys args = received (Ops.eval_sha1 connection sha1 keys args) ok

  unfoldable pub eval : Bytes → List Bytes → List Bytes → Exec S CmdReply
  eval script keys args = received (Ops.eval connection script keys args) ok

  unfoldable pub command : Bytes → List Bytes → Exec S CmdReply
  command cmd args = received (Ops.command connection cmd args) ok
