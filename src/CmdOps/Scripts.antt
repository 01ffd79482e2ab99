-- ===== src/CmdOps/Scripts.antt =====
-- Script and raw commands of src/redis_cmd_ops.cpp.
use redisdal.Prelude.{List, [], ◌∷◌, if◌then◌else◌}
use redisdal.Text.{Bytes, text}
use redisdal.Reply.{CmdReply}
use redisdal.Exec.{Exec, Executor, pure, raise, lift, ◌>>=◌}
use redisdal.CmdOps.Arguments.{append_arguments, script_arguments}
use redisdal.Errors.{no_script_error}
use redisdal.CmdOps.Vectors.{loaded_sha, is_no_script}

module _ {S : Type 0} (connection : Executor S) where
  open connection use {cmd_execv}

  unfoldable pub script_load : Bytes → Exec S Bytes
  script_load script = do
    reply ← cmd_execv (text "SCRIPT" ∷ text "LOAD" ∷ script ∷ [])
    lift (loaded_sha reply)

  unfoldable pub eval_sha1 : Bytes → List Bytes → List Bytes → Exec S CmdReply
  eval_sha1 sha1 keys args = do
    argv ← lift (script_arguments (text "EVALSHA") sha1 keys args)
    reply ← cmd_execv argv
    if is_no_script reply then raise (no_script_error (text "EVALSHA") sha1) else pure reply

  unfoldable pub eval : Bytes → List Bytes → List Bytes → Exec S CmdReply
  eval script keys args = do
    argv ← lift (script_arguments (text "EVAL") script keys args)
    cmd_execv argv

  unfoldable pub command : Bytes → List Bytes → Exec S CmdReply
  command cmd args = cmd_execv (append_arguments (cmd ∷ []) args)
