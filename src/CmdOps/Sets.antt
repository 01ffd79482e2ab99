-- ===== src/CmdOps/Sets.antt =====
-- Set commands of src/redis_cmd_ops.cpp.
use redisdal.Prelude.{List, [], ◌∷◌}
use redisdal.Text.{Bytes, text}
use redisdal.Reply.{CmdReply}
use redisdal.Exec.{Exec, Executor}
use redisdal.CmdOps.Arguments.{append_arguments}

module _ {S : Type 0} (connection : Executor S) where
  open connection use {cmd_execv}

  unfoldable pub sadd : Bytes → List Bytes → Exec S CmdReply
  sadd key members = cmd_execv (append_arguments (text "SADD" ∷ key ∷ []) members)

  unfoldable pub srem : Bytes → List Bytes → Exec S CmdReply
  srem key members = cmd_execv (append_arguments (text "SREM" ∷ key ∷ []) members)

  unfoldable pub smembers : Bytes → Exec S CmdReply
  smembers key = cmd_execv (text "SMEMBERS" ∷ key ∷ [])

  unfoldable pub scard : Bytes → Exec S CmdReply
  scard key = cmd_execv (text "SCARD" ∷ key ∷ [])

  unfoldable pub sismember : Bytes → Bytes → Exec S CmdReply
  sismember key member = cmd_execv (text "SISMEMBER" ∷ key ∷ member ∷ [])

  unfoldable pub spop : Bytes → Exec S CmdReply
  spop key = cmd_execv (text "SPOP" ∷ key ∷ [])

  unfoldable pub sinter : List Bytes → Exec S CmdReply
  sinter keys = cmd_execv (append_arguments (text "SINTER" ∷ []) keys)
