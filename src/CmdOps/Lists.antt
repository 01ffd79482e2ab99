-- ===== src/CmdOps/Lists.antt =====
-- List commands of src/redis_cmd_ops.cpp.
use redisdal.Prelude.{List, [], ◌∷◌, is_empty, if◌then◌else◌}
use redisdal.Prelude.Int.{ℤ}
use redisdal.Text.{Bytes, text}
use redisdal.Text.Decimal.{to_string}
use redisdal.Reply.{CmdReply, make_nil}
use redisdal.Exec.{Exec, Executor, pure}
use redisdal.CmdOps.Arguments.{append_arguments}

module _ {S : Type 0} (connection : Executor S) where
  open connection use {cmd_execv}

  unfoldable pub lpush : Bytes → Bytes → Exec S CmdReply
  lpush key value = cmd_execv (text "LPUSH" ∷ key ∷ value ∷ [])

  unfoldable pub lpush_values : Bytes → List Bytes → Exec S CmdReply
  lpush_values key values =
      if is_empty values
      then pure make_nil
      else cmd_execv (append_arguments (text "LPUSH" ∷ key ∷ []) values)

  unfoldable pub rpush : Bytes → Bytes → Exec S CmdReply
  rpush key value = cmd_execv (text "RPUSH" ∷ key ∷ value ∷ [])

  unfoldable pub rpush_values : Bytes → List Bytes → Exec S CmdReply
  rpush_values key values =
      if is_empty values
      then pure make_nil
      else cmd_execv (append_arguments (text "RPUSH" ∷ key ∷ []) values)

  unfoldable pub lpop : Bytes → Exec S CmdReply
  lpop key = cmd_execv (text "LPOP" ∷ key ∷ [])

  unfoldable pub lpop_count : Bytes → ℤ → Exec S CmdReply
  lpop_count key count = cmd_execv (text "LPOP" ∷ key ∷ to_string count ∷ [])

  unfoldable pub rpop : Bytes → Exec S CmdReply
  rpop key = cmd_execv (text "RPOP" ∷ key ∷ [])

  unfoldable pub rpop_count : Bytes → ℤ → Exec S CmdReply
  rpop_count key count = cmd_execv (text "RPOP" ∷ key ∷ to_string count ∷ [])

  unfoldable pub lrange : Bytes → ℤ → ℤ → Exec S CmdReply
  lrange key start stop = cmd_execv (text "LRANGE" ∷ key ∷ to_string start ∷ to_string stop ∷ [])

  unfoldable pub llen : Bytes → Exec S CmdReply
  llen key = cmd_execv (text "LLEN" ∷ key ∷ [])

  unfoldable pub lindex : Bytes → ℤ → Exec S CmdReply
  lindex key index = cmd_execv (text "LINDEX" ∷ key ∷ to_string index ∷ [])
