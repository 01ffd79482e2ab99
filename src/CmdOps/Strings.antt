-- ===== src/CmdOps/Strings.antt =====
-- String commands of src/redis_cmd_ops.cpp.
use redisdal.Prelude.{[], ◌∷◌}
use redisdal.Prelude.Int.{ℤ}
use redisdal.Text.{Bytes, text}
use redisdal.Text.Decimal.{to_string}
use redisdal.Reply.{CmdReply}
use redisdal.Exec.{Exec, Executor}

module _ {S : Type 0} (connection : Executor S) where
  open connection use {cmd_execv}

  unfoldable pub set : Bytes → Bytes → Exec S CmdReply
  set key value = cmd_execv (text "SET" ∷ key ∷ value ∷ [])

  unfoldable pub set_not_exists : Bytes → Bytes → Exec S CmdReply
  set_not_exists key value = cmd_execv (text "SET" ∷ key ∷ value ∷ text "NX" ∷ [])

  unfoldable pub set_ex : Bytes → Bytes → ℤ → Exec S CmdReply
  set_ex key value seconds =
      cmd_execv (text "SET" ∷ key ∷ value ∷ text "EX" ∷ to_string seconds ∷ [])

  unfoldable pub set_px : Bytes → Bytes → ℤ → Exec S CmdReply
  set_px key value milliseconds =
      cmd_execv (text "SET" ∷ key ∷ value ∷ text "PX" ∷ to_string milliseconds ∷ [])

  unfoldable pub get : Bytes → Exec S CmdReply
  get key = cmd_execv (text "GET" ∷ key ∷ [])

  unfoldable pub getset : Bytes → Bytes → Exec S CmdReply
  getset key new_value = cmd_execv (text "GETSET" ∷ key ∷ new_value ∷ [])

  unfoldable pub append : Bytes → Bytes → Exec S CmdReply
  append key value = cmd_execv (text "APPEND" ∷ key ∷ value ∷ [])

  unfoldable pub incr : Bytes → ℤ → Exec S CmdReply
  incr key delta = cmd_execv (text "INCRBY" ∷ key ∷ to_string delta ∷ [])

  unfoldable pub decr : Bytes → ℤ → Exec S CmdReply
  decr key delta = cmd_execv (text "DECRBY" ∷ key ∷ to_string delta ∷ [])
