-- ===== src/CmdOps/Keys.antt =====
-- Key and connection commands of src/redis_cmd_ops.cpp.
use redisdal.Prelude.{ℕ, List, [], ◌∷◌}
use redisdal.Prelude.Int.{ℤ}
use redisdal.Text.{Bytes, text}
use redisdal.Text.Decimal.{decimal, to_string}
use redisdal.Reply.{CmdReply}
use redisdal.Exec.{Exec, Executor}
use redisdal.CmdOps.Arguments.{append_arguments}

module _ {S : Type 0} (connection : Executor S) where
  open connection use {cmd_execv}

  unfoldable pub exists : Bytes → Exec S CmdReply
  exists key = cmd_execv (text "EXISTS" ∷ key ∷ [])

  unfoldable pub keys : Bytes → Exec S CmdReply
  keys pattern = cmd_execv (text "KEYS" ∷ pattern ∷ [])

  unfoldable pub scan : ℕ → Bytes → ℕ → Exec S CmdReply
  scan cursor pattern count =
      cmd_execv
        (text "SCAN" ∷ decimal cursor ∷ text "MATCH" ∷ pattern ∷ text "COUNT" ∷ decimal count ∷ [])

  unfoldable pub type : Bytes → Exec S CmdReply
  type key = cmd_execv (text "TYPE" ∷ key ∷ [])

  unfoldable pub del : Bytes → Exec S CmdReply
  del key = cmd_execv (text "DEL" ∷ key ∷ [])

  unfoldable pub del_keys : List Bytes → Exec S CmdReply
  del_keys keys = cmd_execv (append_arguments (text "DEL" ∷ []) keys)

  unfoldable pub expire : Bytes → ℤ → Exec S CmdReply
  expire key seconds = cmd_execv (text "EXPIRE" ∷ key ∷ to_string seconds ∷ [])

  unfoldable pub pexpire : Bytes → ℤ → Exec S CmdReply
  pexpire key milliseconds = cmd_execv (text "PEXPIRE" ∷ key ∷ to_string milliseconds ∷ [])

  unfoldable pub ttl : Bytes → Exec S CmdReply
  ttl key = cmd_execv (text "TTL" ∷ key ∷ [])

  unfoldable pub pttl : Bytes → Exec S CmdReply
  pttl key = cmd_execv (text "PTTL" ∷ key ∷ [])

  unfoldable pub persist : Bytes → Exec S CmdReply
  persist key = cmd_execv (text "PERSIST" ∷ key ∷ [])

  unfoldable pub ping : Exec S CmdReply
  ping = cmd_execv (text "PING" ∷ [])

  unfoldable pub ping_message : Bytes → Exec S CmdReply
  ping_message message = cmd_execv (text "PING" ∷ message ∷ [])
