-- ===== src/CmdOps/Hashes.antt =====
-- Hash commands of src/redis_cmd_ops.cpp. A `std::unordered_map` argument is the list of its pairs in
-- the order in which it is iterated.
use redisdal.Prelude.{ℕ, List, [], ◌∷◌, ◌++◌, is_empty, if◌then◌else◌}
use redisdal.Text.{Bytes, text}
use redisdal.Text.Decimal.{decimal}
use redisdal.Reply.{CmdReply, make_nil}
use redisdal.Exec.{Exec, Executor, pure}
use redisdal.CmdOps.Arguments.{append_arguments}
use redisdal.CmdOps.Vectors.{flatten_pairs}

module _ {S : Type 0} (connection : Executor S) where
  open connection use {cmd_execv}

  unfoldable pub hget : Bytes → Bytes → Exec S CmdReply
  hget key field = cmd_execv (text "HGET" ∷ key ∷ field ∷ [])

  unfoldable pub hget_fields : Bytes → List Bytes → Exec S CmdReply
  hget_fields key fields = cmd_execv (append_arguments (text "HMGET" ∷ key ∷ []) fields)

  unfoldable pub hset : Bytes → Bytes → Bytes → Exec S CmdReply
  hset key field value = cmd_execv (text "HSET" ∷ key ∷ field ∷ value ∷ [])

  unfoldable pub hset_map : Bytes → List (Bytes × Bytes) → Exec S CmdReply
  hset_map key values =
      if is_empty values
      then pure make_nil
      else cmd_execv ((text "HSET" ∷ key ∷ []) ++ flatten_pairs values)

  unfoldable pub hgetall : Bytes → Exec S CmdReply
  hgetall key = cmd_execv (text "HGETALL" ∷ key ∷ [])

  unfoldable pub hkeys : Bytes → Exec S CmdReply
  hkeys key = cmd_execv (text "HKEYS" ∷ key ∷ [])

  unfoldable pub hvals : Bytes → Exec S CmdReply
  hvals key = cmd_execv (text "HVALS" ∷ key ∷ [])

  unfoldable pub hscan : Bytes → ℕ → Bytes → ℕ → Exec S CmdReply
  hscan key cursor pattern count = cmd_execv (
      text "HSCAN"
      ∷ key
      ∷ decimal cursor
      ∷ text "MATCH"
      ∷ pattern
      ∷ text "COUNT"
      ∷ decimal count
      ∷ [])

  unfoldable pub hdel : Bytes → Bytes → Exec S CmdReply
  hdel key field = cmd_execv (text "HDEL" ∷ key ∷ field ∷ [])

  unfoldable pub hdel_fields : Bytes → List Bytes → Exec S CmdReply
  hdel_fields key fields =
      if is_empty fields
      then pure make_nil
      else cmd_execv (append_arguments (text "HDEL" ∷ key ∷ []) fields)
