-- ===== src/CmdOps/SortedSets.antt =====
-- Sorted-set commands of src/redis_cmd_ops.cpp. The conversion of a score may throw, and then nothing
-- is sent.
use redisdal.Prelude.{List, [], ◌∷◌, ◌++◌}
use redisdal.Prelude.Int.{ℤ}
use redisdal.Text.{Bytes, text}
use redisdal.Text.Decimal.{to_string}
use redisdal.Reply.{Double, CmdReply}
use redisdal.Serialization.{DoubleChars, to_string_double}
use redisdal.Exec.{Exec, Executor, lift, ◌>>=◌}
use redisdal.CmdOps.Arguments.{append_arguments}
use redisdal.CmdOps.Vectors.{score_arguments}

module _ {S : Type 0} (connection : Executor S) where
  open connection use {cmd_execv}

  unfoldable pub zadd : DoubleChars → Bytes → List (Bytes × Double) → Exec S CmdReply
  zadd chars key members = do
    args ← lift (score_arguments chars members)
    cmd_execv ((text "ZADD" ∷ key ∷ []) ++ args)

  unfoldable pub zrem : Bytes → List Bytes → Exec S CmdReply
  zrem key members = cmd_execv (append_arguments (text "ZREM" ∷ key ∷ []) members)

  unfoldable pub zscore : Bytes → Bytes → Exec S CmdReply
  zscore key member = cmd_execv (text "ZSCORE" ∷ key ∷ member ∷ [])

  unfoldable pub zrange : Bytes → ℤ → ℤ → Exec S CmdReply
  zrange key start stop = cmd_execv (text "ZRANGE" ∷ key ∷ to_string start ∷ to_string stop ∷ [])

  unfoldable pub zrevrange : Bytes → ℤ → ℤ → Exec S CmdReply
  zrevrange key start stop =
      cmd_execv (text "ZREVRANGE" ∷ key ∷ to_string start ∷ to_string stop ∷ [])

  unfoldable pub zrange_withscores : Bytes → ℤ → ℤ → Exec S CmdReply
  zrange_withscores key start stop =
      cmd_execv (text "ZRANGE" ∷ key ∷ to_string start ∷ to_string stop ∷ text "WITHSCORES" ∷ [])

  unfoldable pub zrevrange_withscores : Bytes → ℤ → ℤ → Exec S CmdReply
  zrevrange_withscores key start stop =
      cmd_execv (text "ZREVRANGE" ∷ key ∷ to_string start ∷ to_string stop ∷ text "WITHSCORES" ∷ [])

  unfoldable pub zincrby : DoubleChars → Bytes → Double → Bytes → Exec S CmdReply
  zincrby chars key increment member = do
    amount ← lift (to_string_double chars increment)
    cmd_execv (text "ZINCRBY" ∷ key ∷ amount ∷ member ∷ [])
