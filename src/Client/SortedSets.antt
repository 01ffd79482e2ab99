-- ===== src/Client/SortedSets.antt =====
-- Sorted-set methods of src/redis_client.cpp.
use redisdal.Prelude.{Option, List, is_empty, if◌then◌else◌}
use redisdal.Prelude.Int.{ℤ, pos}
use redisdal.Text.{Bytes, text}
use redisdal.Reply.{Double}
use redisdal.Reply.Decode.{as_integer, strings, optional_score, scores}
use redisdal.Serialization.{DoubleChars}
use redisdal.Exec.{Exec, Executor, pure}
use redisdal.Client.Requests.{received, new_score}
use redisdal.CmdOps.SortedSets as Ops

module _ {S : Type 0} (connection : Executor S) where
  unfoldable pub zadd : DoubleChars → Bytes → List (Bytes × Double) → Exec S ℤ
  zadd chars key members =
      if is_empty members
      then pure (pos 0)
      else received (Ops.zadd connection chars key members) (λ r. as_integer r (text "ZADD"))

  unfoldable pub zrem : Bytes → List Bytes → Exec S ℤ
  zrem key members =
      if is_empty members
      then pure (pos 0)
      else received (Ops.zrem connection key members) (λ r. as_integer r (text "ZREM"))

  unfoldable pub zscore : DoubleChars → Bytes → Bytes → Exec S (Option Double)
  zscore chars key member =
      received (Ops.zscore connection key member) (λ r. optional_score chars r (text "ZSCORE"))

  unfoldable pub zrange : Bytes → ℤ → ℤ → Exec S (List Bytes)
  zrange key start stop =
      received (Ops.zrange connection key start stop) (λ r. strings r (text "ZRANGE"))

  unfoldable pub zrevrange : Bytes → ℤ → ℤ → Exec S (List Bytes)
  zrevrange key start stop =
      received (Ops.zrevrange connection key start stop) (λ r. strings r (text "ZREVRANGE"))

  unfoldable pub zrange_withscores : DoubleChars → Bytes → ℤ → ℤ → Exec S (List (Bytes × Double))
  zrange_withscores chars key start stop =
      received (Ops.zrange_withscores connection key start stop)
        (λ r. scores chars r (text "ZRANGE"))

  unfoldable pub zrevrange_withscores : DoubleChars → Bytes → ℤ → ℤ → Exec S (List (Bytes × Double))
  zrevrange_withscores chars key start stop =
      received (Ops.zrevrange_withscores connection key start stop)
        (λ r. scores chars r (text "ZREVRANGE"))

  unfoldable pub zincrby : DoubleChars → Bytes → Double → Bytes → Exec S Double
  zincrby chars key increment member =
      received (Ops.zincrby connection chars key increment member) (new_score chars)
