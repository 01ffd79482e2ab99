-- ===== src/Client/Lists.antt =====
-- List methods of src/redis_client.cpp.
use redisdal.Prelude.{Option, List, is_empty, if◌then◌else◌}
use redisdal.Prelude.Int.{ℤ}
use redisdal.Text.{Bytes, text}
use redisdal.Reply.Decode.{as_integer, optional_string, strings}
use redisdal.Exec.{Exec, Executor}
use redisdal.Client.Requests.{received}
use redisdal.CmdOps.Lists as Ops

module _ {S : Type 0} (connection : Executor S) where
  unfoldable pub llen : Bytes → Exec S ℤ
  llen key = received (Ops.llen connection key) (λ r. as_integer r (text "LLEN"))

  unfoldable pub lpush_values : Bytes → List Bytes → Exec S ℤ
  lpush_values key values =
      if is_empty values
      then llen key
      else received (Ops.lpush_values connection key values) (λ r. as_integer r (text "LPUSH"))

  unfoldable pub lpush : Bytes → Bytes → Exec S ℤ
  lpush key value = received (Ops.lpush connection key value) (λ r. as_integer r (text "LPUSH"))

  unfoldable pub rpush : Bytes → Bytes → Exec S ℤ
  rpush key value = received (Ops.rpush connection key value) (λ r. as_integer r (text "RPUSH"))

  unfoldable pub rpush_values : Bytes → List Bytes → Exec S ℤ
  rpush_values key values =
      if is_empty values
      then llen key
      else received (Ops.rpush_values connection key values) (λ r. as_integer r (text "RPUSH"))

  unfoldable pub lpop : Bytes → Exec S (Option Bytes)
  lpop key = received (Ops.lpop connection key) (λ r. optional_string r (text "LPOP"))

  unfoldable pub rpop : Bytes → Exec S (Option Bytes)
  rpop key = received (Ops.rpop connection key) (λ r. optional_string r (text "RPOP"))

  unfoldable pub lpop_count : Bytes → ℤ → Exec S (List Bytes)
  lpop_count key count =
      received (Ops.lpop_count connection key count) (λ r. strings r (text "LPOP"))

  unfoldable pub rpop_count : Bytes → ℤ → Exec S (List Bytes)
  rpop_count key count =
      received (Ops.rpop_count connection key count) (λ r. strings r (text "RPOP"))

  unfoldable pub lrange : Bytes → ℤ → ℤ → Exec S (List Bytes)
  lrange key start stop =
      received (Ops.lrange connection key start stop) (λ r. strings r (text "LRANGE"))

  unfoldable pub lindex : Bytes → ℤ → Exec S (Option Bytes)
  lindex key index =
      received (Ops.lindex connection key index) (λ r. optional_string r (text "LINDEX"))
