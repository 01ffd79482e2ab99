-- ===== src/Client/Sets.antt =====
-- Set methods of src/redis_client.cpp.
use redisdal.Prelude.{Bool, Option, List, [], is_empty, if◌then◌else◌}
use redisdal.Prelude.Int.{ℤ, pos}
use redisdal.Text.{Bytes, text}
use redisdal.Reply.Decode.{as_integer, optional_string, strings}
use redisdal.Exec.{Exec, Executor, pure}
use redisdal.Client.Requests.{received, integer_is_one}
use redisdal.CmdOps.Sets as Ops

module _ {S : Type 0} (connection : Executor S) where
  unfoldable pub sadd : Bytes → List Bytes → Exec S ℤ
  sadd key members =
      if is_empty members
      then pure (pos 0)
      else received (Ops.sadd connection key members) (λ r. as_integer r (text "SADD"))

  unfoldable pub srem : Bytes → List Bytes → Exec S ℤ
  srem key members =
      if is_empty members
      then pure (pos 0)
      else received (Ops.srem connection key members) (λ r. as_integer r (text "SREM"))

  unfoldable pub smembers : Bytes → Exec S (List Bytes)
  smembers key = received (Ops.smembers connection key) (λ r. strings r (text "SMEMBERS"))

  unfoldable pub scard : Bytes → Exec S ℤ
  scard key = received (Ops.scard connection key) (λ r. as_integer r (text "SCARD"))

  unfoldable pub sismember : Bytes → Bytes → Exec S Bool
  sismember key member =
      received (Ops.sismember connection key member) (integer_is_one (text "SISMEMBER"))

  unfoldable pub spop : Bytes → Exec S (Option Bytes)
  spop key = received (Ops.spop connection key) (λ r. optional_string r (text "SPOP"))

  unfoldable pub sinter : List Bytes → Exec S (List Bytes)
  sinter keys =
      if is_empty keys
      then pure []
      else received (Ops.sinter connection keys) (λ r. strings r (text "SINTER"))
