-- ===== src/Client/Strings.antt =====
-- String methods of src/redis_client.cpp.
use redisdal.Prelude.{Bool, Option}
use redisdal.Prelude.Int.{ℤ}
use redisdal.Text.{Bytes, text}
use redisdal.Reply.Decode.{as_integer, optional_string}
use redisdal.Exec.{Exec, Executor}
use redisdal.Client.Requests.{received, set_succeeded}
use redisdal.CmdOps.Strings as Ops

module _ {S : Type 0} (connection : Executor S) where
  unfoldable pub set : Bytes → Bytes → Exec S Bool
  set key value = received (Ops.set connection key value) set_succeeded

  unfoldable pub set_not_exists : Bytes → Bytes → Exec S Bool
  set_not_exists key value = received (Ops.set_not_exists connection key value) set_succeeded

  unfoldable pub set_ex : Bytes → Bytes → ℤ → Exec S Bool
  set_ex key value seconds = received (Ops.set_ex connection key value seconds) set_succeeded

  unfoldable pub set_px : Bytes → Bytes → ℤ → Exec S Bool
  set_px key value milliseconds =
      received (Ops.set_px connection key value milliseconds) set_succeeded

  unfoldable pub get : Bytes → Exec S (Option Bytes)
  get key = received (Ops.get connection key) (λ r. optional_string r (text "GET"))

  unfoldable pub getset : Bytes → Bytes → Exec S (Option Bytes)
  getset key new_value =
      received (Ops.getset connection key new_value) (λ r. optional_string r (text "GETSET"))

  unfoldable pub incr : Bytes → ℤ → Exec S ℤ
  incr key delta = received (Ops.incr connection key delta) (λ r. as_integer r (text "INCRBY"))

  unfoldable pub decr : Bytes → ℤ → Exec S ℤ
  decr key delta = received (Ops.decr connection key delta) (λ r. as_integer r (text "DECRBY"))

  unfoldable pub append : Bytes → Bytes → Exec S ℤ
  append key value = received (Ops.append connection key value) (λ r. as_integer r (text "APPEND"))
