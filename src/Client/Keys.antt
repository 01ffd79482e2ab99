-- ===== src/Client/Keys.antt =====
-- Key and connection methods of src/redis_client.cpp. `keys` takes the caller's set and returns it with
-- the keys that were found.
use redisdal.Prelude.{ℕ, Bool, List, is_empty, if◌then◌else◌}
use redisdal.Prelude.Int.{ℤ, pos}
use redisdal.Text.{Bytes, text}
use redisdal.Reply.Decode.{as_text, as_status, as_integer}
use redisdal.Exec.{Exec, Executor, pure}
use redisdal.Client.Requests.{received, integer_is_one, found_keys, ScanResult, scanned_keys}
use redisdal.CmdOps.Keys as Ops

module _ {S : Type 0} (connection : Executor S) where
  unfoldable pub exists : Bytes → Exec S Bool
  exists key = received (Ops.exists connection key) (integer_is_one (text "EXISTS"))

  unfoldable pub keys : Bytes → List Bytes → Exec S (List Bytes)
  keys pattern set = received (Ops.keys connection pattern) (found_keys set)

  unfoldable pub scan : ℕ → Bytes → ℕ → Exec S (ScanResult Bytes)
  scan cursor pattern count = received (Ops.scan connection cursor pattern count) scanned_keys

  unfoldable pub type : Bytes → Exec S Bytes
  type key = received (Ops.type connection key) (λ r. as_status r (text "TYPE"))

  unfoldable pub expire : Bytes → ℤ → Exec S Bool
  expire key seconds = received (Ops.expire connection key seconds) (integer_is_one (text "EXPIRE"))

  unfoldable pub pexpire : Bytes → ℤ → Exec S Bool
  pexpire key milliseconds =
      received (Ops.pexpire connection key milliseconds) (integer_is_one (text "PEXPIRE"))

  unfoldable pub ttl : Bytes → Exec S ℤ
  ttl key = received (Ops.ttl connection key) (λ r. as_integer r (text "TTL"))

  unfoldable pub pttl : Bytes → Exec S ℤ
  pttl key = received (Ops.pttl connection key) (λ r. as_integer r (text "PTTL"))

  unfoldable pub persist : Bytes → Exec S Bool
  persist key = received (Ops.persist connection key) (integer_is_one (text "PERSIST"))

  unfoldable pub ping : Exec S Bytes
  ping = received (Ops.ping connection) (λ r. as_text r (text "PING"))

  unfoldable pub ping_message : Bytes → Exec S Bytes
  ping_message message =
      received (Ops.ping_message connection message) (λ r. as_text r (text "PING"))

  unfoldable pub del : Bytes → Exec S ℤ
  del key = received (Ops.del connection key) (λ r. as_integer r (text "DEL"))

  unfoldable pub del_keys : List Bytes → Exec S ℤ
  del_keys keys =
      if is_empty keys
      then pure (pos 0)
      else received (Ops.del_keys connection keys) (λ r. as_integer r (text "DEL"))
