-- ===== src/Client/Streams.antt =====
-- Stream methods of src/redis_client.cpp.
use redisdal.Prelude.{Bool, Option, List, is_empty, if◌then◌else◌}
use redisdal.Prelude.Int.{ℤ, pos}
use redisdal.Text.{Bytes, text}
use redisdal.Reply.Decode.{
  as_integer, status_is_ok, optional_string, StringStreamEntry, StringStreamBatch, stream_entries,
  stream_batches,
}
use redisdal.Exec.{Exec, Executor, pure}
use redisdal.Client.Requests.{received, integer_is_one}
use redisdal.CmdOps.Options.{
  StreamTrimOptions, StreamAddOptions, StreamReadOptions, StreamReadGroupOptions,
  StringStreamReadRequest,
}
use redisdal.CmdOps.Streams as Ops

module _ {S : Type 0} (connection : Executor S) where
  unfoldable pub xadd : Bytes → List (Bytes × Bytes) → StreamAddOptions → Exec S (Option Bytes)
  xadd key fields options =
      received (Ops.xadd connection key fields options) (λ r. optional_string r (text "XADD"))

  unfoldable pub xlen : Bytes → Exec S ℤ
  xlen key = received (Ops.xlen connection key) (λ r. as_integer r (text "XLEN"))

  unfoldable pub xrange : Bytes → Bytes → Bytes → Option ℤ → Exec S (List StringStreamEntry)
  xrange key start end count =
      received (Ops.xrange connection key start end count) (λ r. stream_entries r (text "XRANGE"))

  unfoldable pub xrevrange : Bytes → Bytes → Bytes → Option ℤ → Exec S (List StringStreamEntry)
  xrevrange key end start count =
      received (Ops.xrevrange connection key end start count)
        (λ r. stream_entries r (text "XREVRANGE"))

  unfoldable pub xread :
      List StringStreamReadRequest → StreamReadOptions → Exec S (List StringStreamBatch)
  xread streams options =
      received (Ops.xread connection streams options) (λ r. stream_batches r (text "XREAD"))

  unfoldable pub xdel : Bytes → List Bytes → Exec S ℤ
  xdel key ids =
      if is_empty ids
      then pure (pos 0)
      else received (Ops.xdel connection key ids) (λ r. as_integer r (text "XDEL"))

  unfoldable pub xtrim : Bytes → StreamTrimOptions → Exec S ℤ
  xtrim key options = received (Ops.xtrim connection key options) (λ r. as_integer r (text "XTRIM"))

  unfoldable pub xgroup_create : Bytes → Bytes → Bytes → Bool → Exec S Bool
  xgroup_create key group id mkstream =
      received (Ops.xgroup_create connection key group id mkstream)
        (λ r. status_is_ok r (text "XGROUP CREATE"))

  unfoldable pub xgroup_setid : Bytes → Bytes → Bytes → Exec S Bool
  xgroup_setid key group id =
      received (Ops.xgroup_setid connection key group id)
        (λ r. status_is_ok r (text "XGROUP SETID"))

  unfoldable pub xgroup_destroy : Bytes → Bytes → Exec S Bool
  xgroup_destroy key group =
      received (Ops.xgroup_destroy connection key group) (integer_is_one (text "XGROUP DESTROY"))

  unfoldable pub xgroup_createconsumer : Bytes → Bytes → Bytes → Exec S Bool
  xgroup_createconsumer key group consumer =
      received (Ops.xgroup_createconsumer connection key group consumer)
        (integer_is_one (text "XGROUP CREATECONSUMER"))

  unfoldable pub xgroup_delconsumer : Bytes → Bytes → Bytes → Exec S ℤ
  xgroup_delconsumer key group consumer =
      received (Ops.xgroup_delconsumer connection key group consumer)
        (λ r. as_integer r (text "XGROUP DELCONSUMER"))

  unfoldable pub xreadgroup :
      Bytes
      → Bytes
      → List StringStreamReadRequest
      → StreamReadGroupOptions
      → Exec S (List StringStreamBatch)
  xreadgroup group consumer streams options =
      received (Ops.xreadgroup connection group consumer streams options)
        (λ r. stream_batches r (text "XREADGROUP"))

  unfoldable pub xack : Bytes → Bytes → List Bytes → Exec S ℤ
  xack key group ids =
      if is_empty ids
      then pure (pos 0)
      else received (Ops.xack connection key group ids) (λ r. as_integer r (text "XACK"))
