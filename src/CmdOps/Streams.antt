-- ===== src/CmdOps/Streams.antt =====
-- Stream commands of src/redis_cmd_ops.cpp. Options that are refused throw before anything is sent.
use redisdal.Prelude.{Bool, Option, List, [], ◌∷◌, ◌++◌, is_empty, if◌then◌else◌}
use redisdal.Prelude.Int.{ℤ, pos}
use redisdal.Text.{Bytes, text}
use redisdal.Reply.{CmdReply, make_signed_integer}
use redisdal.Exec.{Exec, Executor, pure, lift, ◌>>=◌}
use redisdal.CmdOps.Arguments.{append_arguments, append_stream_count, append_stream_trim}
use redisdal.CmdOps.Vectors.{xadd_arguments, xread_arguments, xreadgroup_arguments}
use redisdal.CmdOps.Options.{
  StreamTrimOptions, StreamAddOptions, StreamReadOptions, StreamReadGroupOptions,
  StringStreamReadRequest,
}

module _ {S : Type 0} (connection : Executor S) where
  open connection use {cmd_execv}

  unfoldable pub xadd : Bytes → List (Bytes × Bytes) → StreamAddOptions → Exec S CmdReply
  xadd key fields options = do args ← lift (xadd_arguments key fields options); cmd_execv args

  unfoldable pub xlen : Bytes → Exec S CmdReply
  xlen key = cmd_execv (text "XLEN" ∷ key ∷ [])

  unfoldable pub xrange : Bytes → Bytes → Bytes → Option ℤ → Exec S CmdReply
  xrange key start end count = do
    args ← lift (append_stream_count (text "XRANGE" ∷ key ∷ start ∷ end ∷ []) count (text "XRANGE"))
    cmd_execv args

  unfoldable pub xrevrange : Bytes → Bytes → Bytes → Option ℤ → Exec S CmdReply
  xrevrange key end start count = do
    args ←
        lift
          (append_stream_count (text "XREVRANGE" ∷ key ∷ end ∷ start ∷ []) count (text "XREVRANGE"))
    cmd_execv args

  unfoldable pub xread : List StringStreamReadRequest → StreamReadOptions → Exec S CmdReply
  xread streams options = do args ← lift (xread_arguments streams options); cmd_execv args

  unfoldable pub xdel : Bytes → List Bytes → Exec S CmdReply
  xdel key ids =
      if is_empty ids
      then pure (make_signed_integer (pos 0))
      else cmd_execv (append_arguments (text "XDEL" ∷ key ∷ []) ids)

  unfoldable pub xtrim : Bytes → StreamTrimOptions → Exec S CmdReply
  xtrim key options = do
    args ← lift (append_stream_trim (text "XTRIM" ∷ key ∷ []) options (text "XTRIM"))
    cmd_execv args

  unfoldable pub xgroup_create : Bytes → Bytes → Bytes → Bool → Exec S CmdReply
  xgroup_create key group id mkstream = cmd_execv (
      (text "XGROUP" ∷ text "CREATE" ∷ key ∷ group ∷ id ∷ [])
      ++ (if mkstream then text "MKSTREAM" ∷ [] else []))

  unfoldable pub xgroup_setid : Bytes → Bytes → Bytes → Exec S CmdReply
  xgroup_setid key group id = cmd_execv (text "XGROUP" ∷ text "SETID" ∷ key ∷ group ∷ id ∷ [])

  unfoldable pub xgroup_destroy : Bytes → Bytes → Exec S CmdReply
  xgroup_destroy key group = cmd_execv (text "XGROUP" ∷ text "DESTROY" ∷ key ∷ group ∷ [])

  unfoldable pub xgroup_createconsumer : Bytes → Bytes → Bytes → Exec S CmdReply
  xgroup_createconsumer key group consumer =
      cmd_execv (text "XGROUP" ∷ text "CREATECONSUMER" ∷ key ∷ group ∷ consumer ∷ [])

  unfoldable pub xgroup_delconsumer : Bytes → Bytes → Bytes → Exec S CmdReply
  xgroup_delconsumer key group consumer =
      cmd_execv (text "XGROUP" ∷ text "DELCONSUMER" ∷ key ∷ group ∷ consumer ∷ [])

  unfoldable pub xreadgroup :
      Bytes → Bytes → List StringStreamReadRequest → StreamReadGroupOptions → Exec S CmdReply
  xreadgroup group consumer streams options = do
    args ← lift (xreadgroup_arguments group consumer streams options)
    cmd_execv args

  unfoldable pub xack : Bytes → Bytes → List Bytes → Exec S CmdReply
  xack key group ids =
      if is_empty ids
      then pure (make_signed_integer (pos 0))
      else cmd_execv (append_arguments (text "XACK" ∷ key ∷ group ∷ []) ids)
