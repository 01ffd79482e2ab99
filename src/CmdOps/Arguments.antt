-- ===== src/CmdOps/Arguments.antt =====
-- The helpers of the unnamed namespace of src/redis_cmd_ops.cpp. Those that append to `args` in
-- place return the longer vector, or the exception that they throw.
use redisdal.Prelude.{
  ℕ, Bool, true, false, ◌&&◌, not, Option, none, some, List, [], ◌∷◌, ◌++◌, map, length, is_empty,
  ltb, if◌then◌else◌,
}
use redisdal.Prelude.Int.{ℤ, pos, ltb_ℤ}
use redisdal.Text.{Bytes, text}
use redisdal.Text.Decimal.{decimal, to_string}
use redisdal.Errors.{invalid_argument, too_many_script_keys_error, Result, ok, err, ◌>>◌}
use redisdal.CmdOps.Options.{
  StreamTrimStrategy, maxlen, minid, StreamTrimOptions, StringStreamReadRequest,
}

abbrev pub max_script_keys : ℕ
max_script_keys = 64

unfoldable pub append_arguments : List Bytes → List Bytes → List Bytes
append_arguments prefix args = prefix ++ args

unfoldable pub script_arguments : Bytes → Bytes → List Bytes → List Bytes → Result (List Bytes)
unfolding append_arguments
script_arguments command script keys args =
    if ltb max_script_keys (length keys)
    then err (too_many_script_keys_error command (length keys) max_script_keys)
    else ok (append_arguments (command ∷ script ∷ decimal (length keys) ∷ []) keys ++ args)

unfoldable pub append_stream_count : List Bytes → Option ℤ → Bytes → Result (List Bytes)
append_stream_count args none command = ok args
append_stream_count args (some count) command =
    if not (ltb_ℤ (pos 0) count)
    then err (invalid_argument (command ++ text ": count must be greater than zero"))
    else ok (args ++ (text "COUNT" ∷ to_string count ∷ []))

unfoldable pub append_stream_block : List Bytes → Option ℤ → Bytes → Result (List Bytes)
append_stream_block args none command = ok args
append_stream_block args (some block_ms) command =
    if ltb_ℤ block_ms (pos 0)
    then err (invalid_argument (command ++ text ": block_ms must not be negative"))
    else ok (args ++ (text "BLOCK" ∷ to_string block_ms ∷ []))

abbrev pub strategy_word : StreamTrimStrategy → Bytes
strategy_word maxlen = text "MAXLEN"
strategy_word minid = text "MINID"

abbrev pub limit_words : Option ℤ → List Bytes
limit_words none = []
limit_words (some limit) = text "LIMIT" ∷ to_string limit ∷ []

abbrev pub is_negative : Option ℤ → Bool
is_negative none = false
is_negative (some limit) = ltb_ℤ limit (pos 0)

abbrev pub is_given : Option ℤ → Bool
is_given none = false
is_given (some limit) = true

unfoldable pub append_stream_trim : List Bytes → StreamTrimOptions → Bytes → Result (List Bytes)
append_stream_trim args options command =
    if is_empty options.threshold
    then err (invalid_argument (command ++ text ": trim threshold must not be empty"))
    else if is_negative options.limit
    then err (invalid_argument (command ++ text ": trim limit must not be negative"))
    else if is_given options.limit && not options.approximate
    then err (invalid_argument (command ++ text ": trim limit requires approximate trimming"))
    else ok (
        args
        ++ (strategy_word options.strategy ∷ [])
        ++ (if options.approximate then text "~" ∷ [] else [])
        ++ (options.threshold ∷ [])
        ++ limit_words options.limit)

-- The loop that looks for an empty stream id.
unfoldable pub check_stream_ids : List StringStreamReadRequest → Bytes → Result (Unit {0})
check_stream_ids [] command = ok tt
check_stream_ids (stream ∷ streams) command =
    if is_empty stream.id
    then err (invalid_argument (command ++ text ": stream id must not be empty"))
    else check_stream_ids streams command

unfoldable pub append_streams :
    List Bytes → List StringStreamReadRequest → Bytes → Result (List Bytes)
unfolding check_stream_ids
append_streams args streams command =
    if is_empty streams
    then err (invalid_argument (command ++ text ": streams must not be empty"))
    else do
      check_stream_ids streams command
      ok (args ++ (text "STREAMS" ∷ []) ++ map (λ s. s.key) streams ++ map (λ s. s.id) streams)
