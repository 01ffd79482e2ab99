-- ===== src/CmdOps/Vectors.antt =====
-- The argument vectors of the commands of src/redis_cmd_ops.cpp that build them in several steps,
-- and may throw on the way, and the tests that the script commands make on a reply.
use redisdal.Prelude.{
  Bool, not, ◌&&◌, Option, none, some, List, [], ◌∷◌, ◌++◌, is_empty, if◌then◌else◌,
}
use redisdal.Text.{Bytes, text, contains}
use redisdal.Errors.{
  invalid_argument, redis_error, unexpected_reply_type_error, Result, ok, err, ◌>>=◌,
}
use redisdal.Reply.{Double, CmdReply, string, same_type, get_type, get_string, is_error}
use redisdal.Serialization.{DoubleChars, to_string_double}
use redisdal.CmdOps.Arguments.{
  append_stream_count, append_stream_block, append_stream_trim, append_streams,
}
use redisdal.CmdOps.Options.{
  StreamTrimOptions, StreamAddOptions, StreamReadOptions, StreamReadGroupOptions,
  StringStreamReadRequest,
}

-- The loop that appends each field and its value.
unfoldable pub flatten_pairs : List (Bytes × Bytes) → List Bytes
flatten_pairs [] = []
flatten_pairs ((field, value) ∷ values) = field ∷ value ∷ flatten_pairs values

-- The loop that appends each score and its member.
unfoldable pub score_arguments : DoubleChars → List (Bytes × Double) → Result (List Bytes)
unfolding to_string_double
score_arguments chars [] = ok []
score_arguments chars ((member, score) ∷ members) = do
  amount ← to_string_double chars score
  rest ← score_arguments chars members
  ok (amount ∷ member ∷ rest)

-- `if (options.trim) { append_stream_trim(args, *options.trim, "XADD"); }`
unfoldable pub trimmed : List Bytes → Option StreamTrimOptions → Result (List Bytes)
unfolding append_stream_trim
trimmed args none = ok args
trimmed args (some trim) = append_stream_trim args trim (text "XADD")

unfoldable pub xadd_arguments :
    Bytes → List (Bytes × Bytes) → StreamAddOptions → Result (List Bytes)
unfolding trimmed flatten_pairs
xadd_arguments key fields options =
    if is_empty fields
    then err (invalid_argument (text "XADD: fields must not be empty"))
    else if is_empty options.id
    then err (invalid_argument (text "XADD: id must not be empty"))
    else do
      let created = if options.nomkstream then text "NOMKSTREAM" ∷ [] else []
      args ← trimmed ((text "XADD" ∷ key ∷ []) ++ created) options.trim
      ok (args ++ (options.id ∷ []) ++ flatten_pairs fields)

unfoldable pub xread_arguments :
    List StringStreamReadRequest → StreamReadOptions → Result (List Bytes)
unfolding append_stream_count append_stream_block append_streams
xread_arguments streams options = do
  counted ← append_stream_count (text "XREAD" ∷ []) options.count (text "XREAD")
  blocking ← append_stream_block counted options.block_ms (text "XREAD")
  append_streams blocking streams (text "XREAD")

unfoldable pub xreadgroup_arguments :
    Bytes → Bytes → List StringStreamReadRequest → StreamReadGroupOptions → Result (List Bytes)
unfolding append_stream_count append_stream_block append_streams
xreadgroup_arguments group consumer streams options = do
  counted ←
      append_stream_count (text "XREADGROUP" ∷ text "GROUP" ∷ group ∷ consumer ∷ []) options.count
        (text "XREADGROUP")
  blocking ← append_stream_block counted options.block_ms (text "XREADGROUP")
  let args = blocking ++ (if options.noack then text "NOACK" ∷ [] else [])
  append_streams args streams (text "XREADGROUP")

-- `value_or`
abbrev pub value_or {ℓ} : {A : Type ℓ} → Option A → A → A
value_or none a = a
value_or (some b) a = b

-- What `script_load` makes of its reply.
abbrev pub sha_of : Option Bytes → Result Bytes
sha_of none =
    err (unexpected_reply_type_error (text "SCRIPT LOAD") (text "string") (text "non-string"))
sha_of (some sha) = ok sha

unfoldable pub loaded_sha : CmdReply → Result Bytes
unfolding is_error get_string get_type
loaded_sha reply =
    if is_error reply
    then err (redis_error (value_or (get_string reply) (text "Unknown Redis error")))
    else if not (same_type (get_type reply) string)
    then err (unexpected_reply_type_error (text "SCRIPT LOAD") (text "string") (text "non-string"))
    else sha_of (get_string reply)

-- The test of `eval_sha1` for a script that the server does not have.
unfoldable pub is_no_script : CmdReply → Bool
unfolding is_error get_string contains
is_no_script reply = is_error reply && contains (value_or (get_string reply) []) (text "NOSCRIPT")
