-- ===== src/Tests/Commands.antt =====
-- Argument vectors of stream commands.
use redisdal.Prelude.{◌≤◌, ◌≡◌, true, none, some, List, [], ◌∷◌, length}
use redisdal.Prelude.Int.{pos}
use redisdal.Text.{Bytes, text}
use redisdal.CmdOps.Arguments.{append_stream_trim, script_arguments}
use redisdal.CmdOps.Options.{
  maxlen, StreamTrimOptions, StreamAddOptions, StreamReadOptions, StreamReadGroupOptions,
  StringStreamReadRequest,
}
use redisdal.CmdOps.Vectors.{xadd_arguments, xread_arguments, xreadgroup_arguments}
use redisdal.CmdOps.Layout.{
  IsValidRead, option_words, with_streams, group_words, xread_arguments_lem,
  xreadgroup_arguments_lem,
}
use redisdal.CmdOps.Accepts.{YieldsIf}
use redisdal.CmdOps.AddLayout.{
  IsValidTrim, trim_words, append_stream_trim_lem, IsValidAdd, add_words, xadd_arguments_lem,
}
use redisdal.CmdOps.ScriptKeys.{read_call, script_arguments-read_call}

abbrev requests : List StringStreamReadRequest
requests =
    (record { key = b'a' ∷ []; id = b'0' ∷ [] }) ∷ (record { key = b'b' ∷ []; id = b'$' ∷ [] }) ∷ []

abbrev read_options : StreamReadOptions
read_options = record { count = some (pos 10); block_ms = none }

-- Two streams with a count.
xread_arguments_lem_example :
    YieldsIf
      (IsValidRead (some (pos 10)) none requests)
      (with_streams (option_words (some (pos 10)) none (text "XREAD" ∷ [])) requests)
      (xread_arguments requests read_options)
xread_arguments_lem_example = xread_arguments_lem requests read_options

abbrev group_options : StreamReadGroupOptions
group_options = record { count = none; block_ms = some (pos 0); noack = true }

-- Two streams for a group, with a time to block.
xreadgroup_arguments_lem_example :
    YieldsIf
      (IsValidRead none (some (pos 0)) requests)
      (with_streams (group_words (b'g' ∷ []) (b'c' ∷ []) group_options) requests)
      (xreadgroup_arguments (b'g' ∷ []) (b'c' ∷ []) requests group_options)
xreadgroup_arguments_lem_example =
    xreadgroup_arguments_lem (b'g' ∷ []) (b'c' ∷ []) requests group_options

abbrev approximate_trim : StreamTrimOptions
approximate_trim = record {
  strategy = maxlen;
  threshold = text "1000";
  approximate = true;
  limit = some (pos 100);
}

-- Approximate trimming with a limit.
append_stream_trim_lem_example :
    YieldsIf
      (IsValidTrim approximate_trim)
      (trim_words [] approximate_trim)
      (append_stream_trim [] approximate_trim (text "XTRIM"))
append_stream_trim_lem_example = append_stream_trim_lem [] approximate_trim (text "XTRIM")

abbrev add_options : StreamAddOptions
add_options = record { id = text "*"; nomkstream = true; trim = some approximate_trim }

abbrev one_field : List (Bytes × Bytes)
one_field = ((b'f' ∷ []), (b'v' ∷ [])) ∷ []

-- One field, with a trim clause.
xadd_arguments_lem_example :
    YieldsIf
      (IsValidAdd one_field add_options)
      (add_words (b'k' ∷ []) one_field add_options)
      (xadd_arguments (b'k' ∷ []) one_field add_options)
xadd_arguments_lem_example = xadd_arguments_lem (b'k' ∷ []) one_field add_options

abbrev two_keys : List Bytes
two_keys = (b'a' ∷ []) ∷ (b'b' ∷ []) ∷ []

-- Two keys and an argument.
script_arguments-read_call_example :
    (argv : List Bytes) × YieldsIf
      (length two_keys ≤ 64)
      argv
      (script_arguments (text "EVAL") (text "return 1") two_keys ((b'1' ∷ []) ∷ []))
    × (read_call argv
        ≡ some (record {
          command = text "EVAL";
          script = text "return 1";
          keys = two_keys;
          args = (b'1' ∷ []) ∷ [];
        }))
script_arguments-read_call_example =
    script_arguments-read_call (text "EVAL") (text "return 1") two_keys ((b'1' ∷ []) ∷ [])
