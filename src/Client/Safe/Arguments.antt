-- ===== src/Client/Safe/Arguments.antt =====
-- The code that builds argument vectors (src/redis_cmd_ops.cpp) throws, and does nothing undefined.
use redisdal.Prelude.{not, ◌&&◌, Option, none, some, List, [], ◌∷◌, is_empty, length, ltb}
use redisdal.Prelude.Int.{ℤ, pos, ltb_ℤ}
use redisdal.Text.{Bytes, text}
use redisdal.Serialization.{DoubleChars, to_string_double, serialized}
use redisdal.Reply.{CmdReply, Double, is_error, get_string, get_type, same_type, string}
use redisdal.Reply.Ensures.{Ensures, ensures_ok, ensures_err, Any, Ensures-if, Ensures-bind}
use redisdal.CmdOps.Options.{
  StreamTrimOptions, StreamAddOptions, StreamReadOptions, StreamReadGroupOptions,
  StringStreamReadRequest,
}
use redisdal.CmdOps.Arguments.{
  max_script_keys, script_arguments, append_stream_count, append_stream_block, append_stream_trim,
  check_stream_ids, append_streams, is_negative, is_given,
}
use redisdal.CmdOps.Vectors.{
  score_arguments, trimmed, xadd_arguments, xread_arguments, xreadgroup_arguments, loaded_sha,
  sha_of,
}

pub script_arguments-Defined :
    (command script : Bytes) (keys args : List Bytes)
    → Ensures Any (script_arguments command script keys args)
unfolding script_arguments
script_arguments-Defined command script keys args =
    Ensures-if (ltb max_script_keys (length keys)) _ _ (λ _. ensures_err _ tt)
      (λ _. ensures_ok _ tt)

module _ (args : List Bytes) where
  pub append_stream_count-Defined :
      (count : Option ℤ) (command : Bytes) → Ensures Any (append_stream_count args count command)
  unfolding append_stream_count
  append_stream_count-Defined none command = ensures_ok _ tt
  append_stream_count-Defined (some count) command =
      Ensures-if (not (ltb_ℤ (pos 0) count)) _ _ (λ _. ensures_err _ tt) (λ _. ensures_ok _ tt)

  append_stream_block-Defined :
      (block : Option ℤ) (command : Bytes) → Ensures Any (append_stream_block args block command)
  unfolding append_stream_block
  append_stream_block-Defined none command = ensures_ok _ tt
  append_stream_block-Defined (some block) command =
      Ensures-if (ltb_ℤ block (pos 0)) _ _ (λ _. ensures_err _ tt) (λ _. ensures_ok _ tt)

  pub append_stream_trim-Defined :
      (options : StreamTrimOptions) (command : Bytes)
      → Ensures Any (append_stream_trim args options command)
  unfolding append_stream_trim
  append_stream_trim-Defined options command =
      Ensures-if (is_empty options.threshold) _ _ (λ _. ensures_err _ tt)
        (λ _.
          Ensures-if (is_negative options.limit) _ _ (λ _. ensures_err _ tt)
            (λ _.
              Ensures-if (is_given options.limit && not options.approximate) _ _
                (λ _. ensures_err _ tt) (λ _. ensures_ok _ tt)))

  trimmed-Defined : (trim : Option StreamTrimOptions) → Ensures Any (trimmed args trim)
  unfolding trimmed
  trimmed-Defined none = ensures_ok _ tt
  trimmed-Defined (some trim) = append_stream_trim-Defined trim (text "XADD")

check_stream_ids-Defined :
    (streams : List StringStreamReadRequest) (command : Bytes)
    → Ensures Any (check_stream_ids streams command)
unfolding check_stream_ids
check_stream_ids-Defined [] command = ensures_ok _ tt
check_stream_ids-Defined (x ∷ xs) command =
    Ensures-if (is_empty x.id) _ _ (λ _. ensures_err _ tt)
      (λ _. check_stream_ids-Defined xs command)

append_streams-Defined :
    (args : List Bytes) (streams : List StringStreamReadRequest) (command : Bytes)
    → Ensures Any (append_streams args streams command)
unfolding append_streams
append_streams-Defined args streams command =
    Ensures-if (is_empty streams) _ _ (λ _. ensures_err _ tt)
      (λ _. Ensures-bind _ (check_stream_ids-Defined streams command) (λ x _. ensures_ok _ tt))

pub xadd_arguments-Defined :
    (key : Bytes) (fields : List (Bytes × Bytes)) (options : StreamAddOptions)
    → Ensures Any (xadd_arguments key fields options)
unfolding xadd_arguments
xadd_arguments-Defined key fields options =
    Ensures-if (is_empty fields) _ _ (λ _. ensures_err _ tt)
      (λ _.
        Ensures-if (is_empty options.id) _ _ (λ _. ensures_err _ tt)
          (λ _. Ensures-bind _ (trimmed-Defined _ options.trim) (λ args _. ensures_ok _ tt)))

pub xread_arguments-Defined :
    (streams : List StringStreamReadRequest) (options : StreamReadOptions)
    → Ensures Any (xread_arguments streams options)
unfolding xread_arguments
xread_arguments-Defined streams options =
    Ensures-bind _ (append_stream_count-Defined _ options.count (text "XREAD")) (λ c _.
      Ensures-bind _ (append_stream_block-Defined c options.block_ms (text "XREAD"))
        (λ b _. append_streams-Defined b streams (text "XREAD")))

pub xreadgroup_arguments-Defined :
    (group consumer : Bytes) (streams : List StringStreamReadRequest)
    (options : StreamReadGroupOptions)
    → Ensures Any (xreadgroup_arguments group consumer streams options)
unfolding xreadgroup_arguments
xreadgroup_arguments-Defined group consumer streams options =
    Ensures-bind _ (append_stream_count-Defined _ options.count (text "XREADGROUP")) (λ c _.
      Ensures-bind _ (append_stream_block-Defined c options.block_ms (text "XREADGROUP"))
        (λ b _. append_streams-Defined _ streams (text "XREADGROUP")))

serialized-Defined : (o : Option Bytes) → Ensures Any (serialized o)
serialized-Defined none = ensures_err _ tt
serialized-Defined (some s) = ensures_ok _ tt

module _ (chars : DoubleChars) where
  pub to_string_double-Defined : (d : Double) → Ensures Any (to_string_double chars d)
  unfolding to_string_double
  to_string_double-Defined d = serialized-Defined (chars.to_chars d)

  pub score_arguments-Defined :
      (members : List (Bytes × Double)) → Ensures Any (score_arguments chars members)
  unfolding score_arguments
  score_arguments-Defined [] = ensures_ok _ tt
  score_arguments-Defined ((member, score) ∷ members) =
      Ensures-bind _ (to_string_double-Defined score)
        (λ a _. Ensures-bind _ (score_arguments-Defined members) (λ r _. ensures_ok _ tt))

sha_of-Defined : (o : Option Bytes) → Ensures Any (sha_of o)
sha_of-Defined none = ensures_err _ tt
sha_of-Defined (some s) = ensures_ok _ tt

pub loaded_sha-Defined : (r : CmdReply) → Ensures Any (loaded_sha r)
unfolding loaded_sha
loaded_sha-Defined r =
    Ensures-if (is_error r) _ _ (λ _. ensures_err _ tt)
      (λ _.
        Ensures-if (not (same_type (get_type r) string)) _ _ (λ _. ensures_err _ tt)
          (λ _. sha_of-Defined (get_string r)))
