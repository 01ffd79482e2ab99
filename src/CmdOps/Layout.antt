-- ===== src/CmdOps/Layout.antt =====
-- The argument vectors of XREAD and XREADGROUP of src/redis_cmd_ops.cpp: which options are
-- accepted, and what is sent for those.
use redisdal.Prelude.{
  Option, none, some, List, [], ◌∷◌, ◌++◌, map, is_empty, All, ◌≢◌, inl, inr, Bool-cases,
  append-nil, if◌then◌else◌,
}
use redisdal.Prelude.Int.{ℤ, pos, ltb_ℤ}
use redisdal.Text.{Bytes, text}
use redisdal.Text.Decimal.{to_string}
use redisdal.CmdOps.Arguments.{
  append_stream_count, append_stream_block, check_stream_ids, append_streams,
}
use redisdal.CmdOps.Vectors.{xread_arguments, xreadgroup_arguments}
use redisdal.CmdOps.Options.{StreamReadOptions, StreamReadGroupOptions, StringStreamReadRequest}
use redisdal.CmdOps.Accepts.{
  IsPositive, IsNatural, YieldsIf, yields, refused, YieldsIf->>=, YieldsIf-guard, YieldsIf-unit,
  empty, full, ltb_ℤ-pos, ltb_ℤ-not_pos, ltb_ℤ-negative, ltb_ℤ-natural,
}

abbrev HasIds : List StringStreamReadRequest → Type 0
HasIds streams = All (λ s. s.id ≢ []) streams

abbrev word_and : Bytes → Option ℤ → List Bytes
word_and word none = []
word_and word (some n) = word ∷ to_string n ∷ []

-- All keys before all ids.
abbrev pub with_streams : List Bytes → List StringStreamReadRequest → List Bytes
with_streams args streams =
    args ++ (text "STREAMS" ∷ []) ++ map (λ s. s.key) streams ++ map (λ s. s.id) streams

count_lem :
    (args : List Bytes) (count : Option ℤ) (command : Bytes)
    → YieldsIf
        (IsPositive count)
        (args ++ word_and (text "COUNT") count)
        (append_stream_count args count command)
unfolding append_stream_count
count_lem args none command = rw (append-nil args) (yields tt)
count_lem args (some count) command = elim (Bool-cases (ltb_ℤ (pos 0) count)) [
  | inl positive ↦ rw (positive) (yields (ltb_ℤ-pos count positive))
  | inr other ↦ rw (other) (refused _ (λ p. ltb_ℤ-not_pos count other p))
]

block_lem :
    (args : List Bytes) (block : Option ℤ) (command : Bytes)
    → YieldsIf
        (IsNatural block)
        (args ++ word_and (text "BLOCK") block)
        (append_stream_block args block command)
unfolding append_stream_block
block_lem args none command = rw (append-nil args) (yields tt)
block_lem args (some block) command = elim (Bool-cases (ltb_ℤ block (pos 0))) [
  | inl negative ↦ rw (negative) (refused _ (λ p. ltb_ℤ-negative block negative p))
  | inr other ↦ rw (other) (yields (ltb_ℤ-natural block other))
]

ids_lem :
    (streams : List StringStreamReadRequest) (command : Bytes)
    → YieldsIf (HasIds streams) tt (check_stream_ids streams command)
unfolding check_stream_ids
ids_lem [] command = yields tt
ids_lem (stream ∷ streams) command =
    YieldsIf-guard (is_empty stream.id) _ (empty stream.id) (full stream.id)
      (ids_lem streams command)

AreStreams : List StringStreamReadRequest → Type 0
AreStreams streams = (streams ≢ []) × HasIds streams

streams_lem :
    (args : List Bytes) (streams : List StringStreamReadRequest) (command : Bytes)
    → YieldsIf
        (AreStreams streams)
        (with_streams args streams)
        (append_streams args streams command)
unfolding append_streams AreStreams
streams_lem args streams command =
    YieldsIf-guard (is_empty streams) _ (empty streams) (full streams)
      (YieldsIf-unit (YieldsIf->>= _ (ids_lem streams command) (yields tt)))

-- What the server accepts of a read: a positive count, a time to block that is not negative, and
-- streams, each with an id.
abbrev pub IsValidRead : Option ℤ → Option ℤ → List StringStreamReadRequest → Type 0
IsValidRead count block streams =
    IsPositive count × (IsNatural block × ((streams ≢ []) × HasIds streams))

-- The options of a read, where they are given.
abbrev pub option_words : Option ℤ → Option ℤ → List Bytes → List Bytes
option_words count block args =
    args ++ word_and (text "COUNT") count ++ word_and (text "BLOCK") block

-- `XREAD` is composed of its count and time to block, where given, and then all keys before all
-- ids, when the read is valid; else an exception is thrown.
pub xread_arguments_lem :
    (streams : List StringStreamReadRequest) (options : StreamReadOptions)
    → YieldsIf
        (IsValidRead options.count options.block_ms streams)
        (with_streams (option_words options.count options.block_ms (text "XREAD" ∷ [])) streams)
        (xread_arguments streams options)
unfolding xread_arguments AreStreams
xread_arguments_lem streams options = YieldsIf->>= _ (count_lem _ options.count _) (
    YieldsIf->>= _ (block_lem _ options.block_ms _)
      (streams_lem (option_words options.count options.block_ms (text "XREAD" ∷ [])) streams _))

abbrev pub group_words : Bytes → Bytes → StreamReadGroupOptions → List Bytes
group_words group consumer options =
    option_words options.count options.block_ms
      (text "XREADGROUP" ∷ text "GROUP" ∷ group ∷ consumer ∷ [])
    ++ (if options.noack then text "NOACK" ∷ [] else [])

-- `XREADGROUP` is composed of the group and the consumer, the options that are given and then all
-- keys before all ids, when the read is valid; else an exception is thrown.
pub xreadgroup_arguments_lem :
    (group consumer : Bytes) (streams : List StringStreamReadRequest)
    (options : StreamReadGroupOptions)
    → YieldsIf
        (IsValidRead options.count options.block_ms streams)
        (with_streams (group_words group consumer options) streams)
        (xreadgroup_arguments group consumer streams options)
unfolding xreadgroup_arguments AreStreams
xreadgroup_arguments_lem group consumer streams options =
    YieldsIf->>= _ (count_lem _ options.count _) (
      YieldsIf->>= _ (block_lem _ options.block_ms _)
        (streams_lem (group_words group consumer options) streams _))
