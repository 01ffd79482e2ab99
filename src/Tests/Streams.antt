-- ===== src/Tests/Streams.antt =====
-- A server with one stream, and a typed entry on it.
use redisdal.Prelude.{
  Bool, true, false, none, some, List, [], ◌∷◌, ◌++◌, length, map, ◌≡◌, refl, if◌then◌else◌,
}
use redisdal.Text.{Bytes, text, same_text}
use redisdal.Text.Decimal.{decimal}
use redisdal.Errors.{ok}
use redisdal.Reply.{CmdReply, make_string, make_array, make_nil}
use redisdal.Reply.Decode.{StringStreamEntry}
use redisdal.CmdOps.Options.{default_add_options}
use redisdal.Exec.{Exec, Executor}
use redisdal.Reply.RoundTrip.{entry_reply}
use redisdal.CmdOps.AddLayout.{field_words}
use redisdal.Template.Contract.{client_template}
use redisdal.Serializer.{string_serializer, bool_serializer}
use redisdal.Serializer.Lossless.{bool-Keeps, string-Keeps}
use redisdal.Template.{RedisTemplate}
use redisdal.Template.Entries.{deserialize_entries}
use redisdal.Template.Views.Streams
use redisdal.Template.RoundTrip.Streams.{StreamServer, added_entry_read}
use redisdal.Tests.Server.{byte_chars}

-- The fields of the words behind the id.
abbrev fields_of : List Bytes → List (Bytes × Bytes)
fields_of (field ∷ value ∷ words) = (field, value) ∷ fields_of words
fields_of words = []

-- One stream, whatever the key; an entry has the number of the entries before it as its id.
abbrev stream_answer : List Bytes → Exec (List StringStreamEntry) CmdReply
stream_answer (command ∷ key ∷ first ∷ second ∷ words) held =
    if same_text command (text "XADD")
    then (
      ok (make_string (decimal (length held))),
      held ++ (record { id = decimal (length held); fields = fields_of (second ∷ words) } ∷ []),
    )
    else (ok (make_array (map entry_reply held)), held)
stream_answer argv held = (ok make_nil, held)

abbrev stream_store : Executor (List StringStreamEntry)
stream_store = record { cmd_execv = stream_answer }

fields_of-field_words : (fields : List (Bytes × Bytes)) → fields_of (field_words fields) ≡ fields
unfolding field_words
fields_of-field_words [] = refl
fields_of-field_words ((field, value) ∷ fields) = rw (fields_of-field_words fields) refl

stream_store-StreamServer : StreamServer stream_store (λ held key. held)
unfolding same_text text field_words
stream_store-StreamServer = record {
  xadd = λ key field fields held. (_, _, refl, rw (fields_of-field_words fields) refl);
  xrange = λ key held. (_, refl);
}

abbrev flags : RedisTemplate (List StringStreamEntry) Bytes Bool
flags = client_template stream_store byte_chars string_serializer bool_serializer

-- An entry with a repeated field, on an empty stream.
added_entry_read_example :
    (id : Bytes) × (held : List StringStreamEntry) × (Streams.xadd flags
        (b'k' ∷ [])
        (((b'f' ∷ []), true) ∷ ((b'f' ∷ []), false) ∷ [])
        default_add_options
        []
      ≡ (ok (some id), held))
    × ((Streams.xrange flags (b'k' ∷ []) (text "-") (text "+") none held).0
        ≡ ok (record { id = id; fields = ((b'f' ∷ []), true) ∷ ((b'f' ∷ []), false) ∷ [] } ∷ []))
unfolding string_serializer deserialize_entries
added_entry_read_example =
    added_entry_read stream_store byte_chars string_serializer bool_serializer (λ held key. held)
      stream_store-StreamServer (b'k' ∷ []) (b'k' ∷ []) ((b'f' ∷ []), true)
      (((b'f' ∷ []), false) ∷ []) [] [] refl
      (
        (string-Keeps (b'f' ∷ []), bool-Keeps true),
        ((string-Keeps (b'f' ∷ []), bool-Keeps false), tt),
      )
      refl
