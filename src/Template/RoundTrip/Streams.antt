-- ===== src/Template/RoundTrip/Streams.antt =====
-- A typed stream entry that is added and read.
use redisdal.Prelude.{none, some, List, [], ◌∷◌, ◌++◌, All, map, ◌≡◌, refl, ap, ◌∙◌}
use redisdal.Text.{Bytes, text}
use redisdal.Errors.{ok}
use redisdal.Serialization.{DoubleChars}
use redisdal.Reply.{make_string, make_array, get_type, get_string, is_nil}
use redisdal.Reply.Decode.{StreamEntry, StringStreamEntry, or_throw, as_string, optional_string}
use redisdal.Reply.RoundTrip.{entry_reply, stream_entries_lem}
use redisdal.CmdOps.Arguments.{append_stream_count}
use redisdal.CmdOps.Vectors.{trimmed, xadd_arguments}
use redisdal.CmdOps.AddLayout.{field_words, flatten_pairs-field_words}
use redisdal.CmdOps.Options.{default_add_options}
use redisdal.CmdOps.Streams as Ops
use redisdal.Client.Streams as Client
use redisdal.Exec.{Executor, lift}
use redisdal.Template.Contract.{client_template}
use redisdal.Serializer.{Serializer, serialize_pairs, deserialize_pairs}
use redisdal.Serializer.Lossless.{KeepsPair, pairs-Keeps}
use redisdal.Template.{RedisTemplate, serialize_key}
use redisdal.Template.Entries.{deserialize_entry, deserialize_entries}
use redisdal.Template.Views.Streams
use redisdal.Template.RoundTrip.{
  returned_then, lifted_then, received_ok, array_fine, appended, appended_cons, appended-nil,
}

-- Redis streams behind a connection: `content` is the stream at a key. XADD with the id `*` appends an
-- entry with these fields and answers with its new id, XRANGE from - to + answers with all entries.
pub record StreamServer {S : Type 0} (connection : Executor S)
    (content : S → Bytes → List StringStreamEntry) : Type 0 where
  pub xadd :
      (key : Bytes) (field : Bytes × Bytes) (fields : List (Bytes × Bytes)) (s : S)
      → (id : Bytes) × (s' : S) × (connection.cmd_execv
            (text "XADD" ∷ key ∷ text "*" ∷ field_words (field ∷ fields))
            s
          ≡ (ok (make_string id), s'))
        × (content s' key ≡ content s key ++ (record { id = id; fields = field ∷ fields } ∷ []))
  pub xrange :
      (key : Bytes) (s : S)
      → (s' : S) × (connection.cmd_execv (text "XRANGE" ∷ key ∷ text "-" ∷ text "+" ∷ []) s
          ≡ (ok (make_array (map entry_reply (content s key))), s'))

id_read :
    (id : Bytes)
    → (or_throw (make_string id) ≡ ok (make_string id))
      × (optional_string (make_string id) (text "XADD") ≡ ok (some id))
unfolding or_throw make_string optional_string as_string is_nil get_type get_string
id_read id = (refl, refl)

-- The arguments of an append with the default options.
default_arguments :
    (key : Bytes) (field : Bytes × Bytes) (fields : List (Bytes × Bytes))
    → xadd_arguments key (field ∷ fields) default_add_options
      ≡ ok (text "XADD" ∷ key ∷ text "*" ∷ field_words (field ∷ fields))
unfolding xadd_arguments trimmed text
default_arguments key field fields = rw (flatten_pairs-field_words (field ∷ fields)) refl

module _ {S : Type 0} (connection : Executor S) (content : S → Bytes → List StringStreamEntry)
    (server : StreamServer connection content) where
  client_xadd :
      (key : Bytes) (field : Bytes × Bytes) (fields : List (Bytes × Bytes)) (s : S)
      → (id : Bytes) × (s' : S) × (Client.xadd connection key (field ∷ fields) default_add_options s
          ≡ (ok (some id), s'))
        × (content s' key ≡ content s key ++ (record { id = id; fields = field ∷ fields } ∷ []))
  unfolding Client.xadd Ops.xadd
  client_xadd key field fields s =
      let (id, s', sent, added) = server.xadd key field fields s in
      let (fine, read) = id_read id in
      (
        id,
        s',
        received_ok connection _ _ (lifted_then _ s (default_arguments key field fields) ∙ sent)
            fine read,
        added,
      )

  client_xrange :
      (key : Bytes) (s : S)
      → (s' : S) × (Client.xrange connection key (text "-") (text "+") none s
          ≡ (ok (content s key), s'))
  unfolding Client.xrange Ops.xrange append_stream_count
  client_xrange key s =
      let (s', sent) = server.xrange key s in
      (
        s',
        received_ok connection _ _ (lifted_then _ s refl ∙ sent) (array_fine _)
            (stream_entries_lem (content s key) (text "XRANGE")),
      )

module _ {K V : Type 0} (key_serializer : Serializer K) (value_serializer : Serializer V) where
  deserialize_entries-++ :
      (raw raw' : List StringStreamEntry)
      → deserialize_entries key_serializer value_serializer (raw ++ raw')
        ≡ appended
            (deserialize_entries key_serializer value_serializer raw)
            (deserialize_entries key_serializer value_serializer raw')
  unfolding deserialize_entries
  deserialize_entries-++ [] raw' = appended-nil _
  deserialize_entries-++ (entry ∷ raw) raw' =
      rw (deserialize_entries-++ raw raw')
        (appended_cons (deserialize_entry key_serializer value_serializer entry) _ _)

module _ {S K V : Type 0} (connection : Executor S) (chars : DoubleChars)
    (key_serializer : Serializer K) (value_serializer : Serializer V)
    (content : S → Bytes → List StringStreamEntry) (server : StreamServer connection content) where
  abbrev tpl : RedisTemplate S K V
  tpl = client_template connection chars key_serializer value_serializer

  entry_added :
      (key : K) (k : Bytes) (pairs : List (K × V)) (field : Bytes × Bytes)
      (fields : List (Bytes × Bytes)) (s : S)
      → key_serializer.serialize key ≡ ok k
      → serialize_pairs key_serializer value_serializer pairs ≡ ok (field ∷ fields)
      → (id : Bytes) × (s' : S) × (Streams.xadd tpl key pairs default_add_options s
          ≡ (ok (some id), s'))
        × (content s' k ≡ content s k ++ (record { id = id; fields = field ∷ fields } ∷ []))
  unfolding Streams.xadd serialize_key
  entry_added key k pairs field fields s k_ok fields_ok =
      let (id, s', sent, added) = client_xadd connection content server k field fields s in
      (id, s', lifted_then _ s fields_ok ∙ lifted_then _ s k_ok ∙ sent, added)

  entries_read :
      (key : K) (k : Bytes) (entries : List (StreamEntry K V)) (s : S)
      → key_serializer.serialize key ≡ ok k
      → deserialize_entries key_serializer value_serializer (content s k) ≡ ok entries
      → (Streams.xrange tpl key (text "-") (text "+") none s).0 ≡ ok entries
  unfolding Streams.xrange serialize_key lift
  entries_read key k entries s k_ok decoded =
      let (s', sent) = client_xrange connection content server k s in
      ap (λ r. r.0) (lifted_then _ s k_ok ∙ returned_then _ _ sent) ∙ rw (decoded) refl

  -- A typed entry with one or more fields, added with the stream view of a facade over `redis_client`
  -- and the default options, on a server whose streams behave as XADD and XRANGE are documented: XADD
  -- returns an id, and a read of the whole stream then returns the typed entries that it held before,
  -- followed by one with this id and these fields, in their order and with repeated fields kept, if
  -- the key serializes and the serializers keep the fields and values.
  pub added_entry_read :
      (key : K) (k : Bytes) (pair : K × V) (pairs : List (K × V)) (old : List (StreamEntry K V))
      (s : S)
      → key_serializer.serialize key ≡ ok k
      → All (KeepsPair key_serializer value_serializer) (pair ∷ pairs)
      → deserialize_entries key_serializer value_serializer (content s k) ≡ ok old
      → (id : Bytes) × (s' : S) × (Streams.xadd tpl key (pair ∷ pairs) default_add_options s
          ≡ (ok (some id), s'))
        × ((Streams.xrange tpl key (text "-") (text "+") none s').0
            ≡ ok (old ++ (record { id = id; fields = pair ∷ pairs } ∷ [])))
  unfolding deserialize_entries deserialize_entry serialize_pairs deserialize_pairs
  added_entry_read key k (f, v) pairs old s k_ok ((f_kept, v_kept), keeps) old_ok =
      let kept = pairs-Keeps key_serializer value_serializer pairs keeps in
      let sent_ok : serialize_pairs key_serializer value_serializer ((f, v) ∷ pairs)
          ≡ ok ((f_kept.bytes, v_kept.bytes) ∷ kept.raw) =
        rw (f_kept.serialized, v_kept.serialized, kept.serialized) refl in
      let (id, s', sent, added) =
        entry_added key k ((f, v) ∷ pairs) (f_kept.bytes, v_kept.bytes) kept.raw s k_ok sent_ok in
      let read : deserialize_entries key_serializer value_serializer (content s' k)
          ≡ ok (old ++ (record { id = id; fields = (f, v) ∷ pairs } ∷ [])) =
        rw
          (
            added,
            deserialize_entries-++ key_serializer value_serializer (content s k)
                (record { id = id; fields = (f_kept.bytes, v_kept.bytes) ∷ kept.raw } ∷ []),
            old_ok,
            f_kept.deserialized,
            v_kept.deserialized,
            kept.deserialized,
          )
          refl in
      (id, s', sent, entries_read key k _ s' k_ok read)
