-- ===== src/Reply/Decode.antt =====
-- src/cmd_reply.cpp: the decoders that interpret a reply, and the stream types of
-- include/redisdal/common.hpp that they return. `command` is the name used in error messages.
-- Where an initialiser reads two elements, the first is read first.
use redisdal.Prelude.{
  ℕ, ◌%◌, Bool, true, false, not, Option, none, some, List, [], ◌∷◌, ◌++◌, length, ◌==◌,
  if◌then◌else◌,
}
use redisdal.Prelude.Int.{ℤ, pos_part}
use redisdal.Text.{Bytes, text, same_text}
use redisdal.Errors.{
  runtime_error, bad_optional_access, unexpected_reply_type_error, redis_error, undefined_behaviour,
  Result, ok, err, ◌>>=◌, ◌>>◌,
}
use redisdal.Serialization.{DoubleChars, from_string, from_string_double, unsigned}
use redisdal.Reply.{
  string, array, integer, status, same_type, Double, CmdReply, get_type, get_string, get_array,
  get_signed_integer, is_nil, is_error, type_name,
}

-- `*optional`, which is undefined for an empty one.
abbrev pub deref {ℓ} : {A : Type ℓ} → Option A → Result A
deref none = err undefined_behaviour
deref (some a) = ok a

-- `optional.value()`
abbrev pub value {ℓ} : {A : Type ℓ} → Option A → Result A
value none = err bad_optional_access
value (some a) = ok a

-- The exception that the accessors raise at a reply of another type.
abbrev pub unexpected {ℓ} : {A : Type ℓ} → CmdReply → Bytes → Bytes → Result A
unexpected reply command expected =
    err (unexpected_reply_type_error command expected (type_name (get_type reply)))

abbrev text_or {ℓ} : {A : Type ℓ} → Option A → Result A → Result A
text_or none e = e
text_or (some a) e = ok a

unfoldable pub as_text : CmdReply → Bytes → Result Bytes
unfolding get_string get_type
as_text reply command = text_or (get_string reply) (unexpected reply command (text "text"))

unfoldable pub as_string : CmdReply → Bytes → Result Bytes
unfolding as_text
as_string reply command =
    if not (same_type (get_type reply) string)
    then unexpected reply command (text "string")
    else as_text reply command

unfoldable pub as_status : CmdReply → Bytes → Result Bytes
unfolding as_text
as_status reply command =
    if not (same_type (get_type reply) status)
    then unexpected reply command (text "status")
    else as_text reply command

unfoldable pub as_array : CmdReply → Bytes → Result (List CmdReply)
unfolding get_array get_type
as_array reply command =
    if not (same_type (get_type reply) array)
    then unexpected reply command (text "array")
    else deref (get_array reply)

unfoldable pub as_integer : CmdReply → Bytes → Result ℤ
unfolding get_signed_integer get_type
as_integer reply command =
    if not (same_type (get_type reply) integer)
    then unexpected reply command (text "integer")
    else deref (get_signed_integer reply)

unfoldable pub status_is_ok : CmdReply → Bytes → Result Bool
status_is_ok reply command = do s ← as_status reply command; ok (same_text s (text "OK"))

unfoldable pub optional_string : CmdReply → Bytes → Result (Option Bytes)
optional_string reply command =
    if is_nil reply then ok none else do s ← as_string reply command; ok (some s)

-- The loop of `strings`.
unfoldable pub each_string : List CmdReply → Bytes → Result (List Bytes)
each_string [] command = ok []
each_string (item ∷ items) command = do
  s ← as_string item command
  rest ← each_string items command
  ok (s ∷ rest)

unfoldable pub strings : CmdReply → Bytes → Result (List Bytes)
strings reply command =
    if is_nil reply then ok [] else do items ← as_array reply command; each_string items command

abbrev pub is_odd : List CmdReply → Bool
is_odd items = not (length items % 2 == 0)

abbrev pub odd_pairs : Bytes
odd_pairs = text ": expected an even number of field-value elements"

-- The pairs at `i` and `i + 1`, for `i` in steps of two; past the end is undefined.
unfoldable pub each_pair : List CmdReply → Bytes → Result (List (Bytes × Bytes))
each_pair [] command = ok []
each_pair (item ∷ []) command = err undefined_behaviour
each_pair (field ∷ item ∷ items) command = do
  f ← as_string field command
  v ← as_string item command
  rest ← each_pair items command
  ok ((f, v) ∷ rest)

-- `std::unordered_map` as its pairs in some order; `emplace` keeps a value that is there.
abbrev pub StringMap : Type 0
StringMap = List (Bytes × Bytes)

unfoldable pub find {ℓ} : {V : Type ℓ} → Bytes → List (Bytes × V) → Option V
find k [] = none
find k ((j, v) ∷ m) = if same_text j k then some v else find k m

abbrev is_some {ℓ} : {A : Type ℓ} → Option A → Bool
is_some none = false
is_some (some a) = true

unfoldable pub emplace {ℓ} : {V : Type ℓ} → Bytes → V → List (Bytes × V) → List (Bytes × V)
unfolding find
emplace k v m = if is_some (find k m) then m else m ++ ((k, v) ∷ [])

-- `emplace`, or `insert`, of each pair in turn.
unfoldable pub emplace_all {ℓ} :
    {V : Type ℓ} → List (Bytes × V) → List (Bytes × V) → List (Bytes × V)
unfolding emplace
emplace_all [] m = m
emplace_all ((k, v) ∷ pairs) m = emplace_all pairs (emplace k v m)

unfoldable pub hash : CmdReply → Bytes → Result StringMap
hash reply command = do
  items ← as_array reply command
  if is_odd items
      then err (runtime_error (command ++ odd_pairs))
      else do pairs ← each_pair items command; ok (emplace_all pairs [])

-- `catch (const std::exception &)` around the conversion; every error of the model but undefined
-- behaviour is such an exception.
abbrev pub score_or_rethrow : Bytes → Result Double → Result (Option Double)
score_or_rethrow command (ok d) = ok (some d)
score_or_rethrow command (err undefined_behaviour) = err undefined_behaviour
score_or_rethrow command (err e) =
    err (runtime_error (command ++ text ": failed to convert score to double"))

module _ (chars : DoubleChars) where
  abbrev pub score_of : Bytes → Option Bytes → Result (Option Double)
  score_of command none = ok none
  score_of command (some t) = score_or_rethrow command (from_string_double chars t)

  unfoldable pub optional_score : CmdReply → Bytes → Result (Option Double)
  optional_score reply command = do t ← optional_string reply command; score_of command t

  unfoldable pub each_score : List CmdReply → Bytes → Result (List (Bytes × Double))
  each_score [] command = ok []
  each_score (item ∷ []) command = err undefined_behaviour
  each_score (member ∷ score ∷ items) command = do
    m ← as_string member command
    maybe_score ← optional_score score command
    d ← value maybe_score
    rest ← each_score items command
    ok ((m, d) ∷ rest)

  unfoldable pub scores : CmdReply → Bytes → Result (List (Bytes × Double))
  scores reply command = if is_nil reply then ok [] else do
    items ← as_array reply command
    if is_odd items
        then err
            (runtime_error (command ++ text ": expected an even number of member-score elements"))
        else each_score items command

abbrev pub cursor_shape : Bytes
cursor_shape = text ": expected a cursor and result array"

-- `parts[0]` and `parts[1]` once the size is two.
abbrev pub cursor_of : List CmdReply → Bytes → Result ℕ
cursor_of (first ∷ second ∷ []) command = do
  results ← as_array second command
  s ← as_string first command
  n ← from_string (unsigned 64) s
  ok (pos_part n)
cursor_of _ command = err (runtime_error (command ++ cursor_shape))

unfoldable pub scan_cursor : CmdReply → Bytes → Result ℕ
scan_cursor reply command = do parts ← as_array reply command; cursor_of parts command

pub record StreamEntry {ℓ} (K V : Type ℓ) : Type ℓ where
  pub id : Bytes
  pub fields : List (K × V)

pub record StreamBatch {ℓ} (K V : Type ℓ) : Type ℓ where
  pub key : K
  pub entries : List (StreamEntry K V)

abbrev pub StringStreamEntry : Type 0
StringStreamEntry = StreamEntry Bytes Bytes

abbrev pub StringStreamBatch : Type 0
StringStreamBatch = StreamBatch Bytes Bytes

-- The fields of one entry: none for an entry that was deleted.
unfoldable pub entry_fields : CmdReply → Bytes → Result (List (Bytes × Bytes))
entry_fields part command = if is_nil part then ok [] else do
  fields ← as_array part command
  if is_odd fields then err (runtime_error (command ++ odd_pairs)) else each_pair fields command

abbrev pub entry_of : List CmdReply → Bytes → Result StringStreamEntry
entry_of (first ∷ second ∷ []) command = do
  id ← as_string first command
  fields ← entry_fields second command
  ok (record { id = id; fields = fields })
entry_of _ command = err (runtime_error (command ++ text ": expected a two-element stream entry"))

unfoldable pub each_entry : List CmdReply → Bytes → Result (List StringStreamEntry)
each_entry [] command = ok []
each_entry (entry ∷ entries) command = do
  parts ← as_array entry command
  parsed ← entry_of parts command
  rest ← each_entry entries command
  ok (parsed ∷ rest)

unfoldable pub stream_entries : CmdReply → Bytes → Result (List StringStreamEntry)
stream_entries reply command =
    if is_nil reply then ok [] else do entries ← as_array reply command; each_entry entries command

abbrev pub batch_of : List CmdReply → Bytes → Result StringStreamBatch
batch_of (first ∷ second ∷ []) command = do
  key ← as_string first command
  entries ← stream_entries second command
  ok (record { key = key; entries = entries })
batch_of _ command = err (runtime_error (command ++ text ": expected a two-element stream batch"))

unfoldable pub each_batch : List CmdReply → Bytes → Result (List StringStreamBatch)
each_batch [] command = ok []
each_batch (batch ∷ batches) command = do
  parts ← as_array batch command
  parsed ← batch_of parts command
  rest ← each_batch batches command
  ok (parsed ∷ rest)

unfoldable pub stream_batches : CmdReply → Bytes → Result (List StringStreamBatch)
stream_batches reply command =
    if is_nil reply then ok [] else do batches ← as_array reply command; each_batch batches command

unfoldable pub throw_if_error : CmdReply → Result (Unit {0})
unfolding is_error as_text
throw_if_error reply =
    if is_error reply
    then (do message ← as_text reply (text "Redis command"); err (redis_error message))
    else ok tt

unfoldable pub or_throw : CmdReply → Result CmdReply
unfolding throw_if_error
or_throw reply = do throw_if_error reply; ok reply
