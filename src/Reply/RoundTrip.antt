-- ===== src/Reply/RoundTrip.antt =====
-- The decoders of src/cmd_reply.cpp on the replies that a Redis server sends for a list, a hash,
-- a stream and a scan.
use redisdal.Prelude.{
  ℕ, ◌*◌, ◌^◌, ◌<◌, ◌%◌, Bool, false, not, Option, none, some, List, [], ◌∷◌, ◌++◌, map, length,
  ◌≡◌, refl, sym, ap, ◌∙◌, ◌⊎◌, inl, inr, Bool-cases, arith, ◌==◌, if◌then◌else◌,
}
use redisdal.Text.{Bytes, same_text, same_text_iff}
use redisdal.Text.Decimal.{decimal, to_string}
use redisdal.Prelude.Int.{pos}
use redisdal.Serialization.{unsigned, from_string}
use redisdal.Serialization.RoundTrip.{from_string-to_string}
use redisdal.Errors.{ok}
use redisdal.Reply.{
  CmdReply, make_string, make_array, get_type, get_string, get_array, is_nil, to_list, of_list,
}
use redisdal.Reply.Decode.{
  as_string, as_array, each_string, strings, each_pair, hash, StringMap, emplace_all,
  StringStreamEntry, entry_fields, each_entry, stream_entries, is_odd, find, emplace,
  StringStreamBatch, each_batch, stream_batches, scan_cursor,
}
use redisdal.CmdOps.Vectors.{flatten_pairs}

abbrev pub string_replies : List Bytes → List CmdReply
string_replies = map make_string

as_string_lem : (s command : Bytes) → as_string (make_string s) command ≡ ok s
unfolding as_string make_string get_type get_string
as_string_lem s command = refl

to_list-of_list : (items : List CmdReply) → to_list (of_list items) ≡ items
unfolding to_list of_list
to_list-of_list [] = refl
to_list-of_list (r ∷ rs) = ap (λ (l : List CmdReply). r ∷ l) (to_list-of_list rs)

as_array_lem :
    (items : List CmdReply) (command : Bytes) → as_array (make_array items) command ≡ ok items
unfolding as_array make_array get_type get_array
as_array_lem items command = ap ok (to_list-of_list items)

array_not_nil : (items : List CmdReply) → is_nil (make_array items) ≡ false
unfolding is_nil make_array get_type
array_not_nil items = refl

each_string_lem :
    (values : List Bytes) (command : Bytes)
    → each_string (string_replies values) command ≡ ok values
unfolding each_string
each_string_lem [] command = refl
each_string_lem (v ∷ vs) command = rw (as_string_lem v command, each_string_lem vs command)

-- An array of strings is decoded to its strings, in their order.
pub strings_lem :
    (values : List Bytes) (command : Bytes)
    → strings (make_array (string_replies values)) command ≡ ok values
unfolding strings
strings_lem values command =
    rw (array_not_nil (string_replies values), as_array_lem (string_replies values) command)
      (each_string_lem values command)

-- The reply for a hash: each field and its value in turn.
abbrev pub pairs_reply : List (Bytes × Bytes) → CmdReply
pairs_reply pairs = make_array (string_replies (flatten_pairs pairs))

each_pair_lem :
    (pairs : List (Bytes × Bytes)) (command : Bytes)
    → each_pair (string_replies (flatten_pairs pairs)) command ≡ ok pairs
unfolding each_pair flatten_pairs
each_pair_lem [] command = refl
each_pair_lem ((f, v) ∷ pairs) command =
    rw (as_string_lem f command, as_string_lem v command, each_pair_lem pairs command)

double_pairs :
    (pairs : List (Bytes × Bytes))
    → length (string_replies (flatten_pairs pairs)) ≡ 2 * length pairs
unfolding flatten_pairs
double_pairs [] = refl
double_pairs (pair ∷ pairs) = let e = double_pairs pairs in omega arith

pairs_even : (pairs : List (Bytes × Bytes)) → is_odd (string_replies (flatten_pairs pairs)) ≡ false
pairs_even pairs = rw (double_pairs pairs) (even (length pairs))
  where
    even : (n : ℕ) → not (2 * n % 2 == 0) ≡ false
    even n = let e : 2 * n % 2 ≡ 0 = omega arith in rw (e) refl

-- The value that a key has after the pairs are put into a map: that of the map, or that of the
-- first pair with the key.
abbrev first_of : Option Bytes → Option Bytes → Option Bytes
first_of none second = second
first_of (some v) second = some v

first_of-none : (a : Option Bytes) → first_of a none ≡ a
first_of-none none = refl
first_of-none (some v) = refl

first_of_assoc : (a b c : Option Bytes) → first_of (first_of a b) c ≡ first_of a (first_of b c)
first_of_assoc none b c = refl
first_of_assoc (some v) b c = refl

abbrev given : Bool → Bytes → Option Bytes
given test v = if test then some v else none

find-++ :
    (k j v : Bytes) (m : StringMap)
    → find k (m ++ ((j, v) ∷ [])) ≡ first_of (find k m) (given (same_text j k) v)
unfolding find
find-++ k j v [] = refl
find-++ k j v ((i, w) ∷ m) = elim (Bool-cases (same_text i k)) [
  | inl same ↦ rw (same)
  | inr other ↦ rw (other) (find-++ k j v m)
]

-- A key that is there already keeps its value.
first_of_present :
    (k j v w : Bytes) (m : StringMap)
    → find j m ≡ some w
    → first_of (find k m) (given (same_text j k) v) ≡ find k m
first_of_present k j v w m h = elim (Bool-cases (same_text j k)) [
  | inl same ↦ let found : find k m ≡ some w = rw (sym ((same_text_iff j k).0 same)) h in rw (found)
  | inr other ↦ rw (other) (first_of-none (find k m))
]

find-emplace :
    (k j v : Bytes) (m : StringMap)
    → find k (emplace j v m) ≡ first_of (find k m) (given (same_text j k) v)
unfolding emplace
find-emplace k j v m = elim (Option-cases (find j m)) [
  | inl missing ↦ rw (missing) (find-++ k j v m)
  | inr (w, found) ↦ rw (found) (sym (first_of_present k j v w m found))
]
  where
    Option-cases : (o : Option Bytes) → (o ≡ none) ⊎ ((w : Bytes) × (o ≡ some w))
    Option-cases none = inl refl
    Option-cases (some w) = inr (w, refl)

given-find :
    (k j v : Bytes) (pairs : StringMap)
    → first_of (given (same_text j k) v) (find k pairs) ≡ find k ((j, v) ∷ pairs)
unfolding find
given-find k j v pairs = elim (Bool-cases (same_text j k)) [
  | inl same ↦ rw (same)
  | inr other ↦ rw (other)
]

find-emplace_all :
    (k : Bytes) (pairs m : StringMap)
    → find k (emplace_all pairs m) ≡ first_of (find k m) (find k pairs)
unfolding emplace_all
find-emplace_all k [] m =
    sym (first_of-none (find k m)) ∙ ap (first_of (find k m)) (unfold find in refl)
find-emplace_all k ((j, v) ∷ pairs) m =
    find-emplace_all k pairs (emplace j v m)
    ∙ ap (λ (o : Option Bytes). first_of o (find k pairs)) (find-emplace k j v m)
    ∙ first_of_assoc (find k m) (given (same_text j k) v) (find k pairs)
    ∙ ap (first_of (find k m)) (given-find k j v pairs)

-- A flat array of fields and values is decoded to a map in which each field has the value of its
-- first occurrence, and no other field is present.
pub hash_lem :
    (pairs : List (Bytes × Bytes)) (command : Bytes)
    → (m : StringMap) × (hash (pairs_reply pairs) command ≡ ok m)
      × ((k : Bytes) → find k m ≡ find k pairs)
unfolding hash find
hash_lem pairs command = (
  emplace_all pairs [],
  rw (
    as_array_lem (string_replies (flatten_pairs pairs)) command,
    pairs_even pairs,
    each_pair_lem pairs command,
  ),
  λ k. find-emplace_all k pairs [],
)

-- The reply for one entry of a stream: its id, and its fields as one flat array.
abbrev pub entry_reply : StringStreamEntry → CmdReply
entry_reply entry = make_array (make_string entry.id ∷ pairs_reply entry.fields ∷ [])

entry_fields_lem :
    (pairs : List (Bytes × Bytes)) (command : Bytes)
    → entry_fields (pairs_reply pairs) command ≡ ok pairs
unfolding entry_fields
entry_fields_lem pairs command =
    rw
      (
        array_not_nil (string_replies (flatten_pairs pairs)),
        as_array_lem (string_replies (flatten_pairs pairs)) command,
        pairs_even pairs,
      )
      (each_pair_lem pairs command)

each_entry_lem :
    (entries : List StringStreamEntry) (command : Bytes)
    → each_entry (map entry_reply entries) command ≡ ok entries
unfolding each_entry
each_entry_lem [] command = refl
each_entry_lem (entry ∷ entries) command = rw (
  as_array_lem (make_string entry.id ∷ pairs_reply entry.fields ∷ []) command,
  as_string_lem entry.id command,
  entry_fields_lem entry.fields command,
  each_entry_lem entries command,
)

pub stream_entries_lem :
    (entries : List StringStreamEntry) (command : Bytes)
    → stream_entries (make_array (map entry_reply entries)) command ≡ ok entries
unfolding stream_entries
stream_entries_lem entries command =
    rw (array_not_nil (map entry_reply entries), as_array_lem (map entry_reply entries) command)
      (each_entry_lem entries command)

-- The reply for one stream of a read: its key, and its entries.
abbrev pub batch_reply : StringStreamBatch → CmdReply
batch_reply batch =
    make_array (make_string batch.key ∷ make_array (map entry_reply batch.entries) ∷ [])

each_batch_lem :
    (batches : List StringStreamBatch) (command : Bytes)
    → each_batch (map batch_reply batches) command ≡ ok batches
unfolding each_batch
each_batch_lem [] command = refl
each_batch_lem (batch ∷ batches) command = rw (
  as_array_lem (make_string batch.key ∷ make_array (map entry_reply batch.entries) ∷ []) command,
  as_string_lem batch.key command,
  stream_entries_lem batch.entries command,
  each_batch_lem batches command,
)

-- The reply of a stream read is decoded to its batches, with the order of the streams, of the
-- entries and of the fields, and repeated fields, kept.
pub stream_batches_lem :
    (batches : List StringStreamBatch) (command : Bytes)
    → stream_batches (make_array (map batch_reply batches)) command ≡ ok batches
unfolding stream_batches
stream_batches_lem batches command =
    rw (array_not_nil (map batch_reply batches), as_array_lem (map batch_reply batches) command)
      (each_batch_lem batches command)

decimal_read : (n : ℕ) → n < 2 ^ 64 → from_string (unsigned 64) (decimal n) ≡ ok (pos n)
unfolding to_string
decimal_read n h = from_string-to_string (unsigned 64) (pos n) (omega arith) (omega arith)

-- A cursor of 64 bits, printed in decimal before the array of results, is read back.
pub scan_cursor_lem :
    (cursor : ℕ) (results : List CmdReply) (command : Bytes)
    → cursor < 2 ^ 64
    → scan_cursor (make_array (make_string (decimal cursor) ∷ make_array results ∷ [])) command
      ≡ ok cursor
unfolding scan_cursor
scan_cursor_lem cursor results command h =
    rw
      (
        as_array_lem (make_string (decimal cursor) ∷ make_array results ∷ []) command,
        as_array_lem results command,
        as_string_lem (decimal cursor) command,
      )
      (rw (decimal_read cursor h))
