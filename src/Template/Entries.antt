-- ===== src/Template/Entries.antt =====
-- The private helpers of `default_stream_operations` of include/redisdal/redis_operations.hpp.
use redisdal.Prelude.{List, [], ◌∷◌}
use redisdal.Errors.{Result, ok, ◌>>=◌}
use redisdal.Reply.Decode.{StreamEntry, StreamBatch, StringStreamEntry, StringStreamBatch}
use redisdal.Serializer.{Serializer, deserialize_pairs}
use redisdal.CmdOps.Options.{StreamReadRequest, StringStreamReadRequest}

module _ {K : Type 0} (key_serializer : Serializer K) where
  unfoldable pub serialize_requests :
      List (StreamReadRequest K) → Result (List StringStreamReadRequest)
  serialize_requests [] = ok []
  serialize_requests (stream ∷ streams) = do
    k ← key_serializer.serialize stream.key
    rest ← serialize_requests streams
    ok (record { key = k; id = stream.id } ∷ rest)

module _ {K V : Type 0} (key_serializer : Serializer K) (value_serializer : Serializer V) where
  unfoldable pub deserialize_entry : StringStreamEntry → Result (StreamEntry K V)
  deserialize_entry raw_entry = do
    fields ← deserialize_pairs key_serializer value_serializer raw_entry.fields
    ok (record { id = raw_entry.id; fields = fields })

  unfoldable pub deserialize_entries : List StringStreamEntry → Result (List (StreamEntry K V))
  deserialize_entries [] = ok []
  deserialize_entries (raw_entry ∷ raw_entries) = do
    entry ← deserialize_entry raw_entry
    rest ← deserialize_entries raw_entries
    ok (entry ∷ rest)

  unfoldable pub deserialize_batches : List StringStreamBatch → Result (List (StreamBatch K V))
  deserialize_batches [] = ok []
  deserialize_batches (raw_batch ∷ raw_batches) = do
    key ← key_serializer.deserialize raw_batch.key
    entries ← deserialize_entries raw_batch.entries
    rest ← deserialize_batches raw_batches
    ok (record { key = key; entries = entries } ∷ rest)
