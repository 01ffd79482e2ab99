-- ===== src/Template/Strings.antt =====
-- `string_redis_template` of include/redisdal/redis_template.hpp: keys and values are strings that
-- the default serializer passes on.
pub mod Values
pub mod Lists
pub mod Sets
pub mod Streams
pub mod Views
use redisdal.Prelude.{Option, none, some, List, [], ◌∷◌, ◌≡◌, refl, fun_ext, ◌∙◌}
use redisdal.Text.{Bytes}
use redisdal.Errors.{Result, ok, err}
use redisdal.Exec.{Exec, lift, continue, ◌>>=◌}
use redisdal.Reply.Decode.{StringStreamEntry, StringStreamBatch}
use redisdal.CmdOps.Options.{StringStreamReadRequest}
use redisdal.Serializer.{
  string_serializer, serialize_each, deserialize_each, deserialize_optional, serialize_pairs,
  deserialize_pairs,
}
use redisdal.Template.Entries.{
  serialize_requests, deserialize_entry, deserialize_entries, deserialize_batches,
}

module _ {S A : Type 0} where
  pub serialized_same :
      {B : Type 0} {r : Result A} {a : A} (f : A → Exec S B) → r ≡ ok a → (lift r >>= f) ≡ f a
  unfolding ◌>>=◌ lift
  serialized_same f e = rw (e) refl

  continue_same :
      (g : A → Result A)
      → ((a : A) → g a ≡ ok a)
      → (p : Result A × S) → continue p.0 (λ a. lift (g a)) p.1 ≡ p
  unfolding lift
  continue_same g h (ok a, s) = rw (h a) refl
  continue_same g h (err e, s) = refl

  pub deserialized_same :
      (g : A → Result A) (m : Exec S A) → ((a : A) → g a ≡ ok a) → (m >>= λ a. lift (g a)) ≡ m
  unfolding ◌>>=◌
  deserialized_same g m h = fun_ext (λ s. continue_same g h (m s))

pub serialize_each_same :
    (values : List Bytes) → serialize_each string_serializer values ≡ ok values
unfolding serialize_each string_serializer
serialize_each_same [] = refl
serialize_each_same (value ∷ values) = rw (serialize_each_same values) refl

pub deserialize_each_same : (raw : List Bytes) → deserialize_each string_serializer raw ≡ ok raw
unfolding deserialize_each string_serializer
deserialize_each_same [] = refl
deserialize_each_same (s ∷ raw) = rw (deserialize_each_same raw) refl

pub deserialize_optional_same :
    (val : Option Bytes) → deserialize_optional string_serializer val ≡ ok val
unfolding deserialize_optional string_serializer
deserialize_optional_same none = refl
deserialize_optional_same (some s) = refl

pub serialize_pairs_same :
    (pairs : List (Bytes × Bytes))
    → serialize_pairs string_serializer string_serializer pairs ≡ ok pairs
unfolding serialize_pairs string_serializer
serialize_pairs_same [] = refl
serialize_pairs_same ((k, v) ∷ pairs) = rw (serialize_pairs_same pairs) refl

deserialize_pairs_same :
    (raw : List (Bytes × Bytes))
    → deserialize_pairs string_serializer string_serializer raw ≡ ok raw
unfolding deserialize_pairs string_serializer
deserialize_pairs_same [] = refl
deserialize_pairs_same ((k, v) ∷ raw) = rw (deserialize_pairs_same raw) refl

pub serialize_requests_same :
    (streams : List StringStreamReadRequest)
    → serialize_requests string_serializer streams ≡ ok streams
unfolding serialize_requests string_serializer
serialize_requests_same [] = refl
serialize_requests_same (stream ∷ streams) = rw (serialize_requests_same streams) refl

deserialize_entry_same :
    (entry : StringStreamEntry)
    → deserialize_entry string_serializer string_serializer entry ≡ ok entry
unfolding deserialize_entry
deserialize_entry_same entry = rw (deserialize_pairs_same entry.fields) refl

pub deserialize_entries_same :
    (entries : List StringStreamEntry)
    → deserialize_entries string_serializer string_serializer entries ≡ ok entries
unfolding deserialize_entries
deserialize_entries_same [] = refl
deserialize_entries_same (entry ∷ entries) =
    rw (deserialize_entry_same entry, deserialize_entries_same entries) refl

pub deserialize_batches_same :
    (batches : List StringStreamBatch)
    → deserialize_batches string_serializer string_serializer batches ≡ ok batches
unfolding deserialize_batches string_serializer
deserialize_batches_same [] = refl
deserialize_batches_same (batch ∷ batches) =
    rw (deserialize_entries_same batch.entries, deserialize_batches_same batches) refl
