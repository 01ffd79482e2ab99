-- ===== src/Serializer/Defined.antt =====
-- Serializers that do nothing undefined, and the loops over them.
use redisdal.Prelude.{◌||◌, map, Option, none, some, List, [], ◌∷◌}
use redisdal.Text.{Bytes, text, same_text}
use redisdal.Reply.{Double}
use redisdal.Reply.Decode.{StringMap, StringStreamEntry, StringStreamBatch}
use redisdal.Reply.Ensures.{Ensures, ensures_ok, ensures_err, Any, Ensures-bind, Ensures-if}
use redisdal.Reply.Defined.{from_string-Defined}
use redisdal.Serialization.{IntegralType, tolower, from_string_bool}
use redisdal.CmdOps.Options.{StreamReadRequest}
use redisdal.Serializer.{
  Serializer, integer_serializer, bool_serializer, string_serializer, serialize_each,
  deserialize_each, deserialize_optional, deserialize_scored, serialize_pairs, deserialize_pairs,
}
use redisdal.Containers.{Eq}
use redisdal.Collect.{
  serialize_map, collect_pairs, serialize_members, serialize_fields, collect_keys,
}
use redisdal.Template.Entries.{
  serialize_requests, deserialize_entry, deserialize_entries, deserialize_batches,
}

-- Whatever is converted, the result is a value or an exception.
pub record Proper {T : Type 0} (serializer : Serializer T) : Type 0 where
  pub serialized : (value : T) → Ensures Any (serializer.serialize value)
  pub deserialized : (s : Bytes) → Ensures Any (serializer.deserialize s)

pub string-Proper : Proper string_serializer
unfolding string_serializer
string-Proper = record {
  serialized = λ value. ensures_ok value tt;
  deserialized = λ s. ensures_ok s tt;
}

pub integer-Proper : (t : IntegralType) → Proper (integer_serializer t)
unfolding integer_serializer
integer-Proper t = record {
  serialized = λ value. ensures_ok _ tt;
  deserialized = from_string-Defined t;
}

from_string_bool-Defined : (s : Bytes) → Ensures Any (from_string_bool s)
unfolding from_string_bool
from_string_bool-Defined s =
    let lower_s = map tolower s in
    Ensures-if (same_text lower_s (text "true") || same_text lower_s (text "1")) _ _
      (λ _. ensures_ok _ tt)
      (λ _.
        Ensures-if (same_text lower_s (text "false") || same_text lower_s (text "0")) _ _
          (λ _. ensures_ok _ tt) (λ _. ensures_err _ tt))

pub bool-Proper : Proper bool_serializer
unfolding bool_serializer
bool-Proper = record {
  serialized = λ value. ensures_ok _ tt;
  deserialized = from_string_bool-Defined;
}

module _ {T : Type 0} (serializer : Serializer T) (proper : Proper serializer) where
  open proper use {serialized, deserialized}

  pub serialize_each-Defined : (values : List T) → Ensures Any (serialize_each serializer values)
  unfolding serialize_each
  serialize_each-Defined [] = ensures_ok _ tt
  serialize_each-Defined (value ∷ values) =
      Ensures-bind _ (serialized value)
        (λ s _. Ensures-bind _ (serialize_each-Defined values) (λ rest _. ensures_ok _ tt))

  pub deserialize_each-Defined : (raw : List Bytes) → Ensures Any (deserialize_each serializer raw)
  unfolding deserialize_each
  deserialize_each-Defined [] = ensures_ok _ tt
  deserialize_each-Defined (s ∷ raw) =
      Ensures-bind _ (deserialized s)
        (λ value _. Ensures-bind _ (deserialize_each-Defined raw) (λ rest _. ensures_ok _ tt))

  pub deserialize_optional-Defined :
      (val : Option Bytes) → Ensures Any (deserialize_optional serializer val)
  unfolding deserialize_optional
  deserialize_optional-Defined none = ensures_ok _ tt
  deserialize_optional-Defined (some s) =
      Ensures-bind _ (deserialized s) (λ value _. ensures_ok _ tt)

  pub deserialize_scored-Defined :
      (raw : List (Bytes × Double)) → Ensures Any (deserialize_scored serializer raw)
  unfolding deserialize_scored
  deserialize_scored-Defined [] = ensures_ok _ tt
  deserialize_scored-Defined ((s, score) ∷ raw) =
      Ensures-bind _ (deserialized s)
        (λ member _. Ensures-bind _ (deserialize_scored-Defined raw) (λ rest _. ensures_ok _ tt))

  pub serialize_members-Defined :
      (members : List (T × Double)) (m : List (Bytes × Double))
      → Ensures Any (serialize_members serializer members m)
  unfolding serialize_members
  serialize_members-Defined [] m = ensures_ok _ tt
  serialize_members-Defined ((member, score) ∷ members) m =
      Ensures-bind _ (serialized member) (λ s _. serialize_members-Defined members _)

  pub serialize_fields-Defined :
      {V : Type 0} (fields : List (T × V)) (m : List (Bytes × Option Bytes))
      → Ensures Any (serialize_fields serializer fields m)
  unfolding serialize_fields
  serialize_fields-Defined [] m = ensures_ok _ tt
  serialize_fields-Defined ((field, value) ∷ fields) m =
      Ensures-bind _ (serialized field) (λ f _. serialize_fields-Defined fields _)

  pub serialize_requests-Defined :
      (streams : List (StreamReadRequest T)) → Ensures Any (serialize_requests serializer streams)
  unfolding serialize_requests
  serialize_requests-Defined [] = ensures_ok _ tt
  serialize_requests-Defined (stream ∷ streams) =
      Ensures-bind _ (serialized stream.key)
        (λ k _. Ensures-bind _ (serialize_requests-Defined streams) (λ rest _. ensures_ok _ tt))

  module _ ⦃eq : Eq T⦄ where
    pub collect_keys-Defined :
        (s_keys : List Bytes) (keys : List T) → Ensures Any (collect_keys serializer s_keys keys)
    unfolding collect_keys
    collect_keys-Defined [] keys = ensures_ok _ tt
    collect_keys-Defined (s_key ∷ s_keys) keys =
        Ensures-bind _ (deserialized s_key) (λ key _. collect_keys-Defined s_keys _)

module _ {K V : Type 0} (key_serializer : Serializer K) (value_serializer : Serializer V)
    (proper_key : Proper key_serializer) (proper_value : Proper value_serializer) where
  pub serialize_pairs-Defined :
      (pairs : List (K × V)) → Ensures Any (serialize_pairs key_serializer value_serializer pairs)
  unfolding serialize_pairs
  serialize_pairs-Defined [] = ensures_ok _ tt
  serialize_pairs-Defined ((key, value) ∷ pairs) =
      Ensures-bind _ (proper_key.serialized key) (λ k _.
        Ensures-bind _ (proper_value.serialized value)
          (λ v _. Ensures-bind _ (serialize_pairs-Defined pairs) (λ rest _. ensures_ok _ tt)))

  pub deserialize_pairs-Defined :
      (raw : List (Bytes × Bytes))
      → Ensures Any (deserialize_pairs key_serializer value_serializer raw)
  unfolding deserialize_pairs
  deserialize_pairs-Defined [] = ensures_ok _ tt
  deserialize_pairs-Defined ((k, v) ∷ raw) = Ensures-bind _ (proper_key.deserialized k) (λ key _.
      Ensures-bind _ (proper_value.deserialized v)
        (λ value _. Ensures-bind _ (deserialize_pairs-Defined raw) (λ rest _. ensures_ok _ tt)))

  pub serialize_map-Defined :
      (pairs : List (K × V)) (m : StringMap)
      → Ensures Any (serialize_map key_serializer value_serializer pairs m)
  unfolding serialize_map
  serialize_map-Defined [] m = ensures_ok _ tt
  serialize_map-Defined ((key, value) ∷ pairs) m =
      Ensures-bind _ (proper_key.serialized key) (λ k _.
        Ensures-bind _ (proper_value.serialized value) (λ v _. serialize_map-Defined pairs _))

  pub deserialize_entry-Defined :
      (entry : StringStreamEntry)
      → Ensures Any (deserialize_entry key_serializer value_serializer entry)
  unfolding deserialize_entry
  deserialize_entry-Defined entry =
      Ensures-bind _ (deserialize_pairs-Defined entry.fields) (λ fields _. ensures_ok _ tt)

  pub deserialize_entries-Defined :
      (entries : List StringStreamEntry)
      → Ensures Any (deserialize_entries key_serializer value_serializer entries)
  unfolding deserialize_entries
  deserialize_entries-Defined [] = ensures_ok _ tt
  deserialize_entries-Defined (entry ∷ entries) =
      Ensures-bind _ (deserialize_entry-Defined entry) (λ first _.
        Ensures-bind _ (deserialize_entries-Defined entries) (λ rest _. ensures_ok _ tt))

  pub deserialize_batches-Defined :
      (batches : List StringStreamBatch)
      → Ensures Any (deserialize_batches key_serializer value_serializer batches)
  unfolding deserialize_batches
  deserialize_batches-Defined [] = ensures_ok _ tt
  deserialize_batches-Defined (batch ∷ batches) =
      Ensures-bind _ (proper_key.deserialized batch.key) (λ key _.
        Ensures-bind _ (deserialize_entries-Defined batch.entries) (λ entries _.
          Ensures-bind _ (deserialize_batches-Defined batches) (λ rest _. ensures_ok _ tt)))

  module _ ⦃eq : Eq K⦄ where
    pub collect_pairs-Defined :
        (raw : StringMap) (m : List (K × V))
        → Ensures Any (collect_pairs key_serializer value_serializer raw m)
    unfolding collect_pairs
    collect_pairs-Defined [] m = ensures_ok _ tt
    collect_pairs-Defined ((k, v) ∷ raw) m = Ensures-bind _ (proper_key.deserialized k) (λ key _.
        Ensures-bind _ (proper_value.deserialized v) (λ value _. collect_pairs-Defined raw _))
