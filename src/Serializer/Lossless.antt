-- ===== src/Serializer/Lossless.antt =====
-- Values that a serializer loses nothing of, and the loops over them.
use redisdal.Prelude.{Bool, List, [], ◌∷◌, All, ◌≡◌, refl}
use redisdal.Prelude.Int.{ℤ}
use redisdal.Text.{Bytes}
use redisdal.Errors.{ok}
use redisdal.Serialization.{IntegralType}
use redisdal.Serialization.RoundTrip.{
  IsWidth, InRange, from_string-to_string, from_string_bool-to_string_bool,
}
use redisdal.Serializer.{
  Serializer, integer_serializer, bool_serializer, string_serializer, serialize_each,
  deserialize_each, serialize_pairs, deserialize_pairs,
}

-- `s` is what the value is serialized to, and what it is deserialized from.
pub record Keeps {T : Type 0} (serializer : Serializer T) (value : T) : Type 0 where
  pub bytes : Bytes
  pub serialized : serializer.serialize value ≡ ok bytes
  pub deserialized : serializer.deserialize bytes ≡ ok value

pub integer-Keeps :
    (t : IntegralType) (v : ℤ) → IsWidth t → InRange t v → Keeps (integer_serializer t) v
unfolding integer_serializer
integer-Keeps t v w r = record {
  bytes = _;
  serialized = refl;
  deserialized = from_string-to_string t v w r;
}

pub bool-Keeps : (t : Bool) → Keeps bool_serializer t
unfolding bool_serializer
bool-Keeps t = record {
  bytes = _;
  serialized = refl;
  deserialized = from_string_bool-to_string_bool t;
}

pub string-Keeps : (s : Bytes) → Keeps string_serializer s
unfolding string_serializer
string-Keeps s = record { bytes = s; serialized = refl; deserialized = refl }

-- A vector that is serialized, and deserialized again.
pub record KeepsEach {T : Type 0} (serializer : Serializer T) (values : List T) : Type 0 where
  pub raw : List Bytes
  pub serialized : serialize_each serializer values ≡ ok raw
  pub deserialized : deserialize_each serializer raw ≡ ok values

module _ {T : Type 0} (serializer : Serializer T) where
  pub each-Keeps : (values : List T) → All (Keeps serializer) values → KeepsEach serializer values
  unfolding serialize_each deserialize_each
  each-Keeps [] h = record { raw = []; serialized = refl; deserialized = refl }
  each-Keeps (value ∷ values) (h, hs) =
      let rest = each-Keeps values hs in
      record {
        raw = h.bytes ∷ rest.raw;
        serialized = rw (h.serialized, rest.serialized);
        deserialized = rw (h.deserialized, rest.deserialized);
      }

-- Pairs that are serialized, and deserialized again.
pub record KeepsPairs {K V : Type 0} (key_serializer : Serializer K)
    (value_serializer : Serializer V) (pairs : List (K × V)) : Type 0 where
  pub raw : List (Bytes × Bytes)
  pub serialized : serialize_pairs key_serializer value_serializer pairs ≡ ok raw
  pub deserialized : deserialize_pairs key_serializer value_serializer raw ≡ ok pairs

module _ {K V : Type 0} (key_serializer : Serializer K) (value_serializer : Serializer V) where
  abbrev pub KeepsPair : K × V → Type 0
  KeepsPair (key, value) = Keeps key_serializer key × Keeps value_serializer value

  pub pairs-Keeps :
      (pairs : List (K × V))
      → All KeepsPair pairs
      → KeepsPairs key_serializer value_serializer pairs
  unfolding serialize_pairs deserialize_pairs
  pairs-Keeps [] h = record { raw = []; serialized = refl; deserialized = refl }
  pairs-Keeps ((key, value) ∷ pairs) ((k, v), hs) =
      let rest = pairs-Keeps pairs hs in
      record {
        raw = (k.bytes, v.bytes) ∷ rest.raw;
        serialized = rw (k.serialized, v.serialized, rest.serialized);
        deserialized = rw (k.deserialized, v.deserialized, rest.deserialized);
      }
