-- ===== src/Serializer.antt =====
-- The strategy `serializer<T>` of include/redisdal/serialization.hpp, which the typed facade takes
-- for its keys and for its values, and the default `string_serializer<T>`. The methods are const;
-- they may throw.
pub mod Lossless
pub mod Defined
use redisdal.Prelude.{Bool, Option, none, some, List, [], ◌∷◌}
use redisdal.Prelude.Int.{ℤ}
use redisdal.Text.{Bytes}
use redisdal.Text.Decimal.{to_string}
use redisdal.Errors.{Result, ok, err, ◌>>=◌}
use redisdal.Reply.{Double}
use redisdal.Serialization.{
  IntegralType, DoubleChars, from_string, to_string_bool, from_string_bool, to_string_double,
  from_string_double,
}

pub record Serializer (T : Type 0) : Type 0 where
  pub serialize : T → Result Bytes
  pub deserialize : Bytes → Result T

-- `string_serializer<T>` for integers, `bool`, `double` and `std::string`.
unfoldable pub integer_serializer : IntegralType → Serializer ℤ
integer_serializer t = record { serialize = λ v. ok (to_string v); deserialize = from_string t }

unfoldable pub bool_serializer : Serializer Bool
bool_serializer = record { serialize = λ t. ok (to_string_bool t); deserialize = from_string_bool }

unfoldable pub double_serializer : DoubleChars → Serializer Double
double_serializer chars = record {
  serialize = to_string_double chars;
  deserialize = from_string_double chars;
}

unfoldable pub string_serializer : Serializer Bytes
string_serializer = record { serialize = ok; deserialize = ok }

module _ {T : Type 0} (serializer : Serializer T) where
  open serializer use {serialize, deserialize}

  -- The loop that serializes the elements of a vector.
  unfoldable pub serialize_each : List T → Result (List Bytes)
  serialize_each [] = ok []
  serialize_each (value ∷ values) = do
    s ← serialize value
    rest ← serialize_each values
    ok (s ∷ rest)

  -- The loop that deserializes the elements of a vector.
  unfoldable pub deserialize_each : List Bytes → Result (List T)
  deserialize_each [] = ok []
  deserialize_each (s ∷ raw) = do
    value ← deserialize s
    rest ← deserialize_each raw
    ok (value ∷ rest)

  -- `if (val) { return deserialize(*val); } return std::nullopt;`
  unfoldable pub deserialize_optional : Option Bytes → Result (Option T)
  deserialize_optional none = ok none
  deserialize_optional (some s) = do value ← deserialize s; ok (some value)

  -- The loop over members with their scores, which are passed on.
  unfoldable pub deserialize_scored : List (Bytes × Double) → Result (List (T × Double))
  deserialize_scored [] = ok []
  deserialize_scored ((s, score) ∷ raw) = do
    member ← deserialize s
    rest ← deserialize_scored raw
    ok ((member, score) ∷ rest)

module _ {K V : Type 0} (key_serializer : Serializer K) (value_serializer : Serializer V) where
  -- The loop over pairs of a key, or a field, and a value.
  unfoldable pub serialize_pairs : List (K × V) → Result (List (Bytes × Bytes))
  serialize_pairs [] = ok []
  serialize_pairs ((key, value) ∷ pairs) = do
    k ← key_serializer.serialize key
    v ← value_serializer.serialize value
    rest ← serialize_pairs pairs
    ok ((k, v) ∷ rest)

  unfoldable pub deserialize_pairs : List (Bytes × Bytes) → Result (List (K × V))
  deserialize_pairs [] = ok []
  deserialize_pairs ((k, v) ∷ raw) = do
    key ← key_serializer.deserialize k
    value ← value_serializer.deserialize v
    rest ← deserialize_pairs raw
    ok ((key, value) ∷ rest)
