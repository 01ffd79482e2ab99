-- ===== src/Template/Safe/Sets.antt =====
-- Undefined behaviour in the default view in Template/Views/Sets.
use redisdal.Serialization.{DoubleChars}
use redisdal.Exec.{Exec, Executor}
use redisdal.Reply.Ensures.{Any}
use redisdal.Serializer.{Serializer}
use redisdal.Serializer.Defined.{
  Proper, deserialize_each-Defined, deserialize_optional-Defined, serialize_each-Defined,
}
use redisdal.Client.Methods as Client
use redisdal.Client.Safe.{Safe, AnswersWellFormed, Safe-bind, Safe-lift}
use redisdal.Client.Safe.Sets as Sends
use redisdal.Template.{serialize_key, serialize_value}
use redisdal.Template.Views.Sets
use redisdal.Template.Methods
use redisdal.Template.Methods.{TypedSetMethod}
use redisdal.Template.Contract.{client_template}

module _ {S K V : Type 0} (connection : Executor S) (chars : DoubleChars)
    (wf : AnswersWellFormed connection) (key_serializer : Serializer K)
    (value_serializer : Serializer V) (proper_key : Proper key_serializer)
    (proper_value : Proper value_serializer) where
  pub TypedSetMethod-Safe :
      {A : Type 0} {m : Exec S A}
      → TypedSetMethod (client_template connection chars key_serializer value_serializer) A m
      → Safe connection Any m
  unfolding serialize_key serialize_value Sets.sadd Sets.srem Sets.spop Sets.smembers Sets.scard
      Sets.sismember Sets.sinter
  TypedSetMethod-Safe (Methods.sadd key members) =
      Safe-bind _ _ _ (Safe-lift _ _ (serialize_each-Defined value_serializer proper_value members))
        (λ serialized_members _.
          Safe-bind _ _ _ (Safe-lift _ _ (proper_key.serialized key))
            (λ k _. Sends.SetMethod-Safe connection wf (Client.sadd k serialized_members)))
  TypedSetMethod-Safe (Methods.srem key members) =
      Safe-bind _ _ _ (Safe-lift _ _ (serialize_each-Defined value_serializer proper_value members))
        (λ serialized_members _.
          Safe-bind _ _ _ (Safe-lift _ _ (proper_key.serialized key))
            (λ k _. Sends.SetMethod-Safe connection wf (Client.srem k serialized_members)))
  TypedSetMethod-Safe (Methods.spop key) =
      Safe-bind _ _ _ (Safe-lift _ _ (proper_key.serialized key)) (λ k _.
        Safe-bind _ _ _ (Sends.SetMethod-Safe connection wf (Client.spop k))
          (λ val _. Safe-lift _ _ (deserialize_optional-Defined value_serializer proper_value val)))
  TypedSetMethod-Safe (Methods.smembers key) =
      Safe-bind _ _ _ (Safe-lift _ _ (proper_key.serialized key)) (λ k _.
        Safe-bind _ _ _ (Sends.SetMethod-Safe connection wf (Client.smembers k))
          (λ raw _. Safe-lift _ _ (deserialize_each-Defined value_serializer proper_value raw)))
  TypedSetMethod-Safe (Methods.scard key) =
      Safe-bind _ _ _ (Safe-lift _ _ (proper_key.serialized key))
        (λ k _. Sends.SetMethod-Safe connection wf (Client.scard k))
  TypedSetMethod-Safe (Methods.sismember key member) =
      Safe-bind _ _ _ (Safe-lift _ _ (proper_key.serialized key)) (λ k _.
        Safe-bind _ _ _ (Safe-lift _ _ (proper_value.serialized member))
          (λ v _. Sends.SetMethod-Safe connection wf (Client.sismember k v)))
  TypedSetMethod-Safe (Methods.sinter keys) =
      Safe-bind _ _ _ (Safe-lift _ _ (serialize_each-Defined key_serializer proper_key keys))
        (λ serialized_keys _.
          Safe-bind _ _ _ (Sends.SetMethod-Safe connection wf (Client.sinter serialized_keys))
            (λ raw _. Safe-lift _ _ (deserialize_each-Defined value_serializer proper_value raw)))
