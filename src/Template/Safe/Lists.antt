-- ===== src/Template/Safe/Lists.antt =====
-- Undefined behaviour in the default view in Template/Views/Lists.
use redisdal.Serialization.{DoubleChars}
use redisdal.Exec.{Exec, Executor}
use redisdal.Reply.Ensures.{Any}
use redisdal.Serializer.{Serializer}
use redisdal.Serializer.Defined.{
  Proper, deserialize_each-Defined, deserialize_optional-Defined, serialize_each-Defined,
}
use redisdal.Client.Methods as Client
use redisdal.Client.Safe.{Safe, AnswersWellFormed, Safe-bind, Safe-lift}
use redisdal.Client.Safe.Lists as Sends
use redisdal.Template.{serialize_key, serialize_value}
use redisdal.Template.Views.Lists
use redisdal.Template.Methods
use redisdal.Template.Methods.{TypedListMethod}
use redisdal.Template.Contract.{client_template}

module _ {S K V : Type 0} (connection : Executor S) (chars : DoubleChars)
    (wf : AnswersWellFormed connection) (key_serializer : Serializer K)
    (value_serializer : Serializer V) (proper_key : Proper key_serializer)
    (proper_value : Proper value_serializer) where
  pub TypedListMethod-Safe :
      {A : Type 0} {m : Exec S A}
      → TypedListMethod (client_template connection chars key_serializer value_serializer) A m
      → Safe connection Any m
  unfolding serialize_key serialize_value Lists.lpush_values Lists.lpush Lists.rpush_values
      Lists.rpush Lists.lpop Lists.lpop_count Lists.rpop Lists.rpop_count Lists.lrange Lists.llen
      Lists.lindex
  TypedListMethod-Safe (Methods.lpush_values key values) =
      Safe-bind _ _ _ (Safe-lift _ _ (serialize_each-Defined value_serializer proper_value values))
        (λ serialized_values _.
          Safe-bind _ _ _ (Safe-lift _ _ (proper_key.serialized key))
            (λ k _. Sends.ListMethod-Safe connection wf (Client.lpush_values k serialized_values)))
  TypedListMethod-Safe (Methods.lpush key value) =
      Safe-bind _ _ _ (Safe-lift _ _ (proper_key.serialized key)) (λ k _.
        Safe-bind _ _ _ (Safe-lift _ _ (proper_value.serialized value))
          (λ v _. Sends.ListMethod-Safe connection wf (Client.lpush k v)))
  TypedListMethod-Safe (Methods.rpush_values key values) =
      Safe-bind _ _ _ (Safe-lift _ _ (serialize_each-Defined value_serializer proper_value values))
        (λ serialized_values _.
          Safe-bind _ _ _ (Safe-lift _ _ (proper_key.serialized key))
            (λ k _. Sends.ListMethod-Safe connection wf (Client.rpush_values k serialized_values)))
  TypedListMethod-Safe (Methods.rpush key value) =
      Safe-bind _ _ _ (Safe-lift _ _ (proper_key.serialized key)) (λ k _.
        Safe-bind _ _ _ (Safe-lift _ _ (proper_value.serialized value))
          (λ v _. Sends.ListMethod-Safe connection wf (Client.rpush k v)))
  TypedListMethod-Safe (Methods.lpop key) =
      Safe-bind _ _ _ (Safe-lift _ _ (proper_key.serialized key)) (λ k _.
        Safe-bind _ _ _ (Sends.ListMethod-Safe connection wf (Client.lpop k))
          (λ val _. Safe-lift _ _ (deserialize_optional-Defined value_serializer proper_value val)))
  TypedListMethod-Safe (Methods.lpop_count key count) =
      Safe-bind _ _ _ (Safe-lift _ _ (proper_key.serialized key)) (λ k _.
        Safe-bind _ _ _ (Sends.ListMethod-Safe connection wf (Client.lpop_count k count))
          (λ raw _. Safe-lift _ _ (deserialize_each-Defined value_serializer proper_value raw)))
  TypedListMethod-Safe (Methods.rpop key) =
      Safe-bind _ _ _ (Safe-lift _ _ (proper_key.serialized key)) (λ k _.
        Safe-bind _ _ _ (Sends.ListMethod-Safe connection wf (Client.rpop k))
          (λ val _. Safe-lift _ _ (deserialize_optional-Defined value_serializer proper_value val)))
  TypedListMethod-Safe (Methods.rpop_count key count) =
      Safe-bind _ _ _ (Safe-lift _ _ (proper_key.serialized key)) (λ k _.
        Safe-bind _ _ _ (Sends.ListMethod-Safe connection wf (Client.rpop_count k count))
          (λ raw _. Safe-lift _ _ (deserialize_each-Defined value_serializer proper_value raw)))
  TypedListMethod-Safe (Methods.lrange key start stop) =
      Safe-bind _ _ _ (Safe-lift _ _ (proper_key.serialized key)) (λ k _.
        Safe-bind _ _ _ (Sends.ListMethod-Safe connection wf (Client.lrange k start stop))
          (λ raw _. Safe-lift _ _ (deserialize_each-Defined value_serializer proper_value raw)))
  TypedListMethod-Safe (Methods.llen key) =
      Safe-bind _ _ _ (Safe-lift _ _ (proper_key.serialized key))
        (λ k _. Sends.ListMethod-Safe connection wf (Client.llen k))
  TypedListMethod-Safe (Methods.lindex key index) =
      Safe-bind _ _ _ (Safe-lift _ _ (proper_key.serialized key)) (λ k _.
        Safe-bind _ _ _ (Sends.ListMethod-Safe connection wf (Client.lindex k index))
          (λ val _. Safe-lift _ _ (deserialize_optional-Defined value_serializer proper_value val)))
