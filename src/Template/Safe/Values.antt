-- ===== src/Template/Safe/Values.antt =====
-- Undefined behaviour in the default view in Template/Views/Values.
use redisdal.Serialization.{DoubleChars}
use redisdal.Exec.{Exec, Executor}
use redisdal.Reply.Ensures.{Any}
use redisdal.Serializer.{Serializer}
use redisdal.Serializer.Defined.{Proper, deserialize_optional-Defined}
use redisdal.Client.Methods as Client
use redisdal.Client.Safe.{Safe, AnswersWellFormed, Safe-bind, Safe-lift}
use redisdal.Client.Safe.Strings as Sends
use redisdal.Template.{serialize_key, serialize_value}
use redisdal.Template.Views.Values
use redisdal.Template.Methods
use redisdal.Template.Methods.{ValueMethod}
use redisdal.Template.Contract.{client_template}

module _ {S K V : Type 0} (connection : Executor S) (chars : DoubleChars)
    (wf : AnswersWellFormed connection) (key_serializer : Serializer K)
    (value_serializer : Serializer V) (proper_key : Proper key_serializer)
    (proper_value : Proper value_serializer) where
  pub ValueMethod-Safe :
      {A : Type 0} {m : Exec S A}
      → ValueMethod (client_template connection chars key_serializer value_serializer) A m
      → Safe connection Any m
  unfolding serialize_key serialize_value Values.set Values.get Values.incr Values.decr
      Values.append Values.get_and_set
  ValueMethod-Safe (Methods.set key value) =
      Safe-bind _ _ _ (Safe-lift _ _ (proper_key.serialized key)) (λ k _.
        Safe-bind _ _ _ (Safe-lift _ _ (proper_value.serialized value))
          (λ v _. Sends.StringMethod-Safe connection wf (Client.set k v)))
  ValueMethod-Safe (Methods.get key) =
      Safe-bind _ _ _ (Safe-lift _ _ (proper_key.serialized key)) (λ k _.
        Safe-bind _ _ _ (Sends.StringMethod-Safe connection wf (Client.get k))
          (λ val _. Safe-lift _ _ (deserialize_optional-Defined value_serializer proper_value val)))
  ValueMethod-Safe (Methods.incr key delta) =
      Safe-bind _ _ _ (Safe-lift _ _ (proper_key.serialized key))
        (λ k _. Sends.StringMethod-Safe connection wf (Client.incr k delta))
  ValueMethod-Safe (Methods.decr key delta) =
      Safe-bind _ _ _ (Safe-lift _ _ (proper_key.serialized key))
        (λ k _. Sends.StringMethod-Safe connection wf (Client.decr k delta))
  ValueMethod-Safe (Methods.append key value) =
      Safe-bind _ _ _ (Safe-lift _ _ (proper_key.serialized key)) (λ k _.
        Safe-bind _ _ _ (Safe-lift _ _ (proper_value.serialized value))
          (λ v _. Sends.StringMethod-Safe connection wf (Client.append k v)))
  ValueMethod-Safe (Methods.get_and_set key value) =
      Safe-bind _ _ _ (Safe-lift _ _ (proper_key.serialized key)) (λ k _.
        Safe-bind _ _ _ (Safe-lift _ _ (proper_value.serialized value)) (λ v _.
          Safe-bind _ _ _ (Sends.StringMethod-Safe connection wf (Client.getset k v)) (λ val _.
            Safe-lift _ _ (deserialize_optional-Defined value_serializer proper_value val))))
