-- ===== src/Template/Safe/SortedSets.antt =====
-- Undefined behaviour in the default view in Template/Views/SortedSets.
use redisdal.Prelude.{[]}
use redisdal.Serialization.{DoubleChars}
use redisdal.Exec.{Exec, Executor}
use redisdal.Reply.Ensures.{Any}
use redisdal.Serializer.{Serializer}
use redisdal.Serializer.Defined.{
  Proper, deserialize_each-Defined, deserialize_scored-Defined, serialize_each-Defined,
  serialize_members-Defined,
}
use redisdal.Client.Methods as Client
use redisdal.Client.Safe.{Safe, AnswersWellFormed, Safe-bind, Safe-lift}
use redisdal.Client.Safe.SortedSets as Sends
use redisdal.Template.{serialize_key, serialize_value}
use redisdal.Template.Views.SortedSets
use redisdal.Template.Methods
use redisdal.Template.Methods.{TypedSortedSetMethod}
use redisdal.Template.Contract.{client_template}

module _ {S K V : Type 0} (connection : Executor S) (chars : DoubleChars)
    (wf : AnswersWellFormed connection) (key_serializer : Serializer K)
    (value_serializer : Serializer V) (proper_key : Proper key_serializer)
    (proper_value : Proper value_serializer) where
  pub TypedSortedSetMethod-Safe :
      {A : Type 0} {m : Exec S A}
      → TypedSortedSetMethod (client_template connection chars key_serializer value_serializer) A m
      → Safe connection Any m
  unfolding serialize_key serialize_value SortedSets.zadd SortedSets.zrem SortedSets.zincrby
      SortedSets.zscore SortedSets.zrange SortedSets.zrevrange SortedSets.zrange_withscores
      SortedSets.zrevrange_withscores
  TypedSortedSetMethod-Safe (Methods.zadd key members) =
      Safe-bind _ _ _
        (Safe-lift _ _ (serialize_members-Defined value_serializer proper_value members []))
        (λ serialized_members _. Safe-bind _ _ _ (Safe-lift _ _ (proper_key.serialized key)) (λ k _.
          Sends.SortedSetMethod-Safe connection chars wf (Client.zadd k serialized_members)))
  TypedSortedSetMethod-Safe (Methods.zrem key members) =
      Safe-bind _ _ _ (Safe-lift _ _ (serialize_each-Defined value_serializer proper_value members))
        (λ serialized_members _. Safe-bind _ _ _ (Safe-lift _ _ (proper_key.serialized key)) (λ k _.
          Sends.SortedSetMethod-Safe connection chars wf (Client.zrem k serialized_members)))
  TypedSortedSetMethod-Safe (Methods.zincrby key increment member) =
      Safe-bind _ _ _ (Safe-lift _ _ (proper_key.serialized key)) (λ k _.
        Safe-bind _ _ _ (Safe-lift _ _ (proper_value.serialized member))
          (λ v _. Sends.SortedSetMethod-Safe connection chars wf (Client.zincrby k increment v)))
  TypedSortedSetMethod-Safe (Methods.zscore key member) =
      Safe-bind _ _ _ (Safe-lift _ _ (proper_key.serialized key)) (λ k _.
        Safe-bind _ _ _ (Safe-lift _ _ (proper_value.serialized member))
          (λ v _. Sends.SortedSetMethod-Safe connection chars wf (Client.zscore k v)))
  TypedSortedSetMethod-Safe (Methods.zrange key start stop) =
      Safe-bind _ _ _ (Safe-lift _ _ (proper_key.serialized key)) (λ k _.
        Safe-bind _ _ _
          (Sends.SortedSetMethod-Safe connection chars wf (Client.zrange k start stop))
          (λ raw _. Safe-lift _ _ (deserialize_each-Defined value_serializer proper_value raw)))
  TypedSortedSetMethod-Safe (Methods.zrevrange key start stop) =
      Safe-bind _ _ _ (Safe-lift _ _ (proper_key.serialized key)) (λ k _.
        Safe-bind _ _ _
          (Sends.SortedSetMethod-Safe connection chars wf (Client.zrevrange k start stop))
          (λ raw _. Safe-lift _ _ (deserialize_each-Defined value_serializer proper_value raw)))
  TypedSortedSetMethod-Safe (Methods.zrange_withscores key start stop) =
      Safe-bind _ _ _ (Safe-lift _ _ (proper_key.serialized key)) (λ k _.
        Safe-bind _ _ _
          (Sends.SortedSetMethod-Safe connection chars wf (Client.zrange_withscores k start stop))
          (λ raw_pairs _.
            Safe-lift _ _ (deserialize_scored-Defined value_serializer proper_value raw_pairs)))
  TypedSortedSetMethod-Safe (Methods.zrevrange_withscores key start stop) =
      Safe-bind _ _ _ (Safe-lift _ _ (proper_key.serialized key)) (λ k _.
        Safe-bind _ _ _
          (Sends.SortedSetMethod-Safe connection chars wf
            (Client.zrevrange_withscores k start stop))
          (λ raw_pairs _.
            Safe-lift _ _ (deserialize_scored-Defined value_serializer proper_value raw_pairs)))
