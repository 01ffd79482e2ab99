-- ===== src/Template/Contract/SortedSets.antt =====
-- The commands that the default view in Template/Views/SortedSets sends.
use redisdal.Serialization.{DoubleChars}
use redisdal.Exec.{Exec, Executor}
use redisdal.Serializer.{Serializer}
use redisdal.Client.Methods as Client
use redisdal.Client.Contract.{OneCommand}
use redisdal.Client.Contract.SortedSets as Sends
use redisdal.Template.{serialize_key, serialize_value}
use redisdal.Template.Views.SortedSets
use redisdal.Template.Methods
use redisdal.Template.Methods.{TypedSortedSetMethod}
use redisdal.Template.Contract.{client_template, OneCommand-lift, OneCommand-decode}

module _ {S K V : Type 0} (connection : Executor S) (chars : DoubleChars)
    (key_serializer : Serializer K) (value_serializer : Serializer V) where
  pub TypedSortedSetMethod-OneCommand :
      {A : Type 0} {m : Exec S A}
      → TypedSortedSetMethod (client_template connection chars key_serializer value_serializer) A m
      → OneCommand connection m
  unfolding serialize_key serialize_value SortedSets.zadd SortedSets.zrem SortedSets.zincrby
      SortedSets.zscore SortedSets.zrange SortedSets.zrevrange SortedSets.zrange_withscores
      SortedSets.zrevrange_withscores
  TypedSortedSetMethod-OneCommand (Methods.zadd key members) =
      OneCommand-lift _ _ (λ serialized_members.
        OneCommand-lift _ _ (λ k.
          Sends.SortedSetMethod-OneCommand connection chars (Client.zadd k serialized_members)))
  TypedSortedSetMethod-OneCommand (Methods.zrem key members) =
      OneCommand-lift _ _ (λ serialized_members.
        OneCommand-lift _ _ (λ k.
          Sends.SortedSetMethod-OneCommand connection chars (Client.zrem k serialized_members)))
  TypedSortedSetMethod-OneCommand (Methods.zincrby key increment member) = OneCommand-lift _ _ (λ k.
      OneCommand-lift _ _
        (λ v. Sends.SortedSetMethod-OneCommand connection chars (Client.zincrby k increment v)))
  TypedSortedSetMethod-OneCommand (Methods.zscore key member) = OneCommand-lift _ _ (λ k.
      OneCommand-lift _ _
        (λ v. Sends.SortedSetMethod-OneCommand connection chars (Client.zscore k v)))
  TypedSortedSetMethod-OneCommand (Methods.zrange key start stop) = OneCommand-lift _ _ (λ k.
      OneCommand-decode _ _
        (Sends.SortedSetMethod-OneCommand connection chars (Client.zrange k start stop)))
  TypedSortedSetMethod-OneCommand (Methods.zrevrange key start stop) = OneCommand-lift _ _ (λ k.
      OneCommand-decode _ _
        (Sends.SortedSetMethod-OneCommand connection chars (Client.zrevrange k start stop)))
  TypedSortedSetMethod-OneCommand (Methods.zrange_withscores key start stop) =
      OneCommand-lift _ _ (λ k.
        OneCommand-decode _ _ (
          Sends.SortedSetMethod-OneCommand connection chars
            (Client.zrange_withscores k start stop)))
  TypedSortedSetMethod-OneCommand (Methods.zrevrange_withscores key start stop) =
      OneCommand-lift _ _ (λ k. OneCommand-decode _ _ (
        Sends.SortedSetMethod-OneCommand connection chars
          (Client.zrevrange_withscores k start stop)))
