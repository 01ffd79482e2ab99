-- ===== src/Template/Safe/Streams.antt =====
-- Undefined behaviour in the default view in Template/Views/Streams.
use redisdal.Serialization.{DoubleChars}
use redisdal.Exec.{Exec, Executor}
use redisdal.Reply.Ensures.{Any}
use redisdal.Serializer.{Serializer}
use redisdal.Serializer.Defined.{
  Proper, deserialize_batches-Defined, deserialize_entries-Defined, serialize_pairs-Defined,
  serialize_requests-Defined,
}
use redisdal.Client.Methods as Client
use redisdal.Client.Safe.{Safe, AnswersWellFormed, Safe-bind, Safe-lift}
use redisdal.Client.Safe.Streams as Sends
use redisdal.Template.{serialize_key, serialize_value}
use redisdal.Template.Views.Streams
use redisdal.Template.Methods
use redisdal.Template.Methods.{TypedStreamMethod}
use redisdal.Template.Contract.{client_template}

module _ {S K V : Type 0} (connection : Executor S) (chars : DoubleChars)
    (wf : AnswersWellFormed connection) (key_serializer : Serializer K)
    (value_serializer : Serializer V) (proper_key : Proper key_serializer)
    (proper_value : Proper value_serializer) where
  pub TypedStreamMethod-Safe :
      {A : Type 0} {m : Exec S A}
      → TypedStreamMethod (client_template connection chars key_serializer value_serializer) A m
      → Safe connection Any m
  unfolding serialize_key serialize_value Streams.xadd Streams.xlen Streams.xrange Streams.xrevrange
      Streams.xread Streams.xdel Streams.xtrim Streams.xgroup_create Streams.xgroup_setid
      Streams.xgroup_destroy Streams.xgroup_createconsumer Streams.xgroup_delconsumer
      Streams.xreadgroup Streams.xack
  TypedStreamMethod-Safe (Methods.xadd key fields options) =
      Safe-bind _ _ _
        (Safe-lift _ _
          (serialize_pairs-Defined key_serializer value_serializer proper_key proper_value fields))
        (λ serialized_fields _.
          Safe-bind _ _ _ (Safe-lift _ _ (proper_key.serialized key)) (λ k _.
            Sends.StreamMethod-Safe connection wf (Client.xadd k serialized_fields options)))
  TypedStreamMethod-Safe (Methods.xlen key) =
      Safe-bind _ _ _ (Safe-lift _ _ (proper_key.serialized key))
        (λ k _. Sends.StreamMethod-Safe connection wf (Client.xlen k))
  TypedStreamMethod-Safe (Methods.xrange key start end count) =
      Safe-bind _ _ _ (Safe-lift _ _ (proper_key.serialized key)) (λ k _.
        Safe-bind _ _ _ (Sends.StreamMethod-Safe connection wf (Client.xrange k start end count))
          (λ raw_entries _. Safe-lift _ _ (
            deserialize_entries-Defined key_serializer value_serializer proper_key proper_value
              raw_entries)))
  TypedStreamMethod-Safe (Methods.xrevrange key end start count) =
      Safe-bind _ _ _ (Safe-lift _ _ (proper_key.serialized key)) (λ k _.
        Safe-bind _ _ _ (Sends.StreamMethod-Safe connection wf (Client.xrevrange k end start count))
          (λ raw_entries _. Safe-lift _ _ (
            deserialize_entries-Defined key_serializer value_serializer proper_key proper_value
              raw_entries)))
  TypedStreamMethod-Safe (Methods.xread streams options) =
      Safe-bind _ _ _ (Safe-lift _ _ (serialize_requests-Defined key_serializer proper_key streams))
        (λ serialized_streams _.
          Safe-bind _ _ _
            (Sends.StreamMethod-Safe connection wf (Client.xread serialized_streams options))
            (λ raw_batches _. Safe-lift _ _ (
              deserialize_batches-Defined key_serializer value_serializer proper_key proper_value
                raw_batches)))
  TypedStreamMethod-Safe (Methods.xdel key ids) =
      Safe-bind _ _ _ (Safe-lift _ _ (proper_key.serialized key))
        (λ k _. Sends.StreamMethod-Safe connection wf (Client.xdel k ids))
  TypedStreamMethod-Safe (Methods.xtrim key options) =
      Safe-bind _ _ _ (Safe-lift _ _ (proper_key.serialized key))
        (λ k _. Sends.StreamMethod-Safe connection wf (Client.xtrim k options))
  TypedStreamMethod-Safe (Methods.xgroup_create key group id mkstream) =
      Safe-bind _ _ _ (Safe-lift _ _ (proper_key.serialized key))
        (λ k _. Sends.StreamMethod-Safe connection wf (Client.xgroup_create k group id mkstream))
  TypedStreamMethod-Safe (Methods.xgroup_setid key group id) =
      Safe-bind _ _ _ (Safe-lift _ _ (proper_key.serialized key))
        (λ k _. Sends.StreamMethod-Safe connection wf (Client.xgroup_setid k group id))
  TypedStreamMethod-Safe (Methods.xgroup_destroy key group) =
      Safe-bind _ _ _ (Safe-lift _ _ (proper_key.serialized key))
        (λ k _. Sends.StreamMethod-Safe connection wf (Client.xgroup_destroy k group))
  TypedStreamMethod-Safe (Methods.xgroup_createconsumer key group consumer) =
      Safe-bind _ _ _ (Safe-lift _ _ (proper_key.serialized key)) (λ k _.
        Sends.StreamMethod-Safe connection wf (Client.xgroup_createconsumer k group consumer))
  TypedStreamMethod-Safe (Methods.xgroup_delconsumer key group consumer) =
      Safe-bind _ _ _ (Safe-lift _ _ (proper_key.serialized key))
        (λ k _. Sends.StreamMethod-Safe connection wf (Client.xgroup_delconsumer k group consumer))
  TypedStreamMethod-Safe (Methods.xreadgroup group consumer streams options) =
      Safe-bind _ _ _ (Safe-lift _ _ (serialize_requests-Defined key_serializer proper_key streams))
        (λ serialized_streams _.
          Safe-bind _ _ _
            (Sends.StreamMethod-Safe connection wf
              (Client.xreadgroup group consumer serialized_streams options))
            (λ raw_batches _. Safe-lift _ _ (
              deserialize_batches-Defined key_serializer value_serializer proper_key proper_value
                raw_batches)))
  TypedStreamMethod-Safe (Methods.xack key group ids) =
      Safe-bind _ _ _ (Safe-lift _ _ (proper_key.serialized key))
        (λ k _. Sends.StreamMethod-Safe connection wf (Client.xack k group ids))
