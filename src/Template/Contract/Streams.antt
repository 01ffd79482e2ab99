-- ===== src/Template/Contract/Streams.antt =====
-- The commands that the default view in Template/Views/Streams sends.
use redisdal.Serialization.{DoubleChars}
use redisdal.Exec.{Exec, Executor}
use redisdal.Serializer.{Serializer}
use redisdal.Client.Methods as Client
use redisdal.Client.Contract.{OneCommand}
use redisdal.Client.Contract.Streams as Sends
use redisdal.Template.{serialize_key, serialize_value}
use redisdal.Template.Views.Streams
use redisdal.Template.Methods
use redisdal.Template.Methods.{TypedStreamMethod}
use redisdal.Template.Contract.{client_template, OneCommand-lift, OneCommand-decode}

module _ {S K V : Type 0} (connection : Executor S) (chars : DoubleChars)
    (key_serializer : Serializer K) (value_serializer : Serializer V) where
  pub TypedStreamMethod-OneCommand :
      {A : Type 0} {m : Exec S A}
      → TypedStreamMethod (client_template connection chars key_serializer value_serializer) A m
      → OneCommand connection m
  unfolding serialize_key serialize_value Streams.xadd Streams.xlen Streams.xrange Streams.xrevrange
      Streams.xread Streams.xdel Streams.xtrim Streams.xgroup_create Streams.xgroup_setid
      Streams.xgroup_destroy Streams.xgroup_createconsumer Streams.xgroup_delconsumer
      Streams.xreadgroup Streams.xack
  TypedStreamMethod-OneCommand (Methods.xadd key fields options) =
      OneCommand-lift _ _ (λ serialized_fields.
        OneCommand-lift _ _
          (λ k. Sends.StreamMethod-OneCommand connection (Client.xadd k serialized_fields options)))
  TypedStreamMethod-OneCommand (Methods.xlen key) =
      OneCommand-lift _ _ (λ k. Sends.StreamMethod-OneCommand connection (Client.xlen k))
  TypedStreamMethod-OneCommand (Methods.xrange key start end count) = OneCommand-lift _ _ (λ k.
      OneCommand-decode _ _
        (Sends.StreamMethod-OneCommand connection (Client.xrange k start end count)))
  TypedStreamMethod-OneCommand (Methods.xrevrange key end start count) = OneCommand-lift _ _ (λ k.
      OneCommand-decode _ _
        (Sends.StreamMethod-OneCommand connection (Client.xrevrange k end start count)))
  TypedStreamMethod-OneCommand (Methods.xread streams options) =
      OneCommand-lift _ _ (λ serialized_streams.
        OneCommand-decode _ _
          (Sends.StreamMethod-OneCommand connection (Client.xread serialized_streams options)))
  TypedStreamMethod-OneCommand (Methods.xdel key ids) =
      OneCommand-lift _ _ (λ k. Sends.StreamMethod-OneCommand connection (Client.xdel k ids))
  TypedStreamMethod-OneCommand (Methods.xtrim key options) =
      OneCommand-lift _ _ (λ k. Sends.StreamMethod-OneCommand connection (Client.xtrim k options))
  TypedStreamMethod-OneCommand (Methods.xgroup_create key group id mkstream) =
      OneCommand-lift _ _
        (λ k. Sends.StreamMethod-OneCommand connection (Client.xgroup_create k group id mkstream))
  TypedStreamMethod-OneCommand (Methods.xgroup_setid key group id) =
      OneCommand-lift _ _
        (λ k. Sends.StreamMethod-OneCommand connection (Client.xgroup_setid k group id))
  TypedStreamMethod-OneCommand (Methods.xgroup_destroy key group) =
      OneCommand-lift _ _
        (λ k. Sends.StreamMethod-OneCommand connection (Client.xgroup_destroy k group))
  TypedStreamMethod-OneCommand (Methods.xgroup_createconsumer key group consumer) =
      OneCommand-lift _ _ (λ k.
        Sends.StreamMethod-OneCommand connection (Client.xgroup_createconsumer k group consumer))
  TypedStreamMethod-OneCommand (Methods.xgroup_delconsumer key group consumer) =
      OneCommand-lift _ _
        (λ k. Sends.StreamMethod-OneCommand connection (Client.xgroup_delconsumer k group consumer))
  TypedStreamMethod-OneCommand (Methods.xreadgroup group consumer streams options) =
      OneCommand-lift _ _ (λ serialized_streams. OneCommand-decode _ _ (
        Sends.StreamMethod-OneCommand connection
          (Client.xreadgroup group consumer serialized_streams options)))
  TypedStreamMethod-OneCommand (Methods.xack key group ids) =
      OneCommand-lift _ _ (λ k. Sends.StreamMethod-OneCommand connection (Client.xack k group ids))
