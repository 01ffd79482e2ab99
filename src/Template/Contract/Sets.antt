-- ===== src/Template/Contract/Sets.antt =====
-- The commands that the default view in Template/Views/Sets sends.
use redisdal.Serialization.{DoubleChars}
use redisdal.Exec.{Exec, Executor}
use redisdal.Serializer.{Serializer}
use redisdal.Client.Methods as Client
use redisdal.Client.Contract.{OneCommand}
use redisdal.Client.Contract.Sets as Sends
use redisdal.Template.{serialize_key, serialize_value}
use redisdal.Template.Views.Sets
use redisdal.Template.Methods
use redisdal.Template.Methods.{TypedSetMethod}
use redisdal.Template.Contract.{client_template, OneCommand-lift, OneCommand-decode}

module _ {S K V : Type 0} (connection : Executor S) (chars : DoubleChars)
    (key_serializer : Serializer K) (value_serializer : Serializer V) where
  pub TypedSetMethod-OneCommand :
      {A : Type 0} {m : Exec S A}
      → TypedSetMethod (client_template connection chars key_serializer value_serializer) A m
      → OneCommand connection m
  unfolding serialize_key serialize_value Sets.sadd Sets.srem Sets.spop Sets.smembers Sets.scard
      Sets.sismember Sets.sinter
  TypedSetMethod-OneCommand (Methods.sadd key members) = OneCommand-lift _ _ (λ serialized_members.
      OneCommand-lift _ _
        (λ k. Sends.SetMethod-OneCommand connection (Client.sadd k serialized_members)))
  TypedSetMethod-OneCommand (Methods.srem key members) = OneCommand-lift _ _ (λ serialized_members.
      OneCommand-lift _ _
        (λ k. Sends.SetMethod-OneCommand connection (Client.srem k serialized_members)))
  TypedSetMethod-OneCommand (Methods.spop key) =
      OneCommand-lift _ _
        (λ k. OneCommand-decode _ _ (Sends.SetMethod-OneCommand connection (Client.spop k)))
  TypedSetMethod-OneCommand (Methods.smembers key) =
      OneCommand-lift _ _
        (λ k. OneCommand-decode _ _ (Sends.SetMethod-OneCommand connection (Client.smembers k)))
  TypedSetMethod-OneCommand (Methods.scard key) =
      OneCommand-lift _ _ (λ k. Sends.SetMethod-OneCommand connection (Client.scard k))
  TypedSetMethod-OneCommand (Methods.sismember key member) =
      OneCommand-lift _ _ (λ k.
        OneCommand-lift _ _ (λ v. Sends.SetMethod-OneCommand connection (Client.sismember k v)))
  TypedSetMethod-OneCommand (Methods.sinter keys) = OneCommand-lift _ _ (λ serialized_keys.
      OneCommand-decode _ _ (Sends.SetMethod-OneCommand connection (Client.sinter serialized_keys)))
