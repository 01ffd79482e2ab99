-- ===== src/Template/Contract/Lists.antt =====
-- The commands that the default view in Template/Views/Lists sends.
use redisdal.Serialization.{DoubleChars}
use redisdal.Exec.{Exec, Executor}
use redisdal.Serializer.{Serializer}
use redisdal.Client.Methods as Client
use redisdal.Client.Contract.{OneCommand}
use redisdal.Client.Contract.Lists as Sends
use redisdal.Template.{serialize_key, serialize_value}
use redisdal.Template.Views.Lists
use redisdal.Template.Methods
use redisdal.Template.Methods.{TypedListMethod}
use redisdal.Template.Contract.{client_template, OneCommand-lift, OneCommand-decode}

module _ {S K V : Type 0} (connection : Executor S) (chars : DoubleChars)
    (key_serializer : Serializer K) (value_serializer : Serializer V) where
  pub TypedListMethod-OneCommand :
      {A : Type 0} {m : Exec S A}
      → TypedListMethod (client_template connection chars key_serializer value_serializer) A m
      → OneCommand connection m
  unfolding serialize_key serialize_value Lists.lpush_values Lists.lpush Lists.rpush_values
      Lists.rpush Lists.lpop Lists.lpop_count Lists.rpop Lists.rpop_count Lists.lrange Lists.llen
      Lists.lindex
  TypedListMethod-OneCommand (Methods.lpush_values key values) =
      OneCommand-lift _ _ (λ serialized_values.
        OneCommand-lift _ _
          (λ k. Sends.ListMethod-OneCommand connection (Client.lpush_values k serialized_values)))
  TypedListMethod-OneCommand (Methods.lpush key value) =
      OneCommand-lift _ _
        (λ k. OneCommand-lift _ _ (λ v. Sends.ListMethod-OneCommand connection (Client.lpush k v)))
  TypedListMethod-OneCommand (Methods.rpush_values key values) =
      OneCommand-lift _ _ (λ serialized_values.
        OneCommand-lift _ _
          (λ k. Sends.ListMethod-OneCommand connection (Client.rpush_values k serialized_values)))
  TypedListMethod-OneCommand (Methods.rpush key value) =
      OneCommand-lift _ _
        (λ k. OneCommand-lift _ _ (λ v. Sends.ListMethod-OneCommand connection (Client.rpush k v)))
  TypedListMethod-OneCommand (Methods.lpop key) =
      OneCommand-lift _ _
        (λ k. OneCommand-decode _ _ (Sends.ListMethod-OneCommand connection (Client.lpop k)))
  TypedListMethod-OneCommand (Methods.lpop_count key count) = OneCommand-lift _ _ (λ k.
      OneCommand-decode _ _ (Sends.ListMethod-OneCommand connection (Client.lpop_count k count)))
  TypedListMethod-OneCommand (Methods.rpop key) =
      OneCommand-lift _ _
        (λ k. OneCommand-decode _ _ (Sends.ListMethod-OneCommand connection (Client.rpop k)))
  TypedListMethod-OneCommand (Methods.rpop_count key count) = OneCommand-lift _ _ (λ k.
      OneCommand-decode _ _ (Sends.ListMethod-OneCommand connection (Client.rpop_count k count)))
  TypedListMethod-OneCommand (Methods.lrange key start stop) = OneCommand-lift _ _ (λ k.
      OneCommand-decode _ _ (Sends.ListMethod-OneCommand connection (Client.lrange k start stop)))
  TypedListMethod-OneCommand (Methods.llen key) =
      OneCommand-lift _ _ (λ k. Sends.ListMethod-OneCommand connection (Client.llen k))
  TypedListMethod-OneCommand (Methods.lindex key index) =
      OneCommand-lift _ _ (λ k.
        OneCommand-decode _ _ (Sends.ListMethod-OneCommand connection (Client.lindex k index)))
