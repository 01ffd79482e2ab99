-- ===== src/Template/Contract/Values.antt =====
-- The commands that the default view in Template/Views/Values sends.
use redisdal.Serialization.{DoubleChars}
use redisdal.Exec.{Exec, Executor}
use redisdal.Serializer.{Serializer}
use redisdal.Client.Methods as Client
use redisdal.Client.Contract.{OneCommand}
use redisdal.Client.Contract.Strings as Sends
use redisdal.Template.{serialize_key, serialize_value}
use redisdal.Template.Views.Values
use redisdal.Template.Methods
use redisdal.Template.Methods.{ValueMethod}
use redisdal.Template.Contract.{client_template, OneCommand-lift, OneCommand-decode}

module _ {S K V : Type 0} (connection : Executor S) (chars : DoubleChars)
    (key_serializer : Serializer K) (value_serializer : Serializer V) where
  pub ValueMethod-OneCommand :
      {A : Type 0} {m : Exec S A}
      → ValueMethod (client_template connection chars key_serializer value_serializer) A m
      → OneCommand connection m
  unfolding serialize_key serialize_value Values.set Values.get Values.incr Values.decr
      Values.append Values.get_and_set
  ValueMethod-OneCommand (Methods.set key value) =
      OneCommand-lift _ _
        (λ k. OneCommand-lift _ _ (λ v. Sends.StringMethod-OneCommand connection (Client.set k v)))
  ValueMethod-OneCommand (Methods.get key) =
      OneCommand-lift _ _
        (λ k. OneCommand-decode _ _ (Sends.StringMethod-OneCommand connection (Client.get k)))
  ValueMethod-OneCommand (Methods.incr key delta) =
      OneCommand-lift _ _ (λ k. Sends.StringMethod-OneCommand connection (Client.incr k delta))
  ValueMethod-OneCommand (Methods.decr key delta) =
      OneCommand-lift _ _ (λ k. Sends.StringMethod-OneCommand connection (Client.decr k delta))
  ValueMethod-OneCommand (Methods.append key value) =
      OneCommand-lift _ _ (λ k.
        OneCommand-lift _ _ (λ v. Sends.StringMethod-OneCommand connection (Client.append k v)))
  ValueMethod-OneCommand (Methods.get_and_set key value) = OneCommand-lift _ _ (λ k.
      OneCommand-lift _ _
        (λ v. OneCommand-decode _ _ (Sends.StringMethod-OneCommand connection (Client.getset k v))))
