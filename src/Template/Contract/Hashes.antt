-- ===== src/Template/Contract/Hashes.antt =====
-- The commands that the default view in Template/Views/Hashes sends.
use redisdal.Prelude.{Bool, true, false, Option, List, [], is_empty, refl, if◌then◌else◌}
use redisdal.Serialization.{DoubleChars}
use redisdal.Exec.{Exec, Executor, pure, lift, ◌>>=◌}
use redisdal.Local.{observed}
use redisdal.Containers.{Eq}
use redisdal.Serializer.{Serializer}
use redisdal.Client.Methods as Client
use redisdal.Client.Contract.{OneCommand}
use redisdal.Client.Contract.Hashes as Sends
use redisdal.Template.{serialize_key, serialize_value}
use redisdal.Template.Views.Hashes
use redisdal.Template.Methods
use redisdal.Template.Methods.{TypedHashMethod}
use redisdal.Template.Contract.{client_template, OneCommand-lift, OneCommand-decode}
use redisdal.Client.Hashes as Below
use redisdal.Local.{on_state, get_local}
use redisdal.Collect.{serialize_fields}
use redisdal.Collect.Caller.{update_fields}
use redisdal.Client.Contract.{OneCommand-pure}
use redisdal.Template.Contract.{OneCommand-same}
use redisdal.Template.Contract.Filling.{
  pure-IsQuiet, set_local-IsQuiet, bind-IsQuiet, emplace_fields-IsQuiet, update_fields-IsQuiet,
  OneCommand-observed-lift, OneCommand-observed-result, OneCommand-observed,
}

module _ {S K V : Type 0} ⦃eq : Eq K⦄ (connection : Executor S) (chars : DoubleChars)
    (key_serializer : Serializer K) (value_serializer : Serializer V) where
  hget_filled :
      (key : K) (local : List (K × Option V)) (b : Bool)
      → OneCommand connection (
          observed local (
            if b then pure tt else do
              serialized_map ← lift (serialize_fields key_serializer local [])
              k ← on_state (lift (key_serializer.serialize key))
              filled ← on_state (Below.hget_map connection k serialized_map)
              update_fields key_serializer value_serializer filled))
  unfolding observed pure
  hget_filled key local true = OneCommand-pure connection tt
  hget_filled key local false = OneCommand-observed-result local _ _ (λ serialized_map.
      OneCommand-observed-lift local _ _ (λ k.
        OneCommand-observed local _ _ (update_fields-IsQuiet key_serializer value_serializer)
          (Sends.HashMethod-OneCommand connection (Client.hget_map k serialized_map))))

  hget_map-OneCommand :
      (key : K) (local : List (K × Option V))
      → OneCommand connection (
          observed local (
            Hashes.hget_map (client_template connection chars key_serializer value_serializer) key))
  unfolding Hashes.hget_map serialize_key observed get_local ◌>>=◌
  hget_map-OneCommand key local =
      OneCommand-same (λ s. refl) (hget_filled key local (is_empty local))

  pub TypedHashMethod-OneCommand :
      {A : Type 0} {m : Exec S A}
      → TypedHashMethod (client_template connection chars key_serializer value_serializer) A m
      → OneCommand connection m
  unfolding serialize_key serialize_value Hashes.hget Hashes.hkeys Hashes.hvals Hashes.hset
      Hashes.hset_map Hashes.hdel Hashes.hdel_fields Hashes.hgetall Hashes.hget_map Hashes.hscan
  TypedHashMethod-OneCommand (Methods.hget key hash_key) = OneCommand-lift _ _ (λ k.
      OneCommand-lift _ _
        (λ f. OneCommand-decode _ _ (Sends.HashMethod-OneCommand connection (Client.hget k f))))
  TypedHashMethod-OneCommand (Methods.hkeys key) =
      OneCommand-lift _ _
        (λ k. OneCommand-decode _ _ (Sends.HashMethod-OneCommand connection (Client.hkeys k)))
  TypedHashMethod-OneCommand (Methods.hvals key) =
      OneCommand-lift _ _
        (λ k. OneCommand-decode _ _ (Sends.HashMethod-OneCommand connection (Client.hvals k)))
  TypedHashMethod-OneCommand (Methods.hset key field value) = OneCommand-lift _ _ (λ k.
      OneCommand-lift _ _ (λ f.
        OneCommand-lift _ _ (λ v. Sends.HashMethod-OneCommand connection (Client.hset k f v))))
  TypedHashMethod-OneCommand (Methods.hset_map key hash_map) =
      OneCommand-lift _ _ (λ serialized_map.
        OneCommand-lift _ _
          (λ k. Sends.HashMethod-OneCommand connection (Client.hset_map k serialized_map)))
  TypedHashMethod-OneCommand (Methods.hdel key hash_key) =
      OneCommand-lift _ _
        (λ k. OneCommand-lift _ _ (λ f. Sends.HashMethod-OneCommand connection (Client.hdel k f)))
  TypedHashMethod-OneCommand (Methods.hdel_fields key hash_keys) =
      OneCommand-lift _ _ (λ serialized_keys.
        OneCommand-lift _ _
          (λ k. Sends.HashMethod-OneCommand connection (Client.hdel_fields k serialized_keys)))
  TypedHashMethod-OneCommand (Methods.hgetall key) =
      OneCommand-lift _ _
        (λ k. OneCommand-decode _ _ (Sends.HashMethod-OneCommand connection (Client.hgetall k)))
  TypedHashMethod-OneCommand (Methods.hget_map key local) = hget_map-OneCommand key local
  TypedHashMethod-OneCommand (Methods.hscan key cursor pattern count local) =
      OneCommand-observed-lift local _ _ (λ k. OneCommand-observed-lift local _ _ (λ p.
        OneCommand-observed local _ _
          (λ page. bind-IsQuiet _ _ (set_local-IsQuiet []) (λ _.
            bind-IsQuiet _ _ (emplace_fields-IsQuiet key_serializer value_serializer page.1)
              (λ _. pure-IsQuiet page.0)))
          (Sends.HashMethod-OneCommand connection (Client.hscan k cursor p count []))))
