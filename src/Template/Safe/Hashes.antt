-- ===== src/Template/Safe/Hashes.antt =====
-- Undefined behaviour in the default view in Template/Views/Hashes.
use redisdal.Prelude.{[], is_empty}
use redisdal.Serialization.{DoubleChars}
use redisdal.Exec.{Exec, Executor}
use redisdal.Reply.Ensures.{Any}
use redisdal.Containers.{Eq}
use redisdal.Serializer.{Serializer}
use redisdal.Serializer.Defined.{
  Proper, collect_pairs-Defined, deserialize_each-Defined, deserialize_optional-Defined,
  serialize_each-Defined, serialize_fields-Defined, serialize_map-Defined,
}
use redisdal.Client.Methods as Client
use redisdal.Client.Safe.{Safe, AnswersWellFormed, Safe-bind, Safe-lift, Safe-pure, Safe-if}
use redisdal.Client.Safe.Hashes as Sends
use redisdal.Template.{serialize_key, serialize_value}
use redisdal.Template.Views.Hashes
use redisdal.Template.Methods
use redisdal.Template.Methods.{TypedHashMethod}
use redisdal.Template.Contract.{client_template}
use redisdal.Template.Safe.{
  Safe-on_state, Safe-get_local, Safe-set_local, Safe-observed, emplace_fields-Safe,
  update_fields-Safe,
}

module _ {S K V : Type 0} ⦃eq : Eq K⦄ (connection : Executor S) (chars : DoubleChars)
    (wf : AnswersWellFormed connection) (key_serializer : Serializer K)
    (value_serializer : Serializer V) (proper_key : Proper key_serializer)
    (proper_value : Proper value_serializer) where
  pub TypedHashMethod-Safe :
      {A : Type 0} {m : Exec S A}
      → TypedHashMethod (client_template connection chars key_serializer value_serializer) A m
      → Safe connection Any m
  unfolding serialize_key serialize_value Hashes.hget Hashes.hkeys Hashes.hvals Hashes.hset
      Hashes.hset_map Hashes.hdel Hashes.hdel_fields Hashes.hgetall Hashes.hget_map Hashes.hscan
  TypedHashMethod-Safe (Methods.hget key hash_key) =
      Safe-bind _ _ _ (Safe-lift _ _ (proper_key.serialized key)) (λ k _.
        Safe-bind _ _ _ (Safe-lift _ _ (proper_key.serialized hash_key)) (λ f _.
          Safe-bind _ _ _ (Sends.HashMethod-Safe connection wf (Client.hget k f)) (λ val _.
            Safe-lift _ _ (deserialize_optional-Defined value_serializer proper_value val))))
  TypedHashMethod-Safe (Methods.hkeys key) =
      Safe-bind _ _ _ (Safe-lift _ _ (proper_key.serialized key)) (λ k _.
        Safe-bind _ _ _ (Sends.HashMethod-Safe connection wf (Client.hkeys k))
          (λ raw _. Safe-lift _ _ (deserialize_each-Defined key_serializer proper_key raw)))
  TypedHashMethod-Safe (Methods.hvals key) =
      Safe-bind _ _ _ (Safe-lift _ _ (proper_key.serialized key)) (λ k _.
        Safe-bind _ _ _ (Sends.HashMethod-Safe connection wf (Client.hvals k))
          (λ raw _. Safe-lift _ _ (deserialize_each-Defined value_serializer proper_value raw)))
  TypedHashMethod-Safe (Methods.hset key field value) =
      Safe-bind _ _ _ (Safe-lift _ _ (proper_key.serialized key)) (λ k _.
        Safe-bind _ _ _ (Safe-lift _ _ (proper_key.serialized field)) (λ f _.
          Safe-bind _ _ _ (Safe-lift _ _ (proper_value.serialized value))
            (λ v _. Sends.HashMethod-Safe connection wf (Client.hset k f v))))
  TypedHashMethod-Safe (Methods.hset_map key hash_map) =
      Safe-bind _ _ _
        (Safe-lift _ _ (
          serialize_map-Defined key_serializer value_serializer proper_key proper_value hash_map
            []))
        (λ serialized_map _.
          Safe-bind _ _ _ (Safe-lift _ _ (proper_key.serialized key))
            (λ k _. Sends.HashMethod-Safe connection wf (Client.hset_map k serialized_map)))
  TypedHashMethod-Safe (Methods.hdel key hash_key) =
      Safe-bind _ _ _ (Safe-lift _ _ (proper_key.serialized key)) (λ k _.
        Safe-bind _ _ _ (Safe-lift _ _ (proper_key.serialized hash_key))
          (λ f _. Sends.HashMethod-Safe connection wf (Client.hdel k f)))
  TypedHashMethod-Safe (Methods.hdel_fields key hash_keys) =
      Safe-bind _ _ _ (Safe-lift _ _ (serialize_each-Defined key_serializer proper_key hash_keys))
        (λ serialized_keys _.
          Safe-bind _ _ _ (Safe-lift _ _ (proper_key.serialized key))
            (λ k _. Sends.HashMethod-Safe connection wf (Client.hdel_fields k serialized_keys)))
  TypedHashMethod-Safe (Methods.hgetall key) =
      Safe-bind _ _ _ (Safe-lift _ _ (proper_key.serialized key)) (λ k _.
        Safe-bind _ _ _ (Sends.HashMethod-Safe connection wf (Client.hgetall k)) (λ raw_map _.
          Safe-lift _ _ (
            collect_pairs-Defined key_serializer value_serializer proper_key proper_value raw_map
              [])))
  TypedHashMethod-Safe (Methods.hget_map key local) = Safe-observed connection local _ (
      Safe-bind _ _ _ (Safe-get_local connection) (λ m _.
        Safe-if _ (is_empty m) _ _ (Safe-pure _ tt tt) (
          Safe-bind _ _ _ (Safe-lift _ _ (serialize_fields-Defined key_serializer proper_key m []))
            (λ serialized_map _.
              Safe-bind _ _ _
                (Safe-on_state connection _ (Safe-lift _ _ (proper_key.serialized key)))
                (λ k _.
                  Safe-bind _ _ _
                    (Safe-on_state connection _
                      (Sends.HashMethod-Safe connection wf (Client.hget_map k serialized_map)))
                    (λ filled _.
                      update_fields-Safe connection key_serializer proper_key value_serializer
                        proper_value filled))))))
  TypedHashMethod-Safe (Methods.hscan key cursor pattern count local) =
      Safe-observed connection local _ (
        Safe-bind _ _ _ (Safe-on_state connection _ (Safe-lift _ _ (proper_key.serialized key)))
          (λ k _.
            Safe-bind _ _ _
              (Safe-on_state connection _ (Safe-lift _ _ (proper_key.serialized pattern)))
              (λ p _.
                Safe-bind _ _ _
                  (Safe-on_state connection _
                    (Sends.HashMethod-Safe connection wf (Client.hscan k cursor p count [])))
                  (λ page _. Safe-bind _ _ _ (Safe-set_local connection []) (λ _ _.
                    Safe-bind _ _ _
                      (emplace_fields-Safe connection key_serializer proper_key value_serializer
                        proper_value page.1)
                      (λ _ _. Safe-pure _ page.0 tt))))))
