-- ===== src/Template/Safe/Keys.antt =====
-- Undefined behaviour in the key methods and raw commands of `redis_template`.
use redisdal.Prelude.{[]}
use redisdal.Serialization.{DoubleChars}
use redisdal.Exec.{Exec, Executor}
use redisdal.Reply.Ensures.{Any}
use redisdal.Containers.{Eq}
use redisdal.Serializer.{Serializer}
use redisdal.Serializer.Defined.{Proper, collect_keys-Defined, serialize_each-Defined}
use redisdal.Client.Methods as Client
use redisdal.Client.Safe.{Safe, AnswersWellFormed, Safe-bind, Safe-lift, Safe-pure}
use redisdal.Client.Safe.Keys as Sends
use redisdal.Client.Safe.Scripts
use redisdal.Template.{serialize_key, serialize_value}
use redisdal.Template as Facade
use redisdal.Template.Methods
use redisdal.Template.Methods.{FacadeMethod}
use redisdal.Template.Contract.{client_template}
use redisdal.Template.Safe.{Safe-on_state, Safe-observed, insert_keys-Safe}

module _ {S K V : Type 0} ⦃eq : Eq K⦄ (connection : Executor S) (chars : DoubleChars)
    (wf : AnswersWellFormed connection) (key_serializer : Serializer K)
    (value_serializer : Serializer V) (proper_key : Proper key_serializer)
    (proper_value : Proper value_serializer) where
  pub FacadeMethod-Safe :
      {A : Type 0} {m : Exec S A}
      → FacadeMethod (client_template connection chars key_serializer value_serializer) A m
      → Safe connection Any m
  unfolding serialize_key serialize_value Facade.exists Facade.type Facade.expire Facade.pexpire
      Facade.del Facade.del_keys Facade.ttl Facade.pttl Facade.persist Facade.ping
      Facade.ping_message Facade.eval Facade.exec_cmd Facade.keys Facade.scan
  FacadeMethod-Safe (Methods.exists key) =
      Safe-bind _ _ _ (Safe-lift _ _ (proper_key.serialized key))
        (λ k _. Sends.KeyMethod-Safe connection wf (Client.exists k))
  FacadeMethod-Safe (Methods.type key) =
      Safe-bind _ _ _ (Safe-lift _ _ (proper_key.serialized key))
        (λ k _. Sends.KeyMethod-Safe connection wf (Client.type k))
  FacadeMethod-Safe (Methods.expire key seconds) =
      Safe-bind _ _ _ (Safe-lift _ _ (proper_key.serialized key))
        (λ k _. Sends.KeyMethod-Safe connection wf (Client.expire k seconds))
  FacadeMethod-Safe (Methods.pexpire key milliseconds) =
      Safe-bind _ _ _ (Safe-lift _ _ (proper_key.serialized key))
        (λ k _. Sends.KeyMethod-Safe connection wf (Client.pexpire k milliseconds))
  FacadeMethod-Safe (Methods.del key) =
      Safe-bind _ _ _ (Safe-lift _ _ (proper_key.serialized key))
        (λ k _. Sends.KeyMethod-Safe connection wf (Client.del k))
  FacadeMethod-Safe (Methods.del_keys keys) =
      Safe-bind _ _ _ (Safe-lift _ _ (serialize_each-Defined key_serializer proper_key keys))
        (λ s_keys _. Sends.KeyMethod-Safe connection wf (Client.del_keys s_keys))
  FacadeMethod-Safe (Methods.ttl key) =
      Safe-bind _ _ _ (Safe-lift _ _ (proper_key.serialized key))
        (λ k _. Sends.KeyMethod-Safe connection wf (Client.ttl k))
  FacadeMethod-Safe (Methods.pttl key) =
      Safe-bind _ _ _ (Safe-lift _ _ (proper_key.serialized key))
        (λ k _. Sends.KeyMethod-Safe connection wf (Client.pttl k))
  FacadeMethod-Safe (Methods.persist key) =
      Safe-bind _ _ _ (Safe-lift _ _ (proper_key.serialized key))
        (λ k _. Sends.KeyMethod-Safe connection wf (Client.persist k))
  FacadeMethod-Safe Methods.ping = Sends.KeyMethod-Safe connection wf (Client.ping)
  FacadeMethod-Safe (Methods.ping_message message) =
      Sends.KeyMethod-Safe connection wf (Client.ping_message message)
  FacadeMethod-Safe (Methods.eval script keys args) =
      Safe-bind _ _ _ (Safe-lift _ _ (serialize_each-Defined key_serializer proper_key keys))
        (λ s_keys _.
          Safe-bind _ _ _
            (Safe-lift _ _ (serialize_each-Defined value_serializer proper_value args))
            (λ s_args _.
              Scripts.ScriptMethod-Safe connection wf (Client.eval script s_keys s_args)))
  FacadeMethod-Safe (Methods.exec_cmd cmd args) =
      Scripts.ScriptMethod-Safe connection wf (Client.command cmd args)
  FacadeMethod-Safe (Methods.keys pattern local) = Safe-observed connection local _ (
      Safe-bind _ _ _
        (Safe-on_state connection _ (Sends.KeyMethod-Safe connection wf (Client.keys pattern [])))
        (λ s_keys _. insert_keys-Safe connection key_serializer proper_key s_keys))
  FacadeMethod-Safe (Methods.scan cursor pattern count) =
      Safe-bind _ _ _ (Sends.KeyMethod-Safe connection wf (Client.scan cursor pattern count))
        (λ s_result _.
          Safe-bind _ _ _
            (Safe-lift _ _ (collect_keys-Defined key_serializer proper_key s_result.keys []))
            (λ keys _. Safe-pure _ _ tt))
