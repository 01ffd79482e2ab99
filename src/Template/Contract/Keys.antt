-- ===== src/Template/Contract/Keys.antt =====
-- The commands that the key methods and raw commands of `redis_template` send.
use redisdal.Prelude.{[], ◌≡◌, refl}
use redisdal.Serialization.{DoubleChars}
use redisdal.Exec.{Exec, Executor, pure, lift, ◌>>=◌}
use redisdal.Containers.{Eq}
use redisdal.Serializer.{Serializer}
use redisdal.Client.Methods as Client
use redisdal.Client.Contract.{OneCommand}
use redisdal.Client.Contract.Keys as Sends
use redisdal.Client.Contract.Scripts
use redisdal.Template.{serialize_key, serialize_value}
use redisdal.Template as Facade
use redisdal.Template.Methods
use redisdal.Template.Methods.{FacadeMethod}
use redisdal.Template.Contract.{client_template, OneCommand-lift, OneCommand-then}
use redisdal.Errors
use redisdal.Errors.{Result, ok, err}
use redisdal.Collect.{collect_keys}
use redisdal.Template.Contract.Filling.{OneCommand-observed, insert_keys-IsQuiet}

-- A computation, and a function of its value.
lift-pure :
    {S A B : Type 0} (r : Result A) (f : A → B) (s : S)
    → (lift r >>= λ a. pure (f a)) s ≡ (Errors.◌>>=◌ r (λ a. ok (f a)), s)
unfolding ◌>>=◌ lift pure
lift-pure (ok a) f s = refl
lift-pure (err e) f s = refl

module _ {S K V : Type 0} ⦃eq : Eq K⦄ (connection : Executor S) (chars : DoubleChars)
    (key_serializer : Serializer K) (value_serializer : Serializer V) where
  pub FacadeMethod-OneCommand :
      {A : Type 0} {m : Exec S A}
      → FacadeMethod (client_template connection chars key_serializer value_serializer) A m
      → OneCommand connection m
  unfolding serialize_key serialize_value Facade.exists Facade.type Facade.expire Facade.pexpire
      Facade.del Facade.del_keys Facade.ttl Facade.pttl Facade.persist Facade.ping
      Facade.ping_message Facade.eval Facade.exec_cmd Facade.keys Facade.scan
  FacadeMethod-OneCommand (Methods.exists key) =
      OneCommand-lift _ _ (λ k. Sends.KeyMethod-OneCommand connection (Client.exists k))
  FacadeMethod-OneCommand (Methods.type key) =
      OneCommand-lift _ _ (λ k. Sends.KeyMethod-OneCommand connection (Client.type k))
  FacadeMethod-OneCommand (Methods.expire key seconds) =
      OneCommand-lift _ _ (λ k. Sends.KeyMethod-OneCommand connection (Client.expire k seconds))
  FacadeMethod-OneCommand (Methods.pexpire key milliseconds) =
      OneCommand-lift _ _
        (λ k. Sends.KeyMethod-OneCommand connection (Client.pexpire k milliseconds))
  FacadeMethod-OneCommand (Methods.del key) =
      OneCommand-lift _ _ (λ k. Sends.KeyMethod-OneCommand connection (Client.del k))
  FacadeMethod-OneCommand (Methods.del_keys keys) =
      OneCommand-lift _ _ (λ s_keys. Sends.KeyMethod-OneCommand connection (Client.del_keys s_keys))
  FacadeMethod-OneCommand (Methods.ttl key) =
      OneCommand-lift _ _ (λ k. Sends.KeyMethod-OneCommand connection (Client.ttl k))
  FacadeMethod-OneCommand (Methods.pttl key) =
      OneCommand-lift _ _ (λ k. Sends.KeyMethod-OneCommand connection (Client.pttl k))
  FacadeMethod-OneCommand (Methods.persist key) =
      OneCommand-lift _ _ (λ k. Sends.KeyMethod-OneCommand connection (Client.persist k))
  FacadeMethod-OneCommand Methods.ping = Sends.KeyMethod-OneCommand connection (Client.ping)
  FacadeMethod-OneCommand (Methods.ping_message message) =
      Sends.KeyMethod-OneCommand connection (Client.ping_message message)
  FacadeMethod-OneCommand (Methods.eval script keys args) = OneCommand-lift _ _ (λ s_keys.
      OneCommand-lift _ _
        (λ s_args. Scripts.ScriptMethod-OneCommand connection (Client.eval script s_keys s_args)))
  FacadeMethod-OneCommand (Methods.exec_cmd cmd args) =
      Scripts.ScriptMethod-OneCommand connection (Client.command cmd args)
  FacadeMethod-OneCommand (Methods.keys pattern local) =
      OneCommand-observed local _ _ (insert_keys-IsQuiet key_serializer)
        (Sends.KeyMethod-OneCommand connection (Client.keys pattern []))
  FacadeMethod-OneCommand (Methods.scan cursor pattern count) =
      OneCommand-then
        (λ s_result.
          Errors.◌>>=◌ (collect_keys key_serializer s_result.keys [])
            (λ keys. ok (record { cursor = s_result.cursor; keys = keys })))
        _ _ (λ s_result s. lift-pure _ _ s)
        (Sends.KeyMethod-OneCommand connection (Client.scan cursor pattern count))
