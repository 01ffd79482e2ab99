-- ===== src/Template/Contract/EveryMethod.antt =====
-- The contract of docs/DESIGN.md, section 2.3, for the typed methods over `redis_client`.
use redisdal.Serialization.{DoubleChars}
use redisdal.Exec.{Exec, Executor}
use redisdal.Containers.{Eq}
use redisdal.Serializer.{Serializer}
use redisdal.Client.Contract.{OneCommand}
use redisdal.Template.Methods.{
  TypedMethod, on_facade, on_values, on_hashes, on_lists, on_sets, on_sorted_sets, on_streams,
}
use redisdal.Template.Contract.{client_template}
use redisdal.Template.Contract.Keys.{FacadeMethod-OneCommand}
use redisdal.Template.Contract.Values.{ValueMethod-OneCommand}
use redisdal.Template.Contract.Hashes.{TypedHashMethod-OneCommand}
use redisdal.Template.Contract.Lists.{TypedListMethod-OneCommand}
use redisdal.Template.Contract.Sets.{TypedSetMethod-OneCommand}
use redisdal.Template.Contract.SortedSets.{TypedSortedSetMethod-OneCommand}
use redisdal.Template.Contract.Streams.{TypedStreamMethod-OneCommand}

module _ {S K V : Type 0} ⦃eq : Eq K⦄ (connection : Executor S) (chars : DoubleChars)
    (key_serializer : Serializer K) (value_serializer : Serializer V) where
  -- Each call of a method of `redis_template` or of one of its default views, over `redis_client`,
  -- any executor and any serializers, sends nothing in any state, or sends one command, the same in
  -- every state, and leaves the state that this command leaves. In the second case an exception of
  -- the executor is the method's exception, and an error reply with a message is thrown as
  -- `redis_error` with that message, or as `no_script_error` for EVALSHA if the message contains
  -- NOSCRIPT. The methods are all but `script_load` and `eval_sha1` of the facade; those that fill a
  -- container of the caller are seen without the container.
  pub TypedMethod-OneCommand :
      {A : Type 0} {m : Exec S A}
      → TypedMethod (client_template connection chars key_serializer value_serializer) A m
      → OneCommand connection m
  TypedMethod-OneCommand (on_facade h) =
      FacadeMethod-OneCommand connection chars key_serializer value_serializer h
  TypedMethod-OneCommand (on_values h) =
      ValueMethod-OneCommand connection chars key_serializer value_serializer h
  TypedMethod-OneCommand (on_hashes h) =
      TypedHashMethod-OneCommand connection chars key_serializer value_serializer h
  TypedMethod-OneCommand (on_lists h) =
      TypedListMethod-OneCommand connection chars key_serializer value_serializer h
  TypedMethod-OneCommand (on_sets h) =
      TypedSetMethod-OneCommand connection chars key_serializer value_serializer h
  TypedMethod-OneCommand (on_sorted_sets h) =
      TypedSortedSetMethod-OneCommand connection chars key_serializer value_serializer h
  TypedMethod-OneCommand (on_streams h) =
      TypedStreamMethod-OneCommand connection chars key_serializer value_serializer h
