-- ===== src/Template/Safe/EveryMethod.antt =====
-- Undefined behaviour in all typed methods.
use redisdal.Serialization.{DoubleChars}
use redisdal.Errors.{IsDefined}
use redisdal.Exec.{Exec, Executor}
use redisdal.Reply.Ensures.{Any, Ensures-IsDefined}
use redisdal.Containers.{Eq}
use redisdal.Serializer.{Serializer}
use redisdal.Serializer.Defined.{Proper}
use redisdal.Client.Safe.{Safe, AnswersWellFormed}
use redisdal.Template.Methods.{
  TypedMethod, on_facade, on_values, on_hashes, on_lists, on_sets, on_sorted_sets, on_streams,
}
use redisdal.Template.Contract.{client_template}
use redisdal.Template.Safe.Keys.{FacadeMethod-Safe}
use redisdal.Template.Safe.Values.{ValueMethod-Safe}
use redisdal.Template.Safe.Hashes.{TypedHashMethod-Safe}
use redisdal.Template.Safe.Lists.{TypedListMethod-Safe}
use redisdal.Template.Safe.Sets.{TypedSetMethod-Safe}
use redisdal.Template.Safe.SortedSets.{TypedSortedSetMethod-Safe}
use redisdal.Template.Safe.Streams.{TypedStreamMethod-Safe}

module _ {S K V : Type 0} ⦃eq : Eq K⦄ (connection : Executor S) (chars : DoubleChars)
    (wf : AnswersWellFormed connection) (key_serializer : Serializer K)
    (value_serializer : Serializer V) (proper_key : Proper key_serializer)
    (proper_value : Proper value_serializer) where
  TypedMethod-Safe :
      {A : Type 0} {m : Exec S A}
      → TypedMethod (client_template connection chars key_serializer value_serializer) A m
      → Safe connection Any m
  TypedMethod-Safe (on_facade h) =
      FacadeMethod-Safe connection chars wf key_serializer value_serializer proper_key proper_value
        h
  TypedMethod-Safe (on_values h) =
      ValueMethod-Safe connection chars wf key_serializer value_serializer proper_key proper_value h
  TypedMethod-Safe (on_hashes h) =
      TypedHashMethod-Safe connection chars wf key_serializer value_serializer proper_key
        proper_value h
  TypedMethod-Safe (on_lists h) =
      TypedListMethod-Safe connection chars wf key_serializer value_serializer proper_key
        proper_value h
  TypedMethod-Safe (on_sets h) =
      TypedSetMethod-Safe connection chars wf key_serializer value_serializer proper_key
        proper_value h
  TypedMethod-Safe (on_sorted_sets h) =
      TypedSortedSetMethod-Safe connection chars wf key_serializer value_serializer proper_key
        proper_value h
  TypedMethod-Safe (on_streams h) =
      TypedStreamMethod-Safe connection chars wf key_serializer value_serializer proper_key
        proper_value h

  -- If every answer of the executor is a well-formed reply or an exception, and the serializers return
  -- or throw whatever they convert, then no call of a method of `redis_template` but `script_load` and
  -- `eval_sha1`, or of one of its default views, over `redis_client` and in any state, reads an empty
  -- optional through `*` or an element past the end of a vector.
  pub TypedMethod-IsDefined :
      {A : Type 0} {m : Exec S A}
      → TypedMethod (client_template connection chars key_serializer value_serializer) A m
      → (s : S) → IsDefined (m s).0
  TypedMethod-IsDefined h s = Ensures-IsDefined ((TypedMethod-Safe h).at s)
