-- ===== src/Client/Safe/EveryMethod.antt =====
-- The headline over all methods of `redis_client`.
use redisdal.Errors.{IsDefined}
use redisdal.Serialization.{DoubleChars}
use redisdal.Exec.{Exec, Executor}
use redisdal.Reply.Ensures.{Any, Ensures-IsDefined}
use redisdal.Client.Methods.{
  Method, on_keys, on_strings, on_hashes, on_lists, on_sets, on_sorted_sets, on_streams, on_scripts,
}
use redisdal.Client.Safe.{Safe, AnswersWellFormed}
use redisdal.Client.Safe.Keys.{KeyMethod-Safe}
use redisdal.Client.Safe.Strings.{StringMethod-Safe}
use redisdal.Client.Safe.Hashes.{HashMethod-Safe}
use redisdal.Client.Safe.Lists.{ListMethod-Safe}
use redisdal.Client.Safe.Sets.{SetMethod-Safe}
use redisdal.Client.Safe.SortedSets.{SortedSetMethod-Safe}
use redisdal.Client.Safe.Streams.{StreamMethod-Safe}
use redisdal.Client.Safe.Scripts.{ScriptMethod-Safe}

module _ {S : Type 0} (connection : Executor S) (chars : DoubleChars) where
  Method-Safe :
      AnswersWellFormed connection
      → {A : Type 0} {m : Exec S A} → Method connection chars A m
      → Safe connection Any m
  Method-Safe wf (on_keys h) = KeyMethod-Safe connection wf h
  Method-Safe wf (on_strings h) = StringMethod-Safe connection wf h
  Method-Safe wf (on_hashes h) = HashMethod-Safe connection wf h
  Method-Safe wf (on_lists h) = ListMethod-Safe connection wf h
  Method-Safe wf (on_sets h) = SetMethod-Safe connection wf h
  Method-Safe wf (on_sorted_sets h) = SortedSetMethod-Safe connection chars wf h
  Method-Safe wf (on_streams h) = StreamMethod-Safe connection wf h
  Method-Safe wf (on_scripts h) = ScriptMethod-Safe connection wf h

  -- If every answer of the executor is a well-formed reply or an exception, then no call of a method
  -- of `redis_client`, in any state, reads an empty optional through `*` or an element past the end
  -- of a vector.
  pub Method-IsDefined :
      AnswersWellFormed connection
      → {A : Type 0} {m : Exec S A} → Method connection chars A m
      → (s : S) → IsDefined (m s).0
  Method-IsDefined wf h s = Ensures-IsDefined ((Method-Safe wf h).at s)
