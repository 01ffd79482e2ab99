-- ===== src/Client/Contract/EveryMethod.antt =====
-- The contract of docs/DESIGN.md, section 2.3, for every method of `redis_client`.
use redisdal.Serialization.{DoubleChars}
use redisdal.Exec.{Exec, Executor}
use redisdal.Client.Methods.{
  Method, on_keys, on_strings, on_hashes, on_lists, on_sets, on_sorted_sets, on_streams, on_scripts,
}
use redisdal.Client.Contract.{OneCommand}
use redisdal.Client.Contract.Keys.{KeyMethod-OneCommand}
use redisdal.Client.Contract.Strings.{StringMethod-OneCommand}
use redisdal.Client.Contract.Hashes.{HashMethod-OneCommand}
use redisdal.Client.Contract.Lists.{ListMethod-OneCommand}
use redisdal.Client.Contract.Sets.{SetMethod-OneCommand}
use redisdal.Client.Contract.SortedSets.{SortedSetMethod-OneCommand}
use redisdal.Client.Contract.Streams.{StreamMethod-OneCommand}
use redisdal.Client.Contract.Scripts.{ScriptMethod-OneCommand}

module _ {S : Type 0} (connection : Executor S) (chars : DoubleChars) where
  -- Each call of a method of `redis_client`, over any executor, sends nothing in any state, or sends
  -- one command, the same in every state, and leaves the state that this command leaves. In the
  -- second case an exception of the executor is the method's exception, and an error reply with a
  -- message is thrown as `redis_error` with that message, or as `no_script_error` for EVALSHA if the
  -- message contains NOSCRIPT.
  pub Method-OneCommand :
      {A : Type 0} {m : Exec S A} → Method connection chars A m → OneCommand connection m
  Method-OneCommand (on_keys h) = KeyMethod-OneCommand connection h
  Method-OneCommand (on_strings h) = StringMethod-OneCommand connection h
  Method-OneCommand (on_hashes h) = HashMethod-OneCommand connection h
  Method-OneCommand (on_lists h) = ListMethod-OneCommand connection h
  Method-OneCommand (on_sets h) = SetMethod-OneCommand connection h
  Method-OneCommand (on_sorted_sets h) = SortedSetMethod-OneCommand connection chars h
  Method-OneCommand (on_streams h) = StreamMethod-OneCommand connection h
  Method-OneCommand (on_scripts h) = ScriptMethod-OneCommand connection h
