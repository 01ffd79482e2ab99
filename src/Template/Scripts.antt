-- ===== src/Template/Scripts.antt =====
-- Scripts of `redis_template`, with the cache of script bodies by their SHA-1, which is a member of
-- the facade. No other method reads or changes it.
pub mod Cache
pub mod Runs
pub mod Recovery
pub mod RedisScripts
pub mod Server
use redisdal.Prelude.{Option, none, some, List}
use redisdal.Text.{Bytes}
use redisdal.Errors.{Error, no_script_error, Result, err}
use redisdal.Reply.{CmdReply}
use redisdal.Reply.Decode.{StringMap, find, emplace}
use redisdal.Exec.{Exec, pure, raise, lift, ◌>>=◌}
use redisdal.Local.{WithLocal, on_state, get_local, set_local}
use redisdal.KvConnection.{KvConnection}
use redisdal.Serializer.{serialize_each}
use redisdal.Template.{RedisTemplate}

-- The state of a facade: that behind its connection, and `sha1_cache`.
abbrev pub TemplateState : Type 0 → Type 0
TemplateState S = WithLocal S StringMap

-- `catch (const no_script_error &)`
abbrev pub handled : {S A : Type 0} → Result A → (Error → Exec S A) → Exec S A
handled (err (no_script_error cmd sha1)) handler s = handler (no_script_error cmd sha1) s
handled result handler s = (result, s)

unfoldable pub catch_no_script : {S A : Type 0} → Exec S A → (Error → Exec S A) → Exec S A
catch_no_script call handler s = let (result, s') = call s in handled result handler s'

-- `sha1_cache.emplace(sha, script)`
unfoldable pub remember : {S : Type 0} → Bytes → Bytes → Exec (TemplateState S) (Unit {0})
remember sha script = do cache ← get_local; set_local (emplace sha script cache)

module _ {S : Type 0} (connection : KvConnection S) where
  unfoldable pub script_load : Bytes → Exec (TemplateState S) Bytes
  script_load script = do
    sha ← on_state (connection.script_load script)
    done ← remember sha script
    pure sha

  -- The rest of the handler, from the position in the cache.
  abbrev pub reload_found :
      List Bytes → List Bytes → Error → Option Bytes → Exec (TemplateState S) CmdReply
  reload_found s_keys s_args thrown none = raise thrown
  reload_found s_keys s_args thrown (some script) = do
    new_sha ← on_state (connection.script_load script)
    done ← remember new_sha script
    on_state (connection.eval_sha1 new_sha s_keys s_args)

  unfoldable pub reload : Bytes → List Bytes → List Bytes → Error → Exec (TemplateState S) CmdReply
  reload sha1 s_keys s_args thrown = do
    cache ← get_local
    reload_found s_keys s_args thrown (find sha1 cache)

module _ {S K V : Type 0} (tpl : RedisTemplate S K V) where
  open tpl use {connection, key_serializer, value_serializer}

  unfoldable pub eval_sha1 : Bytes → List K → List V → Exec (TemplateState S) CmdReply
  eval_sha1 sha1 keys args = do
    s_keys ← lift (serialize_each key_serializer keys)
    s_args ← lift (serialize_each value_serializer args)
    catch_no_script (on_state (connection.eval_sha1 sha1 s_keys s_args))
        (reload connection sha1 s_keys s_args)
