-- ===== src/Template/Scripts/Recovery.antt =====
-- `eval_sha1` of the facade for a script that the server may have lost.
use redisdal.Prelude.{some, List, ◌≡◌, refl, sym, ◌∙◌}
use redisdal.Text.{Bytes}
use redisdal.Errors.{Error, no_script_error, Result, ok, err}
use redisdal.Reply.{CmdReply}
use redisdal.Reply.Decode.{StringMap, find, emplace}
use redisdal.Exec.{Exec, lift, continue, ◌>>=◌}
use redisdal.Local.{WithLocal, on_state, get_local, set_local}
use redisdal.KvConnection.{KvConnection}
use redisdal.Serializer.{serialize_each}
use redisdal.Template.{RedisTemplate}
use redisdal.Template.Scripts.{TemplateState, handled, catch_no_script, remember, reload, eval_sha1}
use redisdal.Template.Scripts.Cache.{LoadsBy, IsSound, find-IsSound}

module _ {S : Type 0} (connection : KvConnection S) where
  -- A script run by its SHA-1, and loaded first if the server does not have it.
  unfoldable pub run_or_load : Bytes → Bytes → List Bytes → List Bytes → Exec S CmdReply
  run_or_load script sha1 s_keys s_args =
      catch_no_script (connection.eval_sha1 sha1 s_keys s_args) (λ thrown. do
        loaded ← connection.script_load script
        connection.eval_sha1 sha1 s_keys s_args)

emplace_present :
    (sha script : Bytes) (cache : StringMap)
    → find sha cache ≡ some script
    → emplace sha script cache ≡ cache
unfolding emplace
emplace_present sha script cache e = rw (e) refl

module _ {S : Type 0} {sha_of : Bytes → Bytes} (connection : KvConnection S)
    (loads : LoadsBy sha_of connection) (sha1 script : Bytes) (s_keys s_args : List Bytes) where
  -- The handler from the answer to the load.
  reload_answered :
      (w : TemplateState S) (r : Result Bytes × S)
      → find sha1 w.local ≡ some script
      → ((sha : Bytes) → r.0 ≡ ok sha → sha ≡ sha1)
      → continue r.0
          (λ new_sha. do
            done ← remember new_sha script
            on_state (connection.eval_sha1 new_sha s_keys s_args))
          (record w { state = r.1 })
        ≡ (let (r', s) = continue r.0 (λ _. connection.eval_sha1 sha1 s_keys s_args) r.1 in
            (r', record w { state = s }))
  unfolding ◌>>=◌ remember get_local set_local on_state
  reload_answered w (err e, s) cached named = refl
  reload_answered w (ok sha, s) cached named =
      let same : sha ≡ sha1 = named sha refl in
      rw (same, emplace_present sha1 script w.local cached) refl

  reload_cached :
      (e : Error) (w : TemplateState S)
      → IsSound sha_of w.local
      → find sha1 w.local ≡ some script
      → reload connection sha1 s_keys s_args e w
        ≡ on_state
            (do loaded ← connection.script_load script; connection.eval_sha1 sha1 s_keys s_args)
            w
  unfolding reload ◌>>=◌ on_state get_local
  reload_cached e w sound cached =
      let key = find-IsSound sha_of sha1 script w.local sound cached in
      rw (cached) (
        reload_answered w (connection.script_load script w.state) cached
          (λ sha loaded. loads script sha w.state loaded ∙ sym key))

module _ {S M A : Type 0} where
  -- A handler that leaves the container as it is, seen without the container.
  caught_on_state :
      (w : WithLocal S M) (r : Result A × S) (handler : Error → Exec (WithLocal S M) A)
      (call : Exec S A)
      → ((e : Error) (s : S)
          → handler e (record w { state = s }) ≡ on_state call (record w { state = s }))
      → handled r.0 handler (record w { state = r.1 })
        ≡ (let (r', s) = handled r.0 (λ _. call) r.1 in (r', record w { state = s }))
  unfolding on_state
  caught_on_state w (err (no_script_error cmd sha1), s) handler call h =
      h (no_script_error cmd sha1) s
  caught_on_state w (r, s) handler call h = refl

module _ {S K V : Type 0} {sha_of : Bytes → Bytes} (tpl : RedisTemplate S K V)
    (loads : LoadsBy sha_of tpl.connection) where
  open tpl use {connection, key_serializer, value_serializer}

  -- `eval_sha1` of a facade for a script that its cache holds, when the cache is sound and the
  -- connection answers each script load with `sha_of` of the script: it serializes keys and arguments,
  -- and then does what `run_or_load` does with this script. It retries with the SHA-1 it was called
  -- with, and leaves the cache as it was.
  pub eval_sha1-run_or_load :
      (sha1 script : Bytes) (keys : List K) (args : List V) (w : TemplateState S)
      → IsSound sha_of w.local
      → find sha1 w.local ≡ some script
      → eval_sha1 tpl sha1 keys args w
        ≡ on_state
            (do
              s_keys ← lift (serialize_each key_serializer keys)
              s_args ← lift (serialize_each value_serializer args)
              run_or_load connection script sha1 s_keys s_args)
            w
  unfolding eval_sha1 ◌>>=◌ lift on_state run_or_load catch_no_script
  eval_sha1-run_or_load sha1 script keys args w sound cached =
      serialized (serialize_each key_serializer keys) (serialize_each value_serializer args)
    where
      serialized :
          (r q : Result (List Bytes))
          → (do
            s_keys ← lift r
            s_args ← lift q
            catch_no_script
                (on_state (connection.eval_sha1 sha1 s_keys s_args))
                (reload connection sha1 s_keys s_args))
              w
            ≡ on_state
                (do
                  s_keys ← lift r
                  s_args ← lift q
                  run_or_load connection script sha1 s_keys s_args)
                w
      serialized (err e) q = refl
      serialized (ok s_keys) (err e) = refl
      serialized (ok s_keys) (ok s_args) =
          caught_on_state w (connection.eval_sha1 sha1 s_keys s_args w.state) _ _ (λ e s.
            reload_cached connection loads sha1 script s_keys s_args e (record w { state = s })
              sound cached)
