-- ===== src/Template/Scripts/Server.antt =====
-- A Redis server with scripts behind `redis_client`: what `eval_sha1` of the facade makes of a script
-- that the server has or has lost.
use redisdal.Prelude.{
  length, ap, some, true, false, List, [], ◌≤◌, ◌≡◌, refl, sym, ◌∙◌, inl, inr, Bool-cases,
  if◌then◌else◌,
}
use redisdal.Text.{Bytes, text}
use redisdal.Serialization.{DoubleChars}
use redisdal.Errors.{no_script_error, redis_error, Result, ok, err}
use redisdal.Reply.{CmdReply}
use redisdal.Reply.Decode.{find}
use redisdal.Exec.{Executor, lift, ◌>>=◌}
use redisdal.Client.Scripts as Client
use redisdal.KvConnection.FromClient.{client_connection}
use redisdal.Local.{on_state}
use redisdal.Serializer.{Serializer, serialize_each}
use redisdal.Template.{RedisTemplate}
use redisdal.Template.Contract.{client_template}
use redisdal.Template.Scripts.{TemplateState, catch_no_script, eval_sha1}
use redisdal.Template.Scripts.Runs.{Run, cache_always-IsSound}
use redisdal.Template.Scripts.Cache.{LoadsBy, find-IsSound}
use redisdal.Template.Scripts.Recovery.{run_or_load, eval_sha1-run_or_load}
use redisdal.Template.Scripts.RedisScripts.{
  Scripting, ScriptServer, Delivers, load_command, loaded_string, no_error_sha, missing_reported,
  delivered, handled_delivered, client_load, client_eval,
}

module _ {S : Type 0} {sha_of : Bytes → Bytes} {scripting : Scripting S} (connection : Executor S)
    (chars : DoubleChars) (server : ScriptServer sha_of scripting connection) where
  open connection use {cmd_execv}
  open scripting use {compiles, holds, run}
  open server use {loads, rejects, runs, misses}

  -- The state after a load.
  abbrev pub after_load : Bytes → S → S
  after_load script s = (cmd_execv (load_command script) s).1

  client_loads :
      (script : Bytes) (s : S)
      → compiles script ≡ true
      → Client.script_load connection script s ≡ (ok (sha_of script), after_load script s)
  client_loads script s compiled =
      client_load connection script s
      ∙ rw ((loads script s compiled).0, loaded_string (sha_of script)) refl

  loads_by :
      (script sha : Bytes) (s : S)
      → (Client.script_load connection script s).0 ≡ ok sha
      → sha ≡ sha_of script
  loads_by script sha s returned = elim (Bool-cases (compiles script)) [
    | inl compiled ↦
        let same : ok (sha_of script) ≡ ok sha =
          sym (ap (λ r. r.0) (client_loads script s compiled)) ∙ returned in
        cc
    | inr bad ↦
        let (message, answer) = rejects script s bad in
        let failed : (Client.script_load connection script s).0 ≡ err (redis_error message) =
          ap (λ r. r.0) (client_load connection script s)
          ∙ rw (answer, no_error_sha message) refl in
        let thrown : err (redis_error message) ≡ ok sha = sym failed ∙ returned in cc
  ]

  pub client-LoadsBy : LoadsBy sha_of (client_connection connection chars)
  client-LoadsBy script sha s returned = loads_by script sha s returned

  client_runs :
      (script : Bytes) (keys args : List Bytes) (s : S) {result : Result CmdReply}
      → length keys ≤ 64
      → holds s script ≡ true
      → Delivers (run script keys args s).0 result
      → Client.eval_sha1 connection (sha_of script) keys args s
        ≡ (result, (run script keys args s).1)
  client_runs script keys args s few here outcome =
      client_eval connection (sha_of script) keys args s few
      ∙ rw (runs script keys args s here, delivered connection (sha_of script) outcome) refl

  client_misses :
      (script : Bytes) (keys args : List Bytes) (s : S)
      → length keys ≤ 64
      → holds s script ≡ false
      → Client.eval_sha1 connection (sha_of script) keys args s
        ≡ (err (no_script_error (text "EVALSHA") (sha_of script)), s)
  client_misses script keys args s few lost =
      client_eval connection (sha_of script) keys args s few
      ∙ rw (misses script keys args s lost, missing_reported) refl

  -- The state in which the script is run: that of the call, or that after a load.
  abbrev pub ready : Bytes → S → S
  ready script s = if holds s script then s else after_load script s

  run_or_load-Delivers :
      (script : Bytes) (keys args : List Bytes) (s : S) {result : Result CmdReply}
      → length keys ≤ 64
      → compiles script ≡ true
      → Delivers (run script keys args (ready script s)).0 result
      → run_or_load (client_connection connection chars) script (sha_of script) keys args s
        ≡ (result, (run script keys args (ready script s)).1)
  unfolding run_or_load catch_no_script ◌>>=◌
  run_or_load-Delivers script keys args s few compiled outcome =
      elim (Bool-cases (holds s script)) [
        | inl here ↦
            let now = rw (here) at outcome in
            rw (here, client_runs script keys args s few here now)
              (handled_delivered connection _ _ now)
        | inr lost ↦
            let later = rw (lost) at outcome in
            rw
              (
                lost,
                client_misses script keys args s few lost,
                client_loads script s compiled,
                client_runs script keys args (after_load script s) few (loads script s compiled).1
                    later,
              )
              refl
      ]

module _ {S K V : Type 0} {sha_of : Bytes → Bytes} {scripting : Scripting S}
    (connection : Executor S) (chars : DoubleChars) (key_serializer : Serializer K)
    (value_serializer : Serializer V) (server : ScriptServer sha_of scripting connection) where
  abbrev tpl : RedisTemplate S K V
  tpl = client_template connection chars key_serializer value_serializer

  -- A facade over `redis_client` and a server with scripts as documented, in any state that its calls
  -- and other events reach from one with an empty cache: `eval_sha1` of a script that the cache holds
  -- and that compiles, with at most 64 keys, and keys and arguments that serialize, runs the script
  -- once, in the state of the call if the server has the script, and else in the state after one
  -- load. It returns the reply of this run, or throws its error message as `redis_error`, and leaves
  -- the cache as it was, unless the script itself replies with an error that mentions NOSCRIPT.
  pub script_recovered :
      (s : S) (w : TemplateState S)
      → Run tpl (record { state = s; local = [] }) w
      → (sha1 script : Bytes) (keys : List K) (args : List V) (s_keys s_args : List Bytes)
      → serialize_each key_serializer keys ≡ ok s_keys
      → serialize_each value_serializer args ≡ ok s_args
      → length s_keys ≤ 64
      → find sha1 w.local ≡ some script
      → scripting.compiles script ≡ true
      → (result : Result CmdReply)
      → Delivers
          (scripting.run script s_keys s_args (ready connection chars server script w.state)).0
          result
      → eval_sha1 tpl sha1 keys args w ≡ (
        result,
        record w {
          state =
              (scripting.run script s_keys s_args (ready connection chars server script w.state)).1;
        },
      )
  unfolding on_state ◌>>=◌ lift
  script_recovered s w reached sha1 script keys args s_keys s_args k_ok a_ok few cached compiled
        result outcome =
      let by = client-LoadsBy connection chars server in
      let sound = cache_always-IsSound tpl sha_of by s w reached in
      let named : sha1 ≡ sha_of script = find-IsSound sha_of sha1 script w.local sound cached in
      eval_sha1-run_or_load tpl by sha1 script keys args w sound cached
      ∙ rw
          (
            k_ok,
            a_ok,
            named,
            run_or_load-Delivers connection chars server script s_keys s_args w.state few compiled
                outcome,
          )
          refl
