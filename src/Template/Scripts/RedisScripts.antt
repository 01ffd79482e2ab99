-- ===== src/Template/Scripts/RedisScripts.antt =====
-- Scripts of a Redis server as documented, and the script methods of `redis_client` over it.
use redisdal.Prelude.{
  ℕ, Bool, ltb, length, true, false, List, [], ◌∷◌, ◌++◌, ◌≤◌, ◌≡◌, ◌≢◌, refl, ◌∙◌, arith,
}
use redisdal.Text.{Bytes, text, contains}
use redisdal.Text.Contains.{contains-absent}
use redisdal.Text.Decimal.{decimal}
use redisdal.Errors.{Error, redis_error, Result, ok, err}
use redisdal.Reply.{
  error, same_type, CmdReply, cmd_reply, is_error, get_type, make_string, make_error,
}
use redisdal.Reply.Decode.{or_throw, throw_if_error}
use redisdal.Exec.{Exec, Executor, lift, ◌>>=◌}
use redisdal.CmdOps.Arguments.{script_arguments, append_arguments, max_script_keys}
use redisdal.CmdOps.Vectors.{loaded_sha, is_no_script}
use redisdal.CmdOps.Scripts as Ops
use redisdal.Client.Scripts as Client
use redisdal.Client.Contract.{decoded, received_lem}
use redisdal.Client.Contract.Scripts.{loaded, scripted, continue-loaded, continue-checked}
use redisdal.Template.Scripts.{handled}

abbrev pub load_command : Bytes → List Bytes
load_command script = text "SCRIPT" ∷ text "LOAD" ∷ script ∷ []

abbrev pub evalsha_command : Bytes → List Bytes → List Bytes → List Bytes
evalsha_command sha keys args = text "EVALSHA" ∷ sha ∷ decimal (length keys) ∷ (keys ++ args)

-- The error that Redis documents for EVALSHA of a script it does not have.
abbrev pub no_matching_script : Bytes
no_matching_script = text "NOSCRIPT No matching script. Please use EVAL."

-- What a server makes of scripts: which compile, which it has in a state, and what a run of one with
-- its keys and arguments replies and leaves.
pub record Scripting (S : Type 0) : Type 0 where
  pub compiles : Bytes → Bool
  pub holds : S → Bytes → Bool
  pub run : Bytes → List Bytes → List Bytes → S → CmdReply × S

-- Scripts of a Redis server, as documented. SCRIPT LOAD answers a script that compiles with its
-- SHA-1, and then the server has it; any other with an error. EVALSHA with the SHA-1 of a script
-- that the server has runs it, and otherwise changes nothing and reports that it is missing. What
-- scripts do, their error replies included, is open.
pub record ScriptServer {S : Type 0} (sha_of : Bytes → Bytes) (scripting : Scripting S)
    (connection : Executor S) : Type 0 where
  pub loads :
      (script : Bytes) (s : S)
      → scripting.compiles script ≡ true
      → ((connection.cmd_execv (load_command script) s).0 ≡ ok (make_string (sha_of script)))
        × (scripting.holds (connection.cmd_execv (load_command script) s).1 script ≡ true)
  pub rejects :
      (script : Bytes) (s : S)
      → scripting.compiles script ≡ false
      → (message : Bytes) × ((connection.cmd_execv (load_command script) s).0
          ≡ ok (make_error message))
  pub runs :
      (script : Bytes) (keys args : List Bytes) (s : S)
      → scripting.holds s script ≡ true
      → connection.cmd_execv (evalsha_command (sha_of script) keys args) s
        ≡ (ok (scripting.run script keys args s).0, (scripting.run script keys args s).1)
  pub misses :
      (script : Bytes) (keys args : List Bytes) (s : S)
      → scripting.holds s script ≡ false
      → connection.cmd_execv (evalsha_command (sha_of script) keys args) s
        ≡ (ok (make_error no_matching_script), s)

-- What a caller gets for the reply of a script: the reply, or the exception with the message of an
-- error reply. Here the message does not mention NOSCRIPT.
pub data Delivers : CmdReply → Result CmdReply → Type 0 where
  returns :
      (reply : CmdReply) → same_type (get_type reply) error ≡ false → Delivers reply (ok reply)
  throws :
      (message : Bytes)
      → ((before after : Bytes) → message ≢ before ++ (text "NOSCRIPT" ++ after))
      → Delivers (make_error message) (err (redis_error message))

pub loaded_string : (sha : Bytes) → loaded_sha (make_string sha) ≡ ok sha
unfolding loaded_sha make_string
loaded_string sha = refl

pub no_error_sha : (message : Bytes) → loaded_sha (make_error message) ≡ err (redis_error message)
unfolding loaded_sha make_error
no_error_sha message = refl

few_arguments :
    (sha : Bytes) (keys args : List Bytes)
    → length keys ≤ 64
    → script_arguments (text "EVALSHA") sha keys args ≡ ok (evalsha_command sha keys args)
unfolding script_arguments append_arguments
few_arguments sha keys args h = rw (few (length keys) h) refl
  where
    few : (n : ℕ) → n ≤ 64 → ltb max_script_keys n ≡ false
    few n h = ground arith

pub missing_reported : is_no_script (make_error no_matching_script) ≡ true
unfolding is_no_script make_error text contains
missing_reported = refl

error_thrown : (message : Bytes) → or_throw (make_error message) ≡ err (redis_error message)
unfolding or_throw throw_if_error make_error
error_thrown message = refl

no_error_thrown :
    (reply : CmdReply) → same_type (get_type reply) error ≡ false → or_throw reply ≡ ok reply
unfolding or_throw throw_if_error is_error get_type
no_error_thrown (cmd_reply t s i d b a) fine = rw (fine) refl

module _ {S : Type 0} (connection : Executor S) where
  pub delivered :
      (sha : Bytes) {reply : CmdReply} {result : Result CmdReply}
      → Delivers reply result
      → decoded connection ok (scripted connection sha (ok reply)) ≡ result
  unfolding is_no_script is_error make_error
  delivered sha (returns reply fine) = rw (fine, no_error_thrown reply fine) refl
  delivered sha (throws message absent) =
      rw (contains-absent message (text "NOSCRIPT") absent, error_thrown message) refl

  pub handled_delivered :
      {reply : CmdReply} {result : Result CmdReply} (handler : Error → Exec S CmdReply) (s : S)
      → Delivers reply result
      → handled result handler s ≡ (result, s)
  handled_delivered handler s (returns reply fine) = refl
  handled_delivered handler s (throws message absent) = refl

  pub client_load :
      (script : Bytes) (s : S)
      → Client.script_load connection script s ≡ (
        loaded connection (connection.cmd_execv (load_command script) s).0,
        (connection.cmd_execv (load_command script) s).1,
      )
  unfolding Client.script_load Ops.script_load ◌>>=◌
  client_load script s = continue-loaded connection (connection.cmd_execv (load_command script) s)

  pub client_eval :
      (sha : Bytes) (keys args : List Bytes) (s : S)
      → length keys ≤ 64
      → Client.eval_sha1 connection sha keys args s ≡ (
        decoded connection ok
            (scripted connection sha (connection.cmd_execv (evalsha_command sha keys args) s).0),
        (connection.cmd_execv (evalsha_command sha keys args) s).1,
      )
  unfolding Client.eval_sha1 Ops.eval_sha1 ◌>>=◌ lift
  client_eval sha keys args s few =
      received_lem connection _ ok s
      ∙ rw
          (
            few_arguments sha keys args few,
            continue-checked connection sha
                (connection.cmd_execv (evalsha_command sha keys args) s),
          )
          refl
