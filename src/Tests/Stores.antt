-- ===== src/Tests/Stores.antt =====
-- Servers for the tests of the facade: one with a list, one with a string, one with scripts.
use redisdal.Prelude.{
  Bool, true, false, ◌||◌, Option, some, List, [], ◌∷◌, ◌++◌, length, ◌≡◌, refl, if◌then◌else◌,
}
use redisdal.Text.{Bytes, text, same_text, same_text_refl}
use redisdal.Text.Decimal.{decimal}
use redisdal.Errors.{ok}
use redisdal.Reply.{
  CmdReply, make_nil, make_error, make_integer, make_array, make_status, make_string,
}
use redisdal.Reply.RoundTrip.{string_replies}
use redisdal.Exec.{Exec, Executor}
use redisdal.Template.RoundTrip.Lists.{ListServer}
use redisdal.Template.RoundTrip.Values.{StringServer, value_reply}
use redisdal.Template.Scripts.RedisScripts.{
  load_command, no_matching_script, Scripting, ScriptServer,
}

-- One list, whatever the key.
abbrev list_answer : List Bytes → Exec (List Bytes) CmdReply
list_answer (command ∷ key ∷ args) held =
    if same_text command (text "RPUSH")
    then (ok (make_integer (length (held ++ args))), held ++ args)
    else if same_text command (text "LLEN")
    then (ok (make_integer (length held)), held)
    else (ok (make_array (string_replies held)), held)
list_answer argv held = (ok make_nil, held)

abbrev pub list_store : Executor (List Bytes)
list_store = record { cmd_execv = list_answer }

pub list_store-ListServer : ListServer list_store (λ held key. held)
unfolding same_text text
list_store-ListServer = record {
  rpush = λ key value values held. (_, _, refl, refl);
  llen = λ key held. (_, _, refl, refl);
  lrange = λ key held. (_, refl);
}

-- One string, whatever the key.
abbrev string_answer : List Bytes → Exec (Option Bytes) CmdReply
string_answer (command ∷ key ∷ value ∷ []) held = (ok (make_status (text "OK")), some value)
string_answer argv held = (ok (value_reply held), held)

abbrev pub string_store : Executor (Option Bytes)
string_store = record { cmd_execv = string_answer }

pub string_store-StringServer : StringServer string_store (λ held key. held)
string_store-StringServer = record {
  set = λ key value held. (_, refl, refl);
  get = λ key held. (_, refl);
}

-- The SHA-1 of the tests: a byte in front.
abbrev pub test_sha : Bytes → Bytes
test_sha script = b's' ∷ script

abbrev has : Bytes → List Bytes → Bool
has sha [] = false
has sha (held ∷ rest) = same_text held sha || has sha rest

abbrev loaded_script : List Bytes → Exec (List Bytes) CmdReply
loaded_script ((c ∷ script) ∷ []) held =
    (ok (make_string (test_sha (c ∷ script))), test_sha (c ∷ script) ∷ held)
loaded_script args held = (ok (make_error (text "ERR")), held)

-- The script of the tests fails where it has no argument.
abbrev ran : List Bytes → CmdReply
ran (count ∷ key ∷ arg ∷ args) = make_string arg
ran args = make_error (text "ERR no argument")

abbrev script_answer : List Bytes → Exec (List Bytes) CmdReply
script_answer (command ∷ argument ∷ args) held =
    if same_text command (text "SCRIPT")
    then loaded_script args held
    else if has argument held
    then (ok (ran args), argument ∷ held)
    else (ok (make_error no_matching_script), held)
script_answer argv held = (ok make_nil, held)

-- The state is the SHA-1s of the scripts that the server has, once more for each run.
abbrev pub script_store : Executor (List Bytes)
script_store = record { cmd_execv = script_answer }

abbrev is_script : Bytes → Bool
is_script [] = false
is_script (c ∷ script) = true

has-loaded :
    (script : Bytes) (held : List Bytes) → has (test_sha script) (test_sha script ∷ held) ≡ true
has-loaded script held = rw (same_text_refl (test_sha script)) refl

load-answered :
    (script : Bytes) (held : List Bytes)
    → is_script script ≡ true
    → ((script_answer (load_command script) held).0 ≡ ok (make_string (test_sha script)))
      × (has (test_sha script) (script_answer (load_command script) held).1 ≡ true)
unfolding same_text text
load-answered [] held h = cc
load-answered (c ∷ script) held h = (refl, has-loaded (c ∷ script) held)

load-rejected :
    (script : Bytes) (held : List Bytes)
    → is_script script ≡ false
    → (message : Bytes) × ((script_answer (load_command script) held).0 ≡ ok (make_error message))
unfolding same_text text
load-rejected [] held h = (text "ERR", refl)
load-rejected (c ∷ script) held h = cc

evalsha-found :
    (script : Bytes) (args held : List Bytes)
    → has (test_sha script) held ≡ true
    → script_answer (text "EVALSHA" ∷ test_sha script ∷ args) held
      ≡ (ok (ran args), test_sha script ∷ held)
unfolding same_text text
evalsha-found script args held here = rw (here) refl

evalsha-lost :
    (script : Bytes) (args held : List Bytes)
    → has (test_sha script) held ≡ false
    → script_answer (text "EVALSHA" ∷ test_sha script ∷ args) held
      ≡ (ok (make_error no_matching_script), held)
unfolding same_text text
evalsha-lost script args held lost = rw (lost) refl

abbrev pub test_scripting : Scripting (List Bytes)
test_scripting = record {
  compiles = is_script;
  holds = λ held script. has (test_sha script) held;
  run = λ script keys args held.
      (ran (decimal (length keys) ∷ (keys ++ args)), test_sha script ∷ held);
}

pub script_store-ScriptServer : ScriptServer test_sha test_scripting script_store
script_store-ScriptServer = record {
  loads = load-answered;
  rejects = load-rejected;
  runs =
      λ script keys args held. evalsha-found script (decimal (length keys) ∷ (keys ++ args)) held;
  misses =
      λ script keys args held. evalsha-lost script (decimal (length keys) ∷ (keys ++ args)) held;
}
