-- ===== src/Client/Contract/Scripts.antt =====
-- The script methods of `redis_client` send at most one command each. `eval_sha1` turns an error
-- reply that reports a missing script into `no_script_error`, `script_load` reads its reply itself.
use redisdal.Prelude.{
  Bool, true, false, List, [], ◌∷◌, ◌≡◌, refl, ◌∙◌, inl, inr, Bool-cases, if◌then◌else◌,
}
use redisdal.Text.{Bytes, text, contains}
use redisdal.Reply.Decode.{or_throw}
use redisdal.Client.Scripts as Client
use redisdal.CmdOps.Scripts as Ops
use redisdal.CmdOps.Arguments.{script_arguments}
use redisdal.CmdOps.Vectors.{loaded_sha, is_no_script}
use redisdal.Errors.{no_script_error, Result, ok, err}
use redisdal.Reply.{CmdReply, make_error}
use redisdal.Exec.{Exec, Executor, pure, raise, lift, continue, ◌>>=◌}
use redisdal.Client.Requests.{received}
use redisdal.Client.Methods
use redisdal.Client.Methods.{ScriptMethod}
use redisdal.Client.Contract.{
  OneCommand, sends_nothing, sends, Relays, decoded, received_lem, OneCommand-received, Asks-lift,
  Asks-cmd_execv,
}

module _ {S : Type 0} (connection : Executor S) where
  open connection use {cmd_execv}

  -- What `eval_sha1` of the command layer makes of its answer.
  abbrev pub scripted : Bytes → Result CmdReply → Result CmdReply
  scripted sha1 (ok reply) =
      if is_no_script reply then err (no_script_error (text "EVALSHA") sha1) else ok reply
  scripted sha1 (err e) = err e

  abbrev pub loaded : Result CmdReply → Result Bytes
  loaded (ok reply) = loaded_sha reply
  loaded (err e) = err e

  loaded-Relays : (answer : Result CmdReply) → Relays answer (loaded answer)
  unfolding loaded_sha make_error
  loaded-Relays (err e) = refl
  loaded-Relays (ok reply) = λ message e. inl (rw (e, loaded_sha))

  scripted-Relays :
      (sha1 : Bytes) (answer : Result CmdReply)
      → Relays answer (decoded connection ok (scripted sha1 answer))
  unfolding is_no_script make_error or_throw
  scripted-Relays sha1 (err e) = refl
  scripted-Relays sha1 (ok reply) = λ message e.
      elim (Bool-cases (contains message (text "NOSCRIPT"))) [
        | inl missing ↦ inr (sha1, missing, rw (e, missing))
        | inr other ↦ inl (rw (e, other))
      ]

  pub continue-loaded :
      (p : Result CmdReply × S)
      → continue p.0 (λ reply. lift (loaded_sha reply)) p.1 ≡ (loaded p.0, p.1)
  unfolding lift
  continue-loaded (ok reply, s) = refl
  continue-loaded (err e, s) = refl

  -- The last step of `eval_sha1` in the command layer.
  abbrev pub checked : Bytes → CmdReply → Exec S CmdReply
  checked sha1 reply =
      if is_no_script reply then raise (no_script_error (text "EVALSHA") sha1) else pure reply

  checked_run :
      (sha1 : Bytes) (b : Bool) (reply : CmdReply) (s : S)
      → (if b then raise (no_script_error (text "EVALSHA") sha1) else pure reply) s
        ≡ ((if b then err (no_script_error (text "EVALSHA") sha1) else ok reply), s)
  unfolding raise pure
  checked_run sha1 true reply s = refl
  checked_run sha1 false reply s = refl

  pub continue-checked :
      (sha1 : Bytes) (p : Result CmdReply × S)
      → continue p.0 (checked sha1) p.1 ≡ (scripted sha1 p.0, p.1)
  continue-checked sha1 (ok reply, s) = checked_run sha1 (is_no_script reply) reply s
  continue-checked sha1 (err e, s) = refl

  eval_sha1-OneCommand :
      (sha1 : Bytes) (r : Result (List Bytes))
      → OneCommand connection
          (received (lift r >>= λ argv. cmd_execv argv >>= λ reply. checked sha1 reply) ok)
  unfolding ◌>>=◌
  eval_sha1-OneCommand sha1 (ok argv) =
      sends argv (λ answer. decoded connection ok (scripted sha1 answer))
        (λ s. received_lem connection _ ok s ∙ rw (continue-checked sha1 (cmd_execv argv s)))
        (scripted-Relays sha1)
  eval_sha1-OneCommand sha1 (err e) = sends_nothing (err e) (λ s. received_lem connection _ ok s)

  pub ScriptMethod-OneCommand :
      {A : Type 0} {m : Exec S A} → ScriptMethod connection A m → OneCommand connection m
  unfolding Client.script_load Client.eval_sha1 Client.eval Client.command Ops.script_load
      Ops.eval_sha1 Ops.eval Ops.command ◌>>=◌
  ScriptMethod-OneCommand (Methods.script_load script) =
      sends (text "SCRIPT" ∷ text "LOAD" ∷ script ∷ []) loaded
        (λ s. continue-loaded (cmd_execv (text "SCRIPT" ∷ text "LOAD" ∷ script ∷ []) s))
        loaded-Relays
  ScriptMethod-OneCommand (Methods.eval_sha1 sha1 keys args) =
      eval_sha1-OneCommand sha1 (script_arguments (text "EVALSHA") sha1 keys args)
  ScriptMethod-OneCommand (Methods.eval script keys args) = OneCommand-received connection _ ok (
      Asks-lift connection (script_arguments (text "EVAL") script keys args) _
        (λ argv. Asks-cmd_execv connection argv))
  ScriptMethod-OneCommand (Methods.command cmd args) =
      OneCommand-received connection _ ok (Asks-cmd_execv connection _)
