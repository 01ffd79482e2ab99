-- ===== src/SyncConnection/Contract.antt =====
-- The contract of the executor at `sync_connection`: its arguments, the errors of the server, and the
-- failures of the transport.
use redisdal.Prelude.{
  ℕ, suc, ◌+◌, leb, ◌≤◌, true, false, Option, none, some, List, [], ◌∷◌, ◌++◌, ◌≡◌, inl, inr, refl,
  ap, arith, length, take, map, ltb, ◌==◌, Bool-cases, length-map, take-append,
}
use redisdal.Text.{Bytes, text}
use redisdal.Errors.{redis_error, runtime_error, Result, ok, err}
use redisdal.Reply.{CmdReply, make_error}
use redisdal.Reply.WellFormed.{IsWellFormed}
use redisdal.Reply.Ensures.{Ensures, ensures_err}
use redisdal.Prelude.Int.{ℤ, pos}
use redisdal.Hiredis.{Element, null_element, reply_error, RedisReply, redis_reply, Hiredis}
use redisdal.SyncConnection.Convert.{convert_reply, string_from}
use redisdal.SyncConnection.Sound.{
  IsSound, convert_reply-WellFormed, IsPlain, convert_reply-IsPlain,
}
use redisdal.SyncConnection.Transport.{
  exec_format, cmd_exec, int_max, checked_reply, arguments, caught, execv, exec_args, cmd_execv,
  converted, received_reply, sync_executor, argument,
}
use redisdal.Client.Safe.{AnswersWellFormed}

argument-length : (arg : Bytes) → argument arg (length arg) ≡ ok arg
unfolding argument
argument-length arg = rw (fits, take-append arg (0 ∷ [])) refl
  where
    fits : leb (length arg) (length arg + 1) ≡ true
    fits = ground arith

-- The pointers and lengths of the arguments stand for the arguments, whatever bytes they hold.
arguments-length : (args : List Bytes) → arguments args (map length args) ≡ ok args
unfolding arguments
arguments-length [] = refl
arguments-length (arg ∷ args) = rw (argument-length arg, arguments-length args) refl

-- Where nothing is thrown as `redis_error`, the handler changes nothing.
caught_plain : (r : Result CmdReply) → IsPlain r → caught r ≡ r
caught_plain (err (redis_error message)) h = absurd h
caught_plain (ok reply) h = refl
caught_plain (err _) h = refl

same_length : (args : List Bytes) → (suc (length args) == suc (length (map length args))) ≡ true
same_length args = ground (arith, length-map length args)

module _ (hiredis : Hiredis) where
  open hiredis use {Context, errstr, redis_command_argv}

  -- What comes of a call: the reply converted, or an exception for a null pointer.
  abbrev pub delivered : Option RedisReply × Context → Result CmdReply × Option Context
  delivered (none, context) =
      (err (runtime_error (text "Redis command failed: " ++ errstr context)), some context)
  delivered (some reply, context) = (convert_reply reply, some context)

  -- Throwing an error reply and catching it comes to converting it.
  converted_error :
      (i : ℤ) (str : Option Bytes) (len n : ℕ) (e : Element) (s : Option Context)
      → IsSound (redis_reply reply_error i str len n e)
      → converted hiredis (checked_reply (redis_reply reply_error i str len n e), s)
        ≡ (convert_reply (redis_reply reply_error i str len n e), s)
  unfolding checked_reply convert_reply IsSound
  converted_error i none len n e s h = ground arith
  converted_error i (some str) len n e s h = ground arith

  converted_reply :
      (r : RedisReply) (s : Option Context)
      → IsSound r
      → converted hiredis (checked_reply r, s) ≡ (convert_reply r, s)
  unfolding checked_reply
  converted_reply (redis_reply reply_error i str len n e) s h = converted_error i str len n e s h
  converted_reply (redis_reply t i str len n e) s h =
      ap (λ (r : Result CmdReply). (r, s))
        (caught_plain _ (convert_reply-IsPlain (redis_reply t i str len n e)))

  converted-delivered :
      (call : Option RedisReply × Context)
      → ((r : RedisReply) → call.0 ≡ some r → IsSound r)
      → converted hiredis (received_reply hiredis call) ≡ delivered call
  converted-delivered (none, context) h = refl
  converted-delivered (some reply, context) h = converted_reply reply (some context) (h reply refl)

  -- hiredis answers every command with a sound reply tree, if any.
  abbrev pub AnswersSound : Type 0
  AnswersSound =
      (context : Context) (args : List Bytes) (r : RedisReply)
      → (redis_command_argv context args).0 ≡ some r
      → IsSound r

  -- On a connection, `cmd_execv` of one to INT_MAX arguments calls hiredis once, with exactly these
  -- arguments, and leaves the context of that call. Its result is the conversion of the reply,
  -- error replies included, or the exception for a null reply.
  pub cmd_execv_lem :
      AnswersSound
      → (arg : Bytes) (args : List Bytes) (context : Context) → length (arg ∷ args) ≤ int_max
      → cmd_execv hiredis (arg ∷ args) (some context)
        ≡ delivered (redis_command_argv context (arg ∷ args))
  unfolding cmd_execv exec_args execv
  cmd_execv_lem sound arg args context h =
      rw (not_too_many, same_length args, arguments-length (arg ∷ args))
        (converted-delivered _ (sound context (arg ∷ args)))
    where
      not_too_many : ltb int_max (suc (length args)) ≡ false
      not_too_many = ground arith

  result-delivered :
      (call : Option RedisReply × Context)
      → ((r : RedisReply) → call.0 ≡ some r → IsSound r)
      → Ensures IsWellFormed (delivered call).0
  result-delivered (none, context) h = ensures_err _ tt
  result-delivered (some reply, context) h = convert_reply-WellFormed reply (h reply refl)

  -- Over a hiredis that answers with sound reply trees, `sync_connection` answers every command, in
  -- every state, a null context among them, with a well-formed reply or an exception.
  pub sync_executor-AnswersWellFormed : AnswersSound → AnswersWellFormed (sync_executor hiredis)
  unfolding cmd_execv exec_args execv
  sync_executor-AnswersWellFormed sound [] s = ensures_err _ tt
  sync_executor-AnswersWellFormed sound (arg ∷ args) s =
      elim (Bool-cases (ltb int_max (suc (length args)))) [
        | inl many ↦ rw (many, cmd_execv, exec_args) (ensures_err _ tt)
        | inr few ↦ few_arguments s few
      ]
    where
      few_arguments :
          (s : Option Context)
          → ltb int_max (suc (length args)) ≡ false
          → Ensures IsWellFormed (cmd_execv hiredis (arg ∷ args) s).0
      few_arguments none few =
          rw (few, cmd_execv, exec_args, execv, same_length args) (ensures_err _ tt)
      few_arguments (some context) few =
          rw (cmd_execv_lem sound arg args context (ground arith))
            (result-delivered _ (sound context (arg ∷ args)))

-- An error reply with the bytes `str`.
abbrev pub error_node : Bytes → ℕ → RedisReply
error_node str len = redis_reply reply_error (pos 0) (some str) len 0 null_element

module _ (hiredis : Hiredis) where
  open hiredis use {Context, VaList, redis_command_argv, redisv_command}

  error_converted :
      (str : Bytes) (len : ℕ) (s : Option Context)
      → len ≤ length str
      → converted hiredis (checked_reply (error_node str len), s)
        ≡ (ok (make_error (take len str)), s)
  unfolding checked_reply string_from
  error_converted str len s h = ground arith

  -- Where hiredis answers with an error reply, `cmd_execv` of one to INT_MAX arguments, and likewise
  -- `cmd_exec`, returns an error reply with exactly the bytes of the server's message, and leaves the
  -- context of the call.
  pub server_error_returned :
      (arg : Bytes) (args : List Bytes) (format : Bytes) (va : VaList)
      (context sent formatted : Context) (str : Bytes) (len : ℕ)
      → length (arg ∷ args) ≤ int_max
      → len ≤ length str
      → redis_command_argv context (arg ∷ args) ≡ (some (error_node str len), sent)
      → redisv_command context format va ≡ (some (error_node str len), formatted)
      → (cmd_execv hiredis (arg ∷ args) (some context)
          ≡ (ok (make_error (take len str)), some sent))
        × (cmd_exec hiredis format va (some context)
            ≡ (ok (make_error (take len str)), some formatted))
  unfolding cmd_execv cmd_exec exec_args execv exec_format
  server_error_returned arg args format va context sent formatted str len few fits answer answer' =
      (
        rw (not_too_many, same_length args, arguments-length (arg ∷ args), answer)
            (error_converted str len (some sent) fits),
        rw (answer') (error_converted str len (some formatted) fits),
      )
    where
      not_too_many : ltb int_max (suc (length args)) ≡ false
      not_too_many = ground arith
