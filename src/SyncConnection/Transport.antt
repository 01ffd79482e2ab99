-- ===== src/SyncConnection/Transport.antt =====
-- The class `sync_connection` of src/sync_connection.cpp over the hiredis library.
use redisdal.Prelude.{
  ℕ, ◌+◌, ◌-◌, ◌^◌, not, ◌||◌, Option, none, some, List, [], ◌∷◌, ◌++◌, is_empty, length, map, take,
  ltb, leb, ◌==◌, if◌then◌else◌,
}
use redisdal.Prelude.Int.{ℤ}
use redisdal.Text.{Bytes, text}
use redisdal.Text.Decimal.{decimal}
use redisdal.Errors
use redisdal.Errors.{
  undefined_behaviour, invalid_argument, runtime_error, logic_error, length_error, redis_error,
  Result, ok, err,
}
use redisdal.Reply.{CmdReply, make_error}
use redisdal.Exec.{Exec, Executor, pure, raise, lift, ◌>>=◌}
use redisdal.Config.{RedisScheme, RedisConfig, unix, parse_redis_url}
use redisdal.Hiredis.{reply_error, RedisReply, redis_reply, Hiredis}
use redisdal.SyncConnection.Convert.{convert_reply, or_empty, string_from, validate_ok_reply}

abbrev pub int_max : ℕ
int_max = 2 ^ 31 - 1

abbrev pub no_connection {ℓ} : {A : Type ℓ} → Result A
no_connection = err (logic_error (text "Redis connection is not available"))

-- `std::string(reply->str, reply->len)` of an error reply: empty for a null `str` of no length, and
-- undefined for a null `str` of any other.
abbrev pub server_error : Option Bytes → ℕ → Result RedisReply
server_error str len = elim (string_from (or_empty str) len) [
  | ok message ↦ err (redis_error message)
  | err e ↦ err e
]

-- `if (reply->type == REDIS_REPLY_ERROR) { throw ...; } return reply;`
unfoldable pub checked_reply : RedisReply → Result RedisReply
unfolding string_from
checked_reply (redis_reply reply_error i str len n e) = server_error str len
checked_reply (redis_reply t i str len n e) = ok (redis_reply t i str len n e)

-- The `n` bytes that hiredis reads from `data()` of a string: the last that may be read is the NUL
-- behind the string.
unfoldable pub argument : Bytes → ℕ → Result Bytes
argument arg n =
    if leb n (length arg + 1) then ok (take n (arg ++ (0 ∷ []))) else err undefined_behaviour

-- The arguments that hiredis reads through the pointers and lengths.
unfoldable pub arguments : List Bytes → List ℕ → Result (List Bytes)
unfolding argument
arguments (arg ∷ argv) (n ∷ lengths) =
    let rest = arguments argv lengths in
    Errors.◌>>=◌ (argument arg n) (λ read. Errors.◌>>=◌ rest (λ reads. ok (read ∷ reads)))
arguments _ _ = ok []

-- `catch (const redis_error &error) { return cmd_reply::make_error(error.redis_message()); }`
abbrev pub caught : Result CmdReply → Result CmdReply
caught (err (redis_error message)) = ok (make_error message)
caught r = r

-- The C string of a path or a host name: the bytes before the first NUL.
unfoldable pub c_str : Bytes → Bytes
c_str [] = []
c_str (c ∷ cs) = let rest = c_str cs in if c == 0 then [] else c ∷ rest

module _ (hiredis : Hiredis) where
  open hiredis use {Context, VaList, errstr}

  -- The reply of a call, or the exception for a null pointer.
  abbrev pub received_reply : Option RedisReply × Context → Result RedisReply × Option Context
  received_reply (none, context) =
      (err (runtime_error (text "Redis command failed: " ++ errstr context)), some context)
  received_reply (some reply, context) = (checked_reply reply, some context)

  abbrev pub on_context : (Context → Option RedisReply × Context) → Exec (Option Context) RedisReply
  on_context call none = (no_connection, none)
  on_context call (some context) = received_reply (call context)

  -- The call for the arguments that were read.
  abbrev pub on_arguments : Result (List Bytes) → Exec (Option Context) RedisReply
  on_arguments args none = (no_connection, none)
  on_arguments (ok args) (some context) = received_reply (hiredis.redis_command_argv context args)
  on_arguments (err e) (some context) = (err e, some context)

  unfoldable pub execv : List Bytes → List ℕ → Exec (Option Context) RedisReply
  unfolding checked_reply arguments raise
  execv argv argv_len =
      if is_empty argv || not (length argv == length argv_len)
      then raise (invalid_argument (text "Invalid Redis command argument arrays"))
      else if ltb int_max (length argv)
      then raise (length_error (text "Too many Redis command arguments"))
      else on_arguments (arguments argv argv_len)

  unfoldable pub exec_args : List Bytes → Exec (Option Context) RedisReply
  unfolding execv raise
  exec_args args =
      if is_empty args
      then raise (invalid_argument (text "Redis command must not be empty"))
      else if ltb int_max (length args)
      then raise (length_error (text "Too many Redis command arguments"))
      else execv args (map length args)

  unfoldable pub exec_format : Bytes → VaList → Exec (Option Context) RedisReply
  unfolding checked_reply
  exec_format format args = on_context (λ context. hiredis.redisv_command context format args)

  -- The body that `cmd_exec` and `cmd_execv` share: convert the reply, and catch `redis_error`.
  abbrev pub converted : Result RedisReply × Option Context → Result CmdReply × Option Context
  converted (ok reply, s) = (caught (convert_reply reply), s)
  converted (err e, s) = (caught (err e), s)

  unfoldable pub cmd_exec : Bytes → VaList → Exec (Option Context) CmdReply
  unfolding exec_format convert_reply
  cmd_exec format args s = converted (exec_format format args s)

  unfoldable pub cmd_execv : List Bytes → Exec (Option Context) CmdReply
  unfolding exec_args convert_reply
  cmd_execv args s = converted (exec_args args s)

  -- `sync_connection` as an executor.
  abbrev pub sync_executor : Executor (Option Context)
  sync_executor = record { cmd_execv = cmd_execv }

  unfoldable pub get_fd : Exec (Option Context) ℤ
  get_fd none = (no_connection, none)
  get_fd (some context) = (ok (hiredis.fd context), some context)

  abbrev pub connect : RedisScheme → RedisConfig → Option Context
  connect unix config = hiredis.redis_connect_unix (c_str config.host)
  connect _ config = hiredis.redis_connect (c_str config.host) config.port

  -- `if (!context || context->err) { throw ...; }`, at the new context.
  abbrev pub connected : Option Context → Exec (Option Context) (Unit {0})
  connected none s =
      (err (runtime_error (text "Redis connect failed: could not allocate context")), none)
  connected (some context) s =
      if hiredis.has_err context
      then (err (runtime_error (text "Redis connect failed: " ++ errstr context)), some context)
      else (ok tt, some context)

  -- `validate_ok_reply(convert_reply(*exec_args(args)), command)`
  unfoldable pub run_ok : List Bytes → Bytes → Exec (Option Context) (Unit {0})
  unfolding exec_args convert_reply validate_ok_reply lift ◌>>=◌
  run_ok args command = do
    reply ← exec_args args
    converted ← lift (convert_reply reply)
    lift (validate_ok_reply command converted)

  unfoldable pub authenticate : RedisConfig → Exec (Option Context) (Unit {0})
  unfolding run_ok pure
  authenticate config =
      if is_empty config.password
      then pure tt
      else if not (is_empty config.username)
      then run_ok (text "AUTH" ∷ config.username ∷ config.password ∷ []) (text "AUTH")
      else run_ok (text "AUTH" ∷ config.password ∷ []) (text "AUTH")

  unfoldable pub select_index : RedisConfig → Exec (Option Context) (Unit {0})
  unfolding run_ok pure
  select_index config =
      if config.index == 0
      then pure tt
      else run_ok (text "SELECT" ∷ decimal config.index ∷ []) (text "SELECT")

  -- The constructor, from a null context.
  unfoldable pub sync_connection : Bytes → Exec (Option Context) (Unit {0})
  unfolding parse_redis_url c_str authenticate select_index lift ◌>>=◌
  sync_connection url = do
    config ← lift (parse_redis_url url)
    opened ← connected (connect config.scheme config)
    authenticated ← authenticate config
    select_index config
