-- ===== src/Tests/Connection.antt =====
-- The connection and the client over the server of the tests.
use redisdal.Prelude.{◌≡◌, refl, take, some, [], ◌∷◌, arith}
use redisdal.Text.{text}
use redisdal.Errors.{IsDefined, ok}
use redisdal.Reply.{make_error}
use redisdal.Hiredis.{Hiredis}
use redisdal.Reply.Decode.{StringMap}
use redisdal.Reply.WellFormed.{IsWellFormed}
use redisdal.Reply.Ensures.{Ensures}
use redisdal.SyncConnection.Convert.{convert_reply}
use redisdal.SyncConnection.Sound.{convert_reply-WellFormed}
use redisdal.SyncConnection.Transport.{cmd_exec, cmd_execv, sync_executor}
use redisdal.SyncConnection.Contract.{
  error_node, server_error_returned, delivered, cmd_execv_lem, sync_executor-AnswersWellFormed,
}
use redisdal.Client.Safe.{AnswersWellFormed}
use redisdal.Client.Safe.EveryMethod.{Method-IsDefined}
use redisdal.Client.Contract.{OneCommand}
use redisdal.Client.Contract.EveryMethod.{Method-OneCommand}
use redisdal.Client.Hashes
use redisdal.Client.Methods.{hgetall, Method, on_hashes}
use redisdal.Tests.Server.{hash_node, server, hash_node-IsSound, server-AnswersSound, byte_chars}

abbrev call_hgetall :
    Method
      (sync_executor server)
      byte_chars
      StringMap
      (Hashes.hgetall (sync_executor server) (b'k' ∷ []))
call_hgetall = on_hashes (hgetall (b'k' ∷ []))

-- HGETALL of the key `k` on an open connection.
Method-IsDefined_example : IsDefined (Hashes.hgetall (sync_executor server) (b'k' ∷ []) (some 0)).0
Method-IsDefined_example =
    Method-IsDefined (sync_executor server) byte_chars
      (sync_executor-AnswersWellFormed server server-AnswersSound) call_hgetall (some 0)

-- HGETALL of the key `k`.
Method-OneCommand_example :
    OneCommand (sync_executor server) (Hashes.hgetall (sync_executor server) (b'k' ∷ []))
Method-OneCommand_example = Method-OneCommand (sync_executor server) byte_chars call_hgetall

-- The command that HGETALL sends.
cmd_execv_lem_example :
    cmd_execv server (text "HGETALL" ∷ (b'k' ∷ []) ∷ []) (some 0)
    ≡ delivered server (some hash_node, 1)
cmd_execv_lem_example =
    cmd_execv_lem server server-AnswersSound (text "HGETALL") ((b'k' ∷ []) ∷ []) 0 (omega arith)

-- All answers of the server of the tests.
sync_executor-AnswersWellFormed_example : AnswersWellFormed (sync_executor server)
sync_executor-AnswersWellFormed_example = sync_executor-AnswersWellFormed server server-AnswersSound

-- The reply of a hash of one field.
convert_reply-WellFormed_example : Ensures IsWellFormed (convert_reply hash_node)
convert_reply-WellFormed_example = convert_reply-WellFormed hash_node hash_node-IsSound

-- A server without memory for writes.
abbrev full_server : Hiredis
full_server = record server {
  redis_command_argv = λ context args. (some (error_node (text "OOM") 3), context);
  redisv_command = λ context format va. (some (error_node (text "OOM") 3), context);
}

-- The same error for a command as a vector and one with a format.
server_error_returned_example :
    (cmd_execv full_server (text "PING" ∷ []) (some 0)
      ≡ (ok (make_error (take 3 (text "OOM"))), some 0))
    × (cmd_exec full_server (text "PING") 0 (some 0)
        ≡ (ok (make_error (take 3 (text "OOM"))), some 0))
unfolding text
server_error_returned_example =
    server_error_returned full_server (text "PING") [] (text "PING") 0 0 0 0 (text "OOM") 3
      (omega arith) (omega arith) refl refl
