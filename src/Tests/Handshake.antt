-- ===== src/Tests/Handshake.antt =====
-- A connection opened to a server that accepts everything.
use redisdal.Prelude.{ℕ, ◌+◌, false, none, some, [], ◌∷◌, ◌≡◌, refl}
use redisdal.Prelude.Int.{pos}
use redisdal.Text.{text, same_text}
use redisdal.Text.Decimal.{begins_with_digit, read_digits, decimal}
use redisdal.Reply.{make_status}
use redisdal.Errors.{ok}
use redisdal.Hiredis.{reply_status, RedisReply, redis_reply, null_element, Hiredis}
use redisdal.Config.{RedisConfig, parse_redis_url}
use redisdal.SyncConnection.Transport.{sync_connection}
use redisdal.SyncConnection.Handshake.{Established, sync_connection-Accepted}

abbrev ok_node : RedisReply
ok_node = redis_reply reply_status (pos 0) (some (b'O' ∷ b'K' ∷ 0 ∷ [])) 2 0 null_element

-- The context counts the commands.
abbrev ok_server : Hiredis
ok_server = record {
  Context = ℕ;
  VaList = ℕ;
  redis_connect = λ host port. some 0;
  redis_connect_unix = λ path. none;
  has_err = λ context. false;
  errstr = λ context. [];
  fd = λ context. pos 3;
  redis_command_argv = λ context args. (some ok_node, context + 1);
  redisv_command = λ context format args. (some ok_node, context + 1);
}

opened : sync_connection ok_server (text "tcp://u:p@h:1?index=2") none ≡ (ok tt, some 2)
unfolding sync_connection text same_text begins_with_digit read_digits make_status decimal
opened = refl

-- A user, a password and an index: AUTH and SELECT.
sync_connection-Accepted_example :
    (config : RedisConfig) × (parse_redis_url (text "tcp://u:p@h:1?index=2") ≡ ok config)
    × Established ok_server config (some 2)
sync_connection-Accepted_example =
    sync_connection-Accepted ok_server (text "tcp://u:p@h:1?index=2") none (some 2) opened
