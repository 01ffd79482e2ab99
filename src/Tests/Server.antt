-- ===== src/Tests/Server.antt =====
-- A server for the tests: it answers every command with the reply of a hash of one field, and its
-- context counts the commands.
use redisdal.Prelude.{ℕ, ◌+◌, false, Option, none, some, List, [], ◌∷◌, ◌≡◌, sym, ap, arith}
use redisdal.Prelude.Int.{pos}
use redisdal.Serialization.{no_error, DoubleChars}
use redisdal.Hiredis.{
  reply_string, reply_array, RedisReply, redis_reply, null_element, element_array, end, pointer,
  Hiredis,
}
use redisdal.SyncConnection.Sound.{IsSound}
use redisdal.SyncConnection.Contract.{AnswersSound}

abbrev pub text_node : List ℕ → ℕ → RedisReply
text_node bytes len = redis_reply reply_string (pos 0) (some bytes) len 0 null_element

abbrev pub hash_node : RedisReply
hash_node =
    redis_reply reply_array (pos 0) none 0 2 (
      element_array (pointer (text_node (b'f' ∷ []) 1) (pointer (text_node (b'v' ∷ 0 ∷ []) 2) end)))

abbrev pub server : Hiredis
server = record {
  Context = ℕ;
  VaList = ℕ;
  redis_connect = λ host port. some 0;
  redis_connect_unix = λ path. none;
  has_err = λ context. false;
  errstr = λ context. [];
  fd = λ context. pos 3;
  redis_command_argv = λ context args. (some hash_node, context + 1);
  redisv_command = λ context format args. (some hash_node, context + 1);
}

pub hash_node-IsSound : IsSound hash_node
unfolding IsSound
hash_node-IsSound =
    (tt, tt, omega arith, ((omega arith, tt, tt, tt), ((omega arith, tt, tt, tt), tt)))

or_node : Option RedisReply → RedisReply
or_node none = hash_node
or_node (some r) = r

pub server-AnswersSound : AnswersSound server
unfolding or_node
server-AnswersSound context args r e =
    let same : hash_node ≡ r = ap or_node e in rw (sym same) hash_node-IsSound

-- Doubles as one byte each.
abbrev pub byte_chars : DoubleChars
byte_chars = record {
  to_chars = λ d. some (d ∷ []);
  from_chars = λ s. record { ec = no_error; rest = []; value = 0 };
}
