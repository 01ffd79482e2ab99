-- ===== src/Hiredis.antt =====
-- What src/sync_connection.cpp uses of the hiredis C library: its reply structure, and its calls
-- as a parameter.
use redisdal.Prelude.{ℕ, Bool, Option, List}
use redisdal.Prelude.Int.{ℤ}
use redisdal.Text.{Bytes}

-- The reply type codes that the code tests, and any other.
pub data RedisReplyType : Type 0 where
  reply_string reply_array reply_integer reply_nil reply_status reply_error : RedisReplyType
  reply_other : (code : ℕ) → RedisReplyType

-- `struct redisReply`, with the members that are read: type, integer, str and the bytes behind it,
-- len, elements, element. A pointer may be null: `str`, `element`, and each element.
mutual
  pub data RedisReply : Type 0 where
    redis_reply : RedisReplyType → ℤ → Option Bytes → ℕ → ℕ → Element → RedisReply

  pub data Element : Type 0 where
    null_element : Element
    element_array : Pointers → Element

  pub data Pointers : Type 0 where
    end : Pointers
    null : Pointers → Pointers
    pointer : RedisReply → Pointers → Pointers

-- The library. A context stands for the connection with the server behind it, so that a command
-- depends on the context, and returns the context as it is after the command.
pub record Hiredis : Type 1 where
  pub Context : Type 0
  pub VaList : Type 0
  pub redis_connect : Bytes → ℕ → Option Context
  pub redis_connect_unix : Bytes → Option Context
  pub has_err : Context → Bool
  pub errstr : Context → Bytes
  pub fd : Context → ℤ
  pub redis_command_argv : Context → List Bytes → Option RedisReply × Context
  pub redisv_command : Context → Bytes → VaList → Option RedisReply × Context
