-- ===== src/SyncConnection/Convert.antt =====
-- `convert_reply` and `validate_ok_reply` of src/sync_connection.cpp.
use redisdal.Prelude.{
  ℕ, zero, suc, Bool, true, false, not, ◌||◌, ◌&&◌, Option, none, some, List, [], ◌∷◌, ◌++◌, length,
  take, leb, ◌==◌, if◌then◌else◌,
}
use redisdal.Prelude.Int.{ℤ}
use redisdal.Text.{Bytes, text, same_text}
use redisdal.Errors.{runtime_error, redis_error, undefined_behaviour, Result, ok, err, ◌>>=◌}
use redisdal.Reply.{
  CmdReply, status, same_type, make_nil, make_string, make_error, make_status, make_signed_integer,
  make_array, get_type, get_string, is_error,
}
use redisdal.CmdOps.Vectors.{value_or}
use redisdal.Hiredis.{
  RedisReplyType, reply_string, reply_array, reply_integer, reply_nil, reply_status, reply_error,
  reply_other, RedisReply, redis_reply, Element, null_element, element_array, Pointers, end, null,
  pointer,
}

-- `std::string(str, len)`: undefined where the bytes behind `str` are fewer than `len`.
unfoldable pub string_from : Bytes → ℕ → Result Bytes
string_from str len = if leb len (length str) then ok (take len str) else err undefined_behaviour

-- `reply.str ? reply.str : ""`
abbrev pub or_empty : Option Bytes → Bytes
or_empty none = []
or_empty (some str) = str

abbrev is_text_type : RedisReplyType → Bool
is_text_type reply_string = true
is_text_type reply_status = true
is_text_type reply_error = true
is_text_type _ = false

abbrev is_null : Option Bytes → Bool
is_null none = true
is_null (some str) = false

-- The first test: a text without bytes and with a length.
abbrev pub is_malformed_text : RedisReplyType → Option Bytes → ℕ → Bool
is_malformed_text t str len = is_text_type t && is_null str && not (len == 0)

abbrev pub text_reply : (Bytes → CmdReply) → Option Bytes → ℕ → Result CmdReply
text_reply make str len = do s ← string_from (or_empty str) len; ok (make s)

-- The switch on the type; `items` are the converted elements.
abbrev pub by_type :
    RedisReplyType → ℤ → Option Bytes → ℕ → Result (List CmdReply) → Result CmdReply
by_type reply_string integer str len items = text_reply make_string str len
by_type reply_status integer str len items = text_reply make_status str len
by_type reply_error integer str len items = text_reply make_error str len
by_type reply_integer integer str len items = ok (make_signed_integer integer)
by_type reply_nil integer str len items = ok make_nil
by_type reply_array integer str len items = do elements ← items; ok (make_array elements)
by_type (reply_other code) integer str len items = ok (make_error (text "Unknown reply type"))

unfoldable mutual
  pub convert_reply : RedisReply → Result CmdReply
  convert_reply (redis_reply t integer str len elements element) =
      if is_malformed_text t str len
      then err (runtime_error (text "Malformed Redis text reply"))
      else by_type t integer str len (convert_element element elements)

  -- The array of a reply with `elements` elements.
  pub convert_element : Element → ℕ → Result (List CmdReply)
  convert_element null_element zero = ok []
  convert_element null_element (suc n) = err (runtime_error (text "Malformed Redis array reply"))
  convert_element (element_array pointers) n = convert_pointers pointers n

  -- The loop, with the number of rounds that are left.
  pub convert_pointers : Pointers → ℕ → Result (List CmdReply)
  convert_pointers end zero = ok []
  convert_pointers (null pointers) zero = ok []
  convert_pointers (pointer reply pointers) zero = ok []
  convert_pointers end (suc n) = err undefined_behaviour
  convert_pointers (null pointers) (suc n) = err (runtime_error (text "Null Redis array element"))
  convert_pointers (pointer reply pointers) (suc n) =
      let first = convert_reply reply in
      let rest = convert_pointers pointers n in
      first >>= λ item. rest >>= λ items. ok (item ∷ items)

abbrev pub equals_ok : Option Bytes → Bool
equals_ok none = false
equals_ok (some s) = same_text s (text "OK")

unfoldable pub validate_ok_reply : Bytes → CmdReply → Result (Unit {0})
unfolding is_error get_string get_type
validate_ok_reply command reply =
    if is_error reply
    then err (redis_error (value_or (get_string reply) (text "Unknown Redis error")))
    else if not (same_type (get_type reply) status) || not (equals_ok (get_string reply))
    then err (runtime_error (command ++ text ": expected OK"))
    else ok tt
