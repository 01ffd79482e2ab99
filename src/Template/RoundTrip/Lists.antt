-- ===== src/Template/RoundTrip/Lists.antt =====
-- A typed vector pushed to a list and read from it.
use redisdal.Prelude.{
  ℕ, ◌^◌, ◌-◌, leb, inl, inr, Bool-cases, List, [], ◌∷◌, ◌++◌, append-nil, All, ◌≡◌, refl, sym, ap,
  ◌∙◌,
}
use redisdal.Prelude.Int.{ℤ, pos, negsuc}
use redisdal.Text.{Bytes, text}
use redisdal.Text.Decimal.{to_string}
use redisdal.Serialization.{DoubleChars}
use redisdal.Errors.{ok}
use redisdal.Reply.{make_integer, make_array, get_type, get_signed_integer}
use redisdal.Reply.Decode.{or_throw, as_integer}
use redisdal.Reply.RoundTrip.{string_replies, strings_lem}
use redisdal.Exec.{Executor, lift, ◌>>=◌}
use redisdal.Serializer.{Serializer, serialize_each, deserialize_each}
use redisdal.Serializer.Lossless.{Keeps, each-Keeps}
use redisdal.CmdOps.Lists as Ops
use redisdal.CmdOps.Arguments.{append_arguments}
use redisdal.Client.Lists as Client
use redisdal.Template.{RedisTemplate, serialize_key}
use redisdal.Template.Views.Lists
use redisdal.Template.Contract.{client_template}
use redisdal.Template.RoundTrip.{
  returned_then, lifted_then, received_ok, array_fine, deserialize_each-++,
}

-- Redis lists behind a connection: `content` is the list at a key, RPUSH appends, LRANGE from 0 to -1
-- answers with all of it.
pub record ListServer {S : Type 0} (connection : Executor S) (content : S → Bytes → List Bytes)
    : Type 0 where
  pub rpush :
      (key value : Bytes) (values : List Bytes) (s : S)
      → (n : ℕ) × (s' : S) × (connection.cmd_execv (text "RPUSH" ∷ key ∷ value ∷ values) s
          ≡ (ok (make_integer n), s'))
        × (content s' key ≡ content s key ++ (value ∷ values))
  pub llen :
      (key : Bytes) (s : S)
      → (n : ℕ) × (s' : S) × (connection.cmd_execv (text "LLEN" ∷ key ∷ []) s
          ≡ (ok (make_integer n), s'))
        × (content s' key ≡ content s key)
  pub lrange :
      (key : Bytes) (s : S)
      → (s' : S) × (connection.cmd_execv
            (text "LRANGE" ∷ key ∷ to_string (pos 0) ∷ to_string (negsuc 0) ∷ [])
            s
          ≡ (ok (make_array (string_replies (content s key))), s'))

integer_fine : (n : ℕ) → or_throw (make_integer n) ≡ ok (make_integer n)
unfolding or_throw make_integer
integer_fine n = refl

integer_read : (n : ℕ) (command : Bytes) → (v : ℤ) × (as_integer (make_integer n) command ≡ ok v)
unfolding as_integer make_integer get_signed_integer get_type
integer_read n command = elim (Bool-cases (leb n (2 ^ 63 - 1))) [
  | inl small ↦ (pos n, rw (small) refl)
  | inr large ↦ (negsuc (2 ^ 64 - 1 - n), rw (large) refl)
]

module _ {S : Type 0} (connection : Executor S) (content : S → Bytes → List Bytes)
    (server : ListServer connection content) where
  -- The push of the client.
  client_rpush :
      (key : Bytes) (values : List Bytes) (s : S)
      → (n : ℤ) × (s' : S) × (Client.rpush_values connection key values s ≡ (ok n, s'))
        × (content s' key ≡ content s key ++ values)
  unfolding Client.rpush_values Client.llen Ops.rpush_values Ops.llen append_arguments
  client_rpush key [] s =
      let (n, s', sent, kept) = server.llen key s in
      (
        _,
        s',
        received_ok connection _ _ sent (integer_fine n) (integer_read n _).1,
        kept ∙ sym (append-nil (content s key)),
      )
  client_rpush key (value ∷ values) s =
      let (n, s', sent, pushed) = server.rpush key value values s in
      (_, s', received_ok connection _ _ sent (integer_fine n) (integer_read n _).1, pushed)

  client_lrange :
      (key : Bytes) (s : S)
      → (s' : S) × (Client.lrange connection key (pos 0) (negsuc 0) s ≡ (ok (content s key), s'))
  unfolding Client.lrange Ops.lrange
  client_lrange key s =
      let (s', sent) = server.lrange key s in
      (
        s',
        received_ok connection _ _ sent (array_fine _)
            (strings_lem (content s key) (text "LRANGE")),
      )

module _ {S K V : Type 0} (connection : Executor S) (chars : DoubleChars)
    (key_serializer : Serializer K) (value_serializer : Serializer V)
    (content : S → Bytes → List Bytes) (server : ListServer connection content) where
  abbrev tpl : RedisTemplate S K V
  tpl = client_template connection chars key_serializer value_serializer

  push_sent :
      (key : K) (values : List V) (k : Bytes) (raw : List Bytes) (s : S)
      → key_serializer.serialize key ≡ ok k
      → serialize_each value_serializer values ≡ ok raw
      → (n : ℤ) × (s' : S) × (Lists.rpush_values tpl key values s ≡ (ok n, s'))
        × (content s' k ≡ content s k ++ raw)
  unfolding Lists.rpush_values serialize_key
  push_sent key values k raw s k_ok raw_ok =
      let (n, s', sent, pushed) = client_rpush connection content server k raw s in
      (n, s', lifted_then _ s raw_ok ∙ lifted_then _ s k_ok ∙ sent, pushed)

  range_read :
      (key : K) (values : List V) (k : Bytes) (s : S)
      → key_serializer.serialize key ≡ ok k
      → deserialize_each value_serializer (content s k) ≡ ok values
      → (Lists.lrange tpl key (pos 0) (negsuc 0) s).0 ≡ ok values
  unfolding Lists.lrange serialize_key lift
  range_read key values k s k_ok values_ok =
      let (s', sent) = client_lrange connection content server k s in
      ap (λ r. r.0) (lifted_then _ s k_ok ∙ returned_then _ _ sent) ∙ rw (values_ok) refl

  -- Values pushed with the list view of a facade over `redis_client`, and read with it from index 0 to
  -- -1, on a server whose lists behave as RPUSH, LLEN and LRANGE are documented: the read returns
  -- the typed values that the list held before, followed by the pushed values, for a key that
  -- serializes and values that their serializer keeps. The push may be empty.
  pub pushed_values_read :
      (key : K) (k : Bytes) (old values : List V) (s : S)
      → key_serializer.serialize key ≡ ok k
      → All (Keeps value_serializer) values
      → deserialize_each value_serializer (content s k) ≡ ok old
      → ((do n ← Lists.rpush_values tpl key values; Lists.lrange tpl key (pos 0) (negsuc 0)) s).0
        ≡ ok (old ++ values)
  pushed_values_read key k old values s k_ok keeps old_ok =
      let kept = each-Keeps value_serializer values keeps in
      let (n, s', sent, pushed) = push_sent key values k kept.raw s k_ok kept.serialized in
      let read : deserialize_each value_serializer (content s' k) ≡ ok (old ++ values) =
        rw
          (
            pushed,
            deserialize_each-++ value_serializer (content s k) kept.raw,
            old_ok,
            kept.deserialized,
          )
          refl in
      ap (λ r. r.0) (returned_then _ _ sent) ∙ range_read key (old ++ values) k s' k_ok read
