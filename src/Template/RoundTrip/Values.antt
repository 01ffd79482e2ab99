-- ===== src/Template/RoundTrip/Values.antt =====
-- A typed value that is set at a key and read from it.
use redisdal.Prelude.{true, Option, none, some, [], ◌∷◌, ◌≡◌, refl, ap, ◌∙◌}
use redisdal.Text.{Bytes, text, same_text}
use redisdal.Serialization.{DoubleChars}
use redisdal.Errors.{ok}
use redisdal.Reply.{CmdReply, make_nil, make_status, make_string, get_type, get_string, is_nil}
use redisdal.Reply.Decode.{or_throw, as_string, as_status, status_is_ok, optional_string}
use redisdal.Exec.{Executor, lift, ◌>>=◌}
use redisdal.Serializer.{Serializer, deserialize_optional}
use redisdal.Serializer.Lossless.{Keeps}
use redisdal.CmdOps.Strings as Ops
use redisdal.Client.Strings as Client
use redisdal.Client.Requests.{set_succeeded}
use redisdal.Template.{RedisTemplate, serialize_key, serialize_value}
use redisdal.Template.Views.Values
use redisdal.Template.Contract.{client_template}
use redisdal.Template.RoundTrip.{returned_then, lifted_then, received_ok}

-- How GET answers for a key.
unfoldable pub value_reply : Option Bytes → CmdReply
value_reply none = make_nil
value_reply (some value) = make_string value

-- Redis strings behind a connection: `content` is the string at a key, if there is one.
pub record StringServer {S : Type 0} (connection : Executor S) (content : S → Bytes → Option Bytes)
    : Type 0 where
  pub set :
      (key value : Bytes) (s : S)
      → (s' : S) × (connection.cmd_execv (text "SET" ∷ key ∷ value ∷ []) s
          ≡ (ok (make_status (text "OK")), s'))
        × (content s' key ≡ some value)
  pub get :
      (key : Bytes) (s : S)
      → (s' : S) × (connection.cmd_execv (text "GET" ∷ key ∷ []) s
          ≡ (ok (value_reply (content s key)), s'))

set_ok :
    (or_throw (make_status (text "OK")) ≡ ok (make_status (text "OK")))
    × (set_succeeded (make_status (text "OK")) ≡ ok true)
unfolding or_throw make_status set_succeeded status_is_ok as_status get_type get_string same_text
    text
set_ok = (refl, refl)

value_read :
    (value : Option Bytes)
    → (or_throw (value_reply value) ≡ ok (value_reply value))
      × (optional_string (value_reply value) (text "GET") ≡ ok value)
unfolding or_throw value_reply make_nil make_string optional_string as_string is_nil get_type
    get_string
value_read none = (refl, refl)
value_read (some value) = (refl, refl)

module _ {S K V : Type 0} (connection : Executor S) (chars : DoubleChars)
    (key_serializer : Serializer K) (value_serializer : Serializer V)
    (content : S → Bytes → Option Bytes) (server : StringServer connection content) where
  abbrev tpl : RedisTemplate S K V
  tpl = client_template connection chars key_serializer value_serializer

  set_sent :
      (key : K) (value : V) (k v : Bytes) (s : S)
      → key_serializer.serialize key ≡ ok k
      → value_serializer.serialize value ≡ ok v
      → (s' : S) × (Values.set tpl key value s ≡ (ok true, s')) × (content s' k ≡ some v)
  unfolding Values.set serialize_key serialize_value Client.set Ops.set
  set_sent key value k v s k_ok v_ok =
      let (s', sent, stored) = server.set k v s in
      (
        s',
        lifted_then _ s k_ok
            ∙ lifted_then _ s v_ok
            ∙ received_ok connection _ _ sent set_ok.0 set_ok.1,
        stored,
      )

  value_got :
      (key : K) (k : Bytes) (value : Option V) (s : S)
      → key_serializer.serialize key ≡ ok k
      → deserialize_optional value_serializer (content s k) ≡ ok value
      → (Values.get tpl key s).0 ≡ ok value
  unfolding Values.get serialize_key Client.get Ops.get lift
  value_got key k value s k_ok value_ok =
      let (s', sent) = server.get k s in
      let (fine, read) = value_read (content s k) in
      ap (λ r. r.0)
        (lifted_then _ s k_ok ∙ returned_then _ _ (received_ok connection _ _ sent fine read))
      ∙ rw (value_ok) refl

  -- A value set with the string view of a facade over `redis_client`, and read with it, on a server
  -- whose strings behave as SET and GET are documented: the read returns the value, if the key
  -- serializes and the value's serializer keeps it.
  pub set_value_read :
      (key : K) (k : Bytes) (value : V) (s : S)
      → key_serializer.serialize key ≡ ok k
      → Keeps value_serializer value
      → ((do done ← Values.set tpl key value; Values.get tpl key) s).0 ≡ ok (some value)
  unfolding deserialize_optional
  set_value_read key k value s k_ok kept =
      let (s', sent, stored) = set_sent key value k kept.bytes s k_ok kept.serialized in
      ap (λ r. r.0) (returned_then _ _ sent)
      ∙ value_got key k (some value) s' k_ok (rw (stored, kept.deserialized) refl)
