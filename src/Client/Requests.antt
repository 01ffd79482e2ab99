-- ===== src/Client/Requests.antt =====
-- What the methods of src/redis_client.cpp share: the chain `connection->f(...).or_throw()` with a
-- decoder behind it, the decoders that are written out in the methods, and the containers of the
-- caller that some methods fill.
use redisdal.Prelude.{
  ℕ, Bool, false, not, ◌||◌, Option, none, some, List, [], ◌∷◌, ◌++◌, length, map, ◌==◌,
  if◌then◌else◌,
}
use redisdal.Prelude.Int.{ℤ, pos, negsuc, ltb_ℤ}
use redisdal.Text.{Bytes, text, same_text}
use redisdal.Errors.{
  out_of_range, runtime_error, unexpected_reply_type_error, undefined_behaviour, Result, ok, err,
  ◌>>=◌,
}
use redisdal.Reply.{status, integer, same_type, Double, CmdReply, get_type}
use redisdal.Serialization.{DoubleChars}
use redisdal.Reply.Decode.{
  as_array, as_integer, status_is_ok, optional_string, strings, hash, StringMap, emplace_all,
  optional_score, scan_cursor, or_throw,
}
use redisdal.Exec
use redisdal.Exec.{Exec, lift}

-- `m().or_throw()`, interpreted by `decode`.
unfoldable pub received {ℓ} :
    {S : Type 0} {A : Type ℓ} → Exec S CmdReply → (CmdReply → Result A) → Exec S A
unfolding lift Exec.◌>>=◌
received m decode = Exec.◌>>=◌ m (λ reply. lift (or_throw reply >>= decode))

abbrev pub is_one : ℤ → Bool
is_one (pos n) = n == 1
is_one (negsuc n) = false

-- `reply.as_integer(command) == 1`
unfoldable pub integer_is_one : Bytes → CmdReply → Result Bool
integer_is_one command reply = do n ← as_integer reply command; ok (is_one n)

-- `reply.get_type() == reply_type::STATUS && reply.status_is_ok("SET")`
unfoldable pub set_succeeded : CmdReply → Result Bool
set_succeeded reply =
    if same_type (get_type reply) status then status_is_ok reply (text "SET") else ok false

-- `reply.get_type() == reply_type::INTEGER && reply.as_integer("HSET") >= 0`
unfoldable pub hset_succeeded : CmdReply → Result Bool
hset_succeeded reply =
    if same_type (get_type reply) integer
    then (do n ← as_integer reply (text "HSET"); ok (not (ltb_ℤ n (pos 0))))
    else ok false

abbrev pub score_or_unexpected : Option Double → Result Double
score_or_unexpected none =
    err (unexpected_reply_type_error (text "ZINCRBY") (text "string") (text "nil"))
score_or_unexpected (some score) = ok score

-- The end of `zincrby`.
unfoldable pub new_score : DoubleChars → CmdReply → Result Double
new_score chars reply = do
  score ← optional_score chars reply (text "ZINCRBY")
  score_or_unexpected score

-- `operator[]` of a vector, undefined past its end.
unfoldable pub second : List CmdReply → Result CmdReply
second (first ∷ item ∷ items) = ok item
second _ = err undefined_behaviour

-- The cursor of a scan reply and the reply of its page: `scan_cursor(command)` and then
-- `as_array(command)[1]`.
unfoldable pub scan_page : Bytes → CmdReply → Result (ℕ × CmdReply)
scan_page command reply = do
  cursor ← scan_cursor reply command
  parts ← as_array reply command
  page ← second parts
  ok (cursor, page)

-- `std::unordered_set` as its elements in some order.
unfoldable pub member : Bytes → List Bytes → Bool
member k [] = false
member k (x ∷ xs) = same_text x k || member k xs

unfoldable pub insert_all : List Bytes → List Bytes → List Bytes
unfolding member
insert_all [] set = set
insert_all (k ∷ ks) set = insert_all ks (if member k set then set else set ++ (k ∷ []))

-- `hash_map.at(k) = v`
unfoldable pub assign {ℓ} : {V : Type ℓ} → Bytes → V → List (Bytes × V) → Result (List (Bytes × V))
assign k v [] = err (out_of_range (text "map::at"))
assign k v ((j, w) ∷ m) =
    let rest = assign k v m in
    if same_text j k then ok ((j, v) ∷ m) else (do m' ← rest; ok ((j, w) ∷ m'))

-- The loop over `fields[i]` and `decoded[i]`.
unfoldable pub assign_all :
    List Bytes
    → List (Option Bytes)
    → List (Bytes × Option Bytes)
    → Result (List (Bytes × Option Bytes))
unfolding assign
assign_all fields [] m = ok m
assign_all [] (v ∷ vs) m = err undefined_behaviour
assign_all (k ∷ ks) (v ∷ vs) m = do m' ← assign k v m; assign_all ks vs m'

unfoldable pub each_optional : List CmdReply → Bytes → Result (List (Option Bytes))
each_optional [] command = ok []
each_optional (item ∷ items) command = do
  s ← optional_string item command
  rest ← each_optional items command
  ok (s ∷ rest)

-- The end of the `hget` of several fields: all values are decoded before the map is changed.
unfoldable pub field_values :
    List (Bytes × Option Bytes) → CmdReply → Result (List (Bytes × Option Bytes))
field_values hash_map reply = do
  values ← as_array reply (text "HMGET")
  if not (length values == length hash_map)
      then err (runtime_error (text "HMGET: unexpected value count"))
      else do
        decoded ← each_optional values (text "HMGET")
        assign_all (map (λ field. field.0) hash_map) decoded hash_map

-- What `keys` adds to the caller's set.
unfoldable pub found_keys : List Bytes → CmdReply → Result (List Bytes)
found_keys set reply = do values ← strings reply (text "KEYS"); ok (insert_all values set)

pub record ScanResult {ℓ} (K : Type ℓ) : Type ℓ where
  pub cursor : ℕ
  pub keys : List K

unfoldable pub scanned_keys : CmdReply → Result (ScanResult Bytes)
scanned_keys reply = do
  page ← scan_page (text "SCAN") reply
  values ← strings page.1 (text "SCAN")
  ok (record { cursor = page.0; keys = insert_all values [] })

-- The next cursor, and the caller's map with the fields that it lacked.
unfoldable pub scanned_fields : StringMap → CmdReply → Result (ℕ × StringMap)
scanned_fields hash_map reply = do
  page ← scan_page (text "HSCAN") reply
  fields ← hash page.1 (text "HSCAN")
  ok (page.0, emplace_all fields hash_map)
