-- ===== src/Tests/Collected.antt =====
-- Replies for a hash and for a scan, at the typed facade.
use redisdal.Prelude.{ℕ, ◌+◌, ◌||◌, Bool, true, false, List, [], ◌∷◌, ◌≡◌, refl}
use redisdal.Text.{Bytes, text, same_text}
use redisdal.Text.Decimal.{begins_with_digit, read_digits}
use redisdal.Errors.{ok}
use redisdal.Reply.{CmdReply, make_string, make_array, is_nil}
use redisdal.Reply.RoundTrip.{string_replies}
use redisdal.Exec.{Executor}
use redisdal.Reply.Decode.{
  or_throw, hash, as_array, each_pair, as_string, emplace_all, scan_cursor, strings, each_string,
}
use redisdal.Serialization.{from_string, from_string_bool}
use redisdal.CmdOps.Hashes as Ops
use redisdal.CmdOps.Keys as OpsKeys
use redisdal.Client.Hashes as Client
use redisdal.Client.Keys as ClientKeys
use redisdal.Client.Requests.{
  ScanResult, received, scanned_keys, scan_page, second, scanned_fields, found_keys, insert_all,
  member,
}
use redisdal.Containers.{bytes_eq, has_element, lookup}
use redisdal.Serializer.{string_serializer, bool_serializer, deserialize_each, deserialize_pairs}
use redisdal.Template.{RedisTemplate, scan, keys}
use redisdal.Template.Views.Hashes
use redisdal.Template.Contract.{client_template}
use redisdal.Template.Caller.{fields_of}
use redisdal.Template.Caller.Distinct.{IsDistinct}
use redisdal.Template.Caller.Collected.{hgetall_lem, hscan_lem}
use redisdal.Template.Caller.Scanned.{scan_lem, keys_lem}
use redisdal.Tests.Server.{byte_chars}

-- Every command has the same answer; the state counts them.
abbrev answering : CmdReply → Executor ℕ
answering reply = record { cmd_execv = λ argv n. (ok reply, n + 1) }

abbrev flags : RedisTemplate ℕ Bytes Bool
flags =
    client_template
      (answering
        (make_array (string_replies ((b'f' ∷ []) ∷ (b'1' ∷ []) ∷ (b'g' ∷ []) ∷ (b'0' ∷ []) ∷ []))))
      byte_chars string_serializer bool_serializer

abbrev raw_flags : List (Bytes × Bytes)
raw_flags = ((b'f' ∷ []), (b'1' ∷ [])) ∷ ((b'g' ∷ []), (b'0' ∷ [])) ∷ []

abbrev all_flags : List (Bytes × Bool)
all_flags = ((b'f' ∷ []), true) ∷ ((b'g' ∷ []), false) ∷ []

answered : flags.connection.hgetall (b'k' ∷ []) 0 ≡ (ok raw_flags, 1)
unfolding text Client.hgetall received Ops.hgetall or_throw make_array hash as_array each_pair
    as_string make_string emplace_all same_text
answered = refl

decoded : deserialize_pairs string_serializer bool_serializer raw_flags ≡ ok all_flags
unfolding deserialize_pairs string_serializer bool_serializer from_string_bool same_text text
decoded = refl

-- Two flags.
hgetall_lem_example :
    (m : List (Bytes × Bool)) × (Hashes.hgetall flags (b'k' ∷ []) 0 ≡ (ok m, 1))
    × ((field : Bytes) → lookup field m ≡ lookup field all_flags)
    × IsDistinct (fields_of m)
unfolding string_serializer
hgetall_lem_example =
    hgetall_lem flags (b'k' ∷ []) (b'k' ∷ []) raw_flags all_flags 0 1 refl answered decoded

abbrev pages : RedisTemplate ℕ Bytes Bool
pages =
    client_template
      (answering (
        make_array (
          make_string (text "7")
          ∷ make_array (string_replies ((b'a' ∷ []) ∷ (b'b' ∷ []) ∷ (b'a' ∷ []) ∷ []))
          ∷ [])))
      byte_chars string_serializer bool_serializer

abbrev page : ScanResult Bytes
page = record { cursor = 7; keys = (b'a' ∷ []) ∷ (b'b' ∷ []) ∷ [] }

scanned : pages.connection.scan 0 (text "*") 10 0 ≡ (ok page, 1)
unfolding text ClientKeys.scan received OpsKeys.scan or_throw make_array scanned_keys scan_page
    scan_cursor as_array as_string make_string from_string begins_with_digit read_digits second
    strings is_nil insert_all member each_string same_text
scanned = refl

page_keys : deserialize_each string_serializer page.keys ≡ ok page.keys
unfolding deserialize_each string_serializer
page_keys = refl

-- A page with two keys.
scan_lem_example :
    (keys : List Bytes) × (scan pages 0 (text "*") 10 0
      ≡ (ok (record { cursor = 7; keys = keys }), 1))
    × ((key : Bytes) → has_element key keys ≡ has_element key page.keys)
    × IsDistinct keys
scan_lem_example = scan_lem pages 0 (text "*") 10 page page.keys 0 1 scanned page_keys

abbrev hash_pages : RedisTemplate ℕ Bytes Bool
hash_pages =
    client_template
      (answering (
        make_array (
          make_string (text "7")
          ∷ make_array (string_replies ((b'f' ∷ []) ∷ (b'1' ∷ []) ∷ (b'g' ∷ []) ∷ (b'0' ∷ []) ∷ []))
          ∷ [])))
      byte_chars string_serializer bool_serializer

hash_page : hash_pages.connection.hscan (b'k' ∷ []) 0 (text "*") 10 [] 0 ≡ (ok (7, raw_flags), 1)
unfolding text Client.hscan received Ops.hscan or_throw make_array scanned_fields scan_page
    scan_cursor as_array as_string make_string from_string begins_with_digit read_digits second hash
    each_pair emplace_all same_text
hash_page = refl

-- A page read into a map that holds another field.
hscan_lem_example :
    (m : List (Bytes × Bool)) × (Hashes.hscan hash_pages
        (b'k' ∷ [])
        0
        (text "*")
        10
        (record { state = 0; local = ((b'h' ∷ []), true) ∷ [] })
      ≡ (ok 7, record { state = 1; local = m }))
    × ((field : Bytes) → lookup field m ≡ lookup field all_flags)
unfolding string_serializer
hscan_lem_example =
    hscan_lem hash_pages (b'k' ∷ []) 0 (text "*") 10 (b'k' ∷ []) (text "*") 7 raw_flags all_flags
      (record { state = 0; local = ((b'h' ∷ []), true) ∷ [] }) 1 refl refl hash_page decoded

abbrev two_keys : RedisTemplate ℕ Bytes Bool
two_keys =
    client_template (answering (make_array (string_replies ((b'a' ∷ []) ∷ (b'b' ∷ []) ∷ []))))
      byte_chars string_serializer bool_serializer

listed : two_keys.connection.keys (text "*") [] 0 ≡ (ok ((b'a' ∷ []) ∷ (b'b' ∷ []) ∷ []), 1)
unfolding text ClientKeys.keys received OpsKeys.keys or_throw make_array found_keys strings is_nil
    as_array each_string as_string make_string insert_all same_text
listed = refl

-- Keys put into a set that holds one of them.
keys_lem_example :
    (set : List Bytes) × (keys two_keys (text "*") (record { state = 0; local = (b'b' ∷ []) ∷ [] })
      ≡ (ok tt, record { state = 1; local = set }))
    × ((key : Bytes)
        → has_element key set ≡ (
            has_element key ((b'b' ∷ []) ∷ []) || has_element key ((b'a' ∷ []) ∷ (b'b' ∷ []) ∷ [])))
keys_lem_example =
    keys_lem two_keys (text "*") ((b'a' ∷ []) ∷ (b'b' ∷ []) ∷ []) ((b'a' ∷ []) ∷ (b'b' ∷ []) ∷ [])
      (record { state = 0; local = (b'b' ∷ []) ∷ [] }) 1 listed page_keys
