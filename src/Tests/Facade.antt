-- ===== src/Tests/Facade.antt =====
-- The typed facade over the servers of the tests.
use redisdal.Prelude.{ℕ, Bool, true, false, Option, none, some, List, [], ◌∷◌, ◌≡◌, refl, arith}
use redisdal.Prelude.Int.{pos, negsuc}
use redisdal.Text.{Bytes, text, same_text}
use redisdal.Errors.{ok, IsDefined}
use redisdal.Reply.Decode.{find}
use redisdal.Exec.{lift, pure, ◌>>=◌}
use redisdal.Local.{on_state, get_local, set_local}
use redisdal.Local.Maintains.{Maintains, Anything}
use redisdal.Containers.{bytes_eq}
use redisdal.Serializer.{string_serializer, bool_serializer, serialize_each, deserialize_each}
use redisdal.Serializer.Lossless.{bool-Keeps}
use redisdal.KvConnection.FromClient.{client_connection}
use redisdal.Client.Contract.{OneCommand}
use redisdal.Template.{RedisTemplate, string_redis_template}
use redisdal.Template.Facade.{ops_for_value, ops_for_list, ops_for_set, ops_for_stream}
use redisdal.Template.Views.Values
use redisdal.Template.Views.Lists
use redisdal.Template.Views.Hashes
use redisdal.Template.Methods
use redisdal.Template.Methods.{on_hashes}
use redisdal.Template.Contract.{client_template}
use redisdal.Template.Contract.EveryMethod.{TypedMethod-OneCommand}
use redisdal.Template.Strings.Values.{connection_value_operations}
use redisdal.Template.Strings.Lists.{connection_list_operations}
use redisdal.Template.Strings.Sets.{connection_set_operations}
use redisdal.Template.Strings.Streams.{connection_stream_operations}
use redisdal.Template.Strings.Views.{string_views_same}
use redisdal.Template.RoundTrip.Lists.{pushed_values_read}
use redisdal.Template.RoundTrip.Values.{set_value_read}
use redisdal.Template.Caller.{fields_of, hget_map_keeps_fields}
use redisdal.Template.Scripts.{TemplateState, remember, script_load, eval_sha1}
use redisdal.Template.Scripts.Cache.{IsSound}
use redisdal.Template.Scripts.Runs.{Run, done, then, loads, elsewhere, cache_always-IsSound}
use redisdal.Template.Scripts.Recovery.{run_or_load, eval_sha1-run_or_load}
use redisdal.Template.Scripts.Server.{client-LoadsBy, script_recovered}
use redisdal.Template.Scripts.RedisScripts.{returns}
use redisdal.Reply.{make_string, get_type}
use redisdal.Serialization.{to_string_bool}
use redisdal.Reply.Decode.{emplace}
use redisdal.CmdOps.Vectors.{loaded_sha}
use redisdal.CmdOps.Scripts as Ops
use redisdal.Client.Scripts as Client
use redisdal.SyncConnection.Transport.{sync_executor}
use redisdal.SyncConnection.Contract.{sync_executor-AnswersWellFormed}
use redisdal.Serializer.Defined.{string-Proper}
use redisdal.Template.Safe.EveryMethod.{TypedMethod-IsDefined}
use redisdal.Tests.Server.{server, server-AnswersSound, byte_chars}
use redisdal.Tests.Stores.{
  list_store, list_store-ListServer, string_store, string_store-StringServer, test_sha,
  script_store, script_store-ScriptServer,
}

abbrev flags : RedisTemplate (List Bytes) Bytes Bool
flags = client_template list_store byte_chars string_serializer bool_serializer

-- HGETALL of the key `k`, with boolean values.
TypedMethod-OneCommand_example : OneCommand list_store (Hashes.hgetall flags (b'k' ∷ []))
TypedMethod-OneCommand_example =
    TypedMethod-OneCommand list_store byte_chars string_serializer bool_serializer
      (on_hashes (Methods.hgetall (b'k' ∷ [])))

-- A flag pushed to an empty list, and read.
pushed_values_read_example :
    ((do
      n ← Lists.rpush_values flags (b'k' ∷ []) (true ∷ false ∷ [])
      Lists.lrange flags (b'k' ∷ []) (pos 0) (negsuc 0))
      []).0
    ≡ ok (true ∷ false ∷ [])
unfolding string_serializer deserialize_each
pushed_values_read_example =
    pushed_values_read list_store byte_chars string_serializer bool_serializer (λ held key. held)
      list_store-ListServer (b'k' ∷ []) (b'k' ∷ []) [] (true ∷ false ∷ []) [] refl
      (bool-Keeps true, (bool-Keeps false, tt)) refl

abbrev one_flag : RedisTemplate (Option Bytes) Bytes Bool
one_flag = client_template string_store byte_chars string_serializer bool_serializer

-- A flag set where nothing was, and read.
set_value_read_example :
    ((do set ← Values.set one_flag (b'k' ∷ []) true; Values.get one_flag (b'k' ∷ [])) none).0
    ≡ ok (some true)
unfolding string_serializer
set_value_read_example =
    set_value_read string_store byte_chars string_serializer bool_serializer (λ held key. held)
      string_store-StringServer (b'k' ∷ []) (b'k' ∷ []) true none refl (bool-Keeps true)

-- The connection to the server with a list.
string_views_same_example :
    (ops_for_value (string_redis_template (client_connection list_store byte_chars))
      ≡ connection_value_operations (client_connection list_store byte_chars))
    × (ops_for_list (string_redis_template (client_connection list_store byte_chars))
        ≡ connection_list_operations (client_connection list_store byte_chars))
    × (ops_for_set (string_redis_template (client_connection list_store byte_chars))
        ≡ connection_set_operations (client_connection list_store byte_chars))
    × (ops_for_stream (string_redis_template (client_connection list_store byte_chars))
        ≡ connection_stream_operations (client_connection list_store byte_chars))
string_views_same_example = string_views_same (client_connection list_store byte_chars)

-- A map with the field `f`.
hget_map_keeps_fields_example :
    Maintains (λ m. fields_of m ≡ ((b'f' ∷ []) ∷ [])) Anything (Hashes.hget_map flags (b'k' ∷ []))
hget_map_keeps_fields_example = hget_map_keeps_fields flags ((b'f' ∷ []) ∷ []) (b'k' ∷ [])

abbrev scripts : RedisTemplate (List Bytes) Bytes Bool
scripts = client_template script_store byte_chars string_serializer bool_serializer

abbrev fresh : TemplateState (List Bytes)
fresh = record { state = []; local = [] }

-- The state after a load, and after a restart of the server without its scripts.
abbrev restarted : TemplateState (List Bytes)
restarted = record {
  state = [];
  local = (script_load scripts.connection (b'x' ∷ []) fresh).1.local;
}

restarted-Run : Run scripts fresh restarted
restarted-Run = then (then (done fresh) (loads (b'x' ∷ []) fresh)) (elsewhere _ [])

cache_always-IsSound_example : IsSound test_sha restarted.local
cache_always-IsSound_example =
    cache_always-IsSound scripts test_sha
      (client-LoadsBy script_store byte_chars script_store-ScriptServer) [] restarted restarted-Run

cached : find (b's' ∷ b'x' ∷ []) restarted.local ≡ some (b'x' ∷ [])
unfolding script_load Client.script_load Ops.script_load ◌>>=◌ lift pure loaded_sha remember
    get_local set_local emplace find on_state make_string same_text text get_type to_string_bool
cached = refl

-- The script that the server lost in the restart: it is loaded, run once, and returns its argument.
script_recovered_example :
    eval_sha1 scripts (b's' ∷ b'x' ∷ []) ((b'k' ∷ []) ∷ []) (true ∷ []) restarted ≡ (
      ok (make_string (text "true")),
      record restarted { state = (b's' ∷ b'x' ∷ []) ∷ (b's' ∷ b'x' ∷ []) ∷ [] },
    )
unfolding serialize_each string_serializer bool_serializer make_string same_text text get_type
    to_string_bool
script_recovered_example =
    script_recovered script_store byte_chars string_serializer bool_serializer
      script_store-ScriptServer [] restarted restarted-Run (b's' ∷ b'x' ∷ []) (b'x' ∷ [])
      ((b'k' ∷ []) ∷ []) (true ∷ []) ((b'k' ∷ []) ∷ []) _ refl refl (omega arith) cached refl
      (ok (make_string (text "true"))) (returns (make_string (text "true")) refl)

-- The same call, and what it does without the cache.
eval_sha1-run_or_load_example :
    eval_sha1 scripts (b's' ∷ b'x' ∷ []) [] [] restarted
    ≡ on_state
        (do
          s_keys ← lift (serialize_each string_serializer [])
          s_args ← lift (serialize_each bool_serializer [])
          run_or_load scripts.connection (b'x' ∷ []) (b's' ∷ b'x' ∷ []) s_keys s_args)
        restarted
eval_sha1-run_or_load_example =
    eval_sha1-run_or_load scripts (client-LoadsBy script_store byte_chars script_store-ScriptServer)
      (b's' ∷ b'x' ∷ []) (b'x' ∷ []) [] [] restarted cache_always-IsSound_example cached

abbrev string_facade : RedisTemplate (Option ℕ) Bytes Bytes
string_facade =
    client_template (sync_executor server) byte_chars string_serializer string_serializer

-- HGETALL of the key `k` over the hiredis of the tests, on an open connection.
TypedMethod-IsDefined_example : IsDefined (Hashes.hgetall string_facade (b'k' ∷ []) (some 0)).0
TypedMethod-IsDefined_example =
    TypedMethod-IsDefined (sync_executor server) byte_chars
      (sync_executor-AnswersWellFormed server server-AnswersSound) string_serializer
      string_serializer string-Proper string-Proper (on_hashes (Methods.hgetall (b'k' ∷ [])))
      (some 0)
