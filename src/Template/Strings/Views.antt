-- ===== src/Template/Strings/Views.antt =====
-- The views of `string_redis_template` and the methods of its connection.
use redisdal.Prelude.{◌≡◌}
use redisdal.KvConnection.{KvConnection}
use redisdal.Template.{string_redis_template}
use redisdal.Template.Facade.{ops_for_value, ops_for_list, ops_for_set, ops_for_stream}
use redisdal.Template.Strings.Values.{connection_value_operations, ops_for_value_same}
use redisdal.Template.Strings.Lists.{connection_list_operations, ops_for_list_same}
use redisdal.Template.Strings.Sets.{connection_set_operations, ops_for_set_same}
use redisdal.Template.Strings.Streams.{connection_stream_operations, ops_for_stream_same}

module _ {S : Type 0} (connection : KvConnection S) where
  -- The string, list, set and stream views of `string_redis_template` are, method by method, the
  -- methods of its connection.
  pub string_views_same :
      (ops_for_value (string_redis_template connection) ≡ connection_value_operations connection)
      × (ops_for_list (string_redis_template connection) ≡ connection_list_operations connection)
      × (ops_for_set (string_redis_template connection) ≡ connection_set_operations connection)
      × (ops_for_stream (string_redis_template connection)
          ≡ connection_stream_operations connection)
  string_views_same = (
    ops_for_value_same connection,
    ops_for_list_same connection,
    ops_for_set_same connection,
    ops_for_stream_same connection,
  )
