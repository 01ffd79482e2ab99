-- ===== src/Template/Strings/Streams.antt =====
-- The stream view of `string_redis_template` and the methods of its connection.
use redisdal.Prelude.{◌≡◌, refl, fun_ext, ◌∙◌}
use redisdal.Text.{Bytes}
use redisdal.Serializer.{string_serializer}
use redisdal.KvConnection.{KvConnection}
use redisdal.Operations.{StreamOperations}
use redisdal.Template.{string_redis_template, RedisTemplate, serialize_key, serialize_value}
use redisdal.Template.Views.Streams
use redisdal.Template.Facade.{default_stream_operations, ops_for_stream}
use redisdal.Template.Strings.{
  serialized_same, deserialized_same, deserialize_batches_same, deserialize_entries_same,
  serialize_pairs_same, serialize_requests_same,
}

-- The methods of the connection.
abbrev pub connection_stream_operations :
    {S : Type 0} → KvConnection S → StreamOperations S Bytes Bytes
connection_stream_operations connection = record {
  xadd = connection.xadd;
  xlen = connection.xlen;
  xrange = connection.xrange;
  xrevrange = connection.xrevrange;
  xread = connection.xread;
  xdel = connection.xdel;
  xtrim = connection.xtrim;
  xgroup_create = connection.xgroup_create;
  xgroup_setid = connection.xgroup_setid;
  xgroup_destroy = connection.xgroup_destroy;
  xgroup_createconsumer = connection.xgroup_createconsumer;
  xgroup_delconsumer = connection.xgroup_delconsumer;
  xreadgroup = connection.xreadgroup;
  xack = connection.xack;
}

module _ {S : Type 0} (connection : KvConnection S) where
  abbrev tpl : RedisTemplate S Bytes Bytes
  tpl = string_redis_template connection

  xadd_same : Streams.xadd tpl ≡ connection.xadd
  unfolding Streams.xadd serialize_key serialize_value string_redis_template string_serializer
  xadd_same = fun_ext (λ key. fun_ext (λ fields.
      fun_ext
        (λ options. serialized_same _ (serialize_pairs_same fields) ∙ serialized_same _ refl)))

  xlen_same : Streams.xlen tpl ≡ connection.xlen
  unfolding Streams.xlen serialize_key serialize_value string_redis_template string_serializer
  xlen_same = fun_ext (λ key. serialized_same _ refl)

  xrange_same : Streams.xrange tpl ≡ connection.xrange
  unfolding Streams.xrange serialize_key serialize_value string_redis_template string_serializer
  xrange_same = fun_ext (λ key. fun_ext (λ start. fun_ext (λ end.
      fun_ext (λ count. serialized_same _ refl ∙ deserialized_same _ _ deserialize_entries_same))))

  xrevrange_same : Streams.xrevrange tpl ≡ connection.xrevrange
  unfolding Streams.xrevrange serialize_key serialize_value string_redis_template string_serializer
  xrevrange_same = fun_ext (λ key. fun_ext (λ end. fun_ext (λ start.
      fun_ext (λ count. serialized_same _ refl ∙ deserialized_same _ _ deserialize_entries_same))))

  xread_same : Streams.xread tpl ≡ connection.xread
  unfolding Streams.xread serialize_key serialize_value string_redis_template string_serializer
  xread_same = fun_ext (λ streams. fun_ext (λ options.
      serialized_same _ (serialize_requests_same streams)
      ∙ deserialized_same _ _ deserialize_batches_same))

  xdel_same : Streams.xdel tpl ≡ connection.xdel
  unfolding Streams.xdel serialize_key serialize_value string_redis_template string_serializer
  xdel_same = fun_ext (λ key. fun_ext (λ ids. serialized_same _ refl))

  xtrim_same : Streams.xtrim tpl ≡ connection.xtrim
  unfolding Streams.xtrim serialize_key serialize_value string_redis_template string_serializer
  xtrim_same = fun_ext (λ key. fun_ext (λ options. serialized_same _ refl))

  xgroup_create_same : Streams.xgroup_create tpl ≡ connection.xgroup_create
  unfolding Streams.xgroup_create serialize_key serialize_value string_redis_template
      string_serializer
  xgroup_create_same =
      fun_ext
        (λ key. fun_ext (λ group. fun_ext (λ id. fun_ext (λ mkstream. serialized_same _ refl))))

  xgroup_setid_same : Streams.xgroup_setid tpl ≡ connection.xgroup_setid
  unfolding Streams.xgroup_setid serialize_key serialize_value string_redis_template
      string_serializer
  xgroup_setid_same = fun_ext (λ key. fun_ext (λ group. fun_ext (λ id. serialized_same _ refl)))

  xgroup_destroy_same : Streams.xgroup_destroy tpl ≡ connection.xgroup_destroy
  unfolding Streams.xgroup_destroy serialize_key serialize_value string_redis_template
      string_serializer
  xgroup_destroy_same = fun_ext (λ key. fun_ext (λ group. serialized_same _ refl))

  xgroup_createconsumer_same : Streams.xgroup_createconsumer tpl ≡ connection.xgroup_createconsumer
  unfolding Streams.xgroup_createconsumer serialize_key serialize_value string_redis_template
      string_serializer
  xgroup_createconsumer_same =
      fun_ext (λ key. fun_ext (λ group. fun_ext (λ consumer. serialized_same _ refl)))

  xgroup_delconsumer_same : Streams.xgroup_delconsumer tpl ≡ connection.xgroup_delconsumer
  unfolding Streams.xgroup_delconsumer serialize_key serialize_value string_redis_template
      string_serializer
  xgroup_delconsumer_same =
      fun_ext (λ key. fun_ext (λ group. fun_ext (λ consumer. serialized_same _ refl)))

  xreadgroup_same : Streams.xreadgroup tpl ≡ connection.xreadgroup
  unfolding Streams.xreadgroup serialize_key serialize_value string_redis_template string_serializer
  xreadgroup_same = fun_ext (λ group. fun_ext (λ consumer. fun_ext (λ streams. fun_ext (λ options.
      serialized_same _ (serialize_requests_same streams)
      ∙ deserialized_same _ _ deserialize_batches_same))))

  xack_same : Streams.xack tpl ≡ connection.xack
  unfolding Streams.xack serialize_key serialize_value string_redis_template string_serializer
  xack_same = fun_ext (λ key. fun_ext (λ group. fun_ext (λ ids. serialized_same _ refl)))

  pub ops_for_stream_same : ops_for_stream tpl ≡ connection_stream_operations connection
  unfolding ops_for_stream default_stream_operations
  ops_for_stream_same = λ i. record {
    xadd = xadd_same i;
    xlen = xlen_same i;
    xrange = xrange_same i;
    xrevrange = xrevrange_same i;
    xread = xread_same i;
    xdel = xdel_same i;
    xtrim = xtrim_same i;
    xgroup_create = xgroup_create_same i;
    xgroup_setid = xgroup_setid_same i;
    xgroup_destroy = xgroup_destroy_same i;
    xgroup_createconsumer = xgroup_createconsumer_same i;
    xgroup_delconsumer = xgroup_delconsumer_same i;
    xreadgroup = xreadgroup_same i;
    xack = xack_same i;
  }
