-- ===== src/Template/Strings/Lists.antt =====
-- The list view of `string_redis_template` and the methods of its connection.
use redisdal.Prelude.{◌≡◌, refl, fun_ext, ◌∙◌}
use redisdal.Text.{Bytes}
use redisdal.Serializer.{string_serializer}
use redisdal.KvConnection.{KvConnection}
use redisdal.Operations.{ListOperations}
use redisdal.Template.{string_redis_template, RedisTemplate, serialize_key, serialize_value}
use redisdal.Template.Views.Lists
use redisdal.Template.Facade.{default_list_operations, ops_for_list}
use redisdal.Template.Strings.{
  serialized_same, deserialized_same, deserialize_each_same, deserialize_optional_same,
  serialize_each_same,
}

-- The methods of the connection.
abbrev pub connection_list_operations : {S : Type 0} → KvConnection S → ListOperations S Bytes Bytes
connection_list_operations connection = record {
  lpush_values = connection.lpush_values;
  lpush = connection.lpush;
  rpush_values = connection.rpush_values;
  rpush = connection.rpush;
  lpop = connection.lpop;
  lpop_count = connection.lpop_count;
  rpop = connection.rpop;
  rpop_count = connection.rpop_count;
  lrange = connection.lrange;
  llen = connection.llen;
  lindex = connection.lindex;
}

module _ {S : Type 0} (connection : KvConnection S) where
  abbrev tpl : RedisTemplate S Bytes Bytes
  tpl = string_redis_template connection

  lpush_values_same : Lists.lpush_values tpl ≡ connection.lpush_values
  unfolding Lists.lpush_values serialize_key serialize_value string_redis_template string_serializer
  lpush_values_same = fun_ext (λ key.
      fun_ext (λ values. serialized_same _ (serialize_each_same values) ∙ serialized_same _ refl))

  lpush_same : Lists.lpush tpl ≡ connection.lpush
  unfolding Lists.lpush serialize_key serialize_value string_redis_template string_serializer
  lpush_same = fun_ext (λ key. fun_ext (λ value. serialized_same _ refl ∙ serialized_same _ refl))

  rpush_values_same : Lists.rpush_values tpl ≡ connection.rpush_values
  unfolding Lists.rpush_values serialize_key serialize_value string_redis_template string_serializer
  rpush_values_same = fun_ext (λ key.
      fun_ext (λ values. serialized_same _ (serialize_each_same values) ∙ serialized_same _ refl))

  rpush_same : Lists.rpush tpl ≡ connection.rpush
  unfolding Lists.rpush serialize_key serialize_value string_redis_template string_serializer
  rpush_same = fun_ext (λ key. fun_ext (λ value. serialized_same _ refl ∙ serialized_same _ refl))

  lpop_same : Lists.lpop tpl ≡ connection.lpop
  unfolding Lists.lpop serialize_key serialize_value string_redis_template string_serializer
  lpop_same =
      fun_ext (λ key. serialized_same _ refl ∙ deserialized_same _ _ deserialize_optional_same)

  lpop_count_same : Lists.lpop_count tpl ≡ connection.lpop_count
  unfolding Lists.lpop_count serialize_key serialize_value string_redis_template string_serializer
  lpop_count_same = fun_ext (λ key.
      fun_ext (λ count. serialized_same _ refl ∙ deserialized_same _ _ deserialize_each_same))

  rpop_same : Lists.rpop tpl ≡ connection.rpop
  unfolding Lists.rpop serialize_key serialize_value string_redis_template string_serializer
  rpop_same =
      fun_ext (λ key. serialized_same _ refl ∙ deserialized_same _ _ deserialize_optional_same)

  rpop_count_same : Lists.rpop_count tpl ≡ connection.rpop_count
  unfolding Lists.rpop_count serialize_key serialize_value string_redis_template string_serializer
  rpop_count_same = fun_ext (λ key.
      fun_ext (λ count. serialized_same _ refl ∙ deserialized_same _ _ deserialize_each_same))

  lrange_same : Lists.lrange tpl ≡ connection.lrange
  unfolding Lists.lrange serialize_key serialize_value string_redis_template string_serializer
  lrange_same = fun_ext (λ key. fun_ext (λ start.
      fun_ext (λ stop. serialized_same _ refl ∙ deserialized_same _ _ deserialize_each_same)))

  llen_same : Lists.llen tpl ≡ connection.llen
  unfolding Lists.llen serialize_key serialize_value string_redis_template string_serializer
  llen_same = fun_ext (λ key. serialized_same _ refl)

  lindex_same : Lists.lindex tpl ≡ connection.lindex
  unfolding Lists.lindex serialize_key serialize_value string_redis_template string_serializer
  lindex_same = fun_ext (λ key.
      fun_ext (λ index. serialized_same _ refl ∙ deserialized_same _ _ deserialize_optional_same))

  pub ops_for_list_same : ops_for_list tpl ≡ connection_list_operations connection
  unfolding ops_for_list default_list_operations
  ops_for_list_same = λ i. record {
    lpush_values = lpush_values_same i;
    lpush = lpush_same i;
    rpush_values = rpush_values_same i;
    rpush = rpush_same i;
    lpop = lpop_same i;
    lpop_count = lpop_count_same i;
    rpop = rpop_same i;
    rpop_count = rpop_count_same i;
    lrange = lrange_same i;
    llen = llen_same i;
    lindex = lindex_same i;
  }
