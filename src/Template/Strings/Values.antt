-- ===== src/Template/Strings/Values.antt =====
-- The string view of `string_redis_template` and the methods of its connection.
use redisdal.Prelude.{◌≡◌, refl, fun_ext, ◌∙◌}
use redisdal.Text.{Bytes}
use redisdal.Serializer.{string_serializer}
use redisdal.KvConnection.{KvConnection}
use redisdal.Operations.{ValueOperations}
use redisdal.Template.{string_redis_template, RedisTemplate, serialize_key, serialize_value}
use redisdal.Template.Views.Values
use redisdal.Template.Facade.{default_value_operations, ops_for_value}
use redisdal.Template.Strings.{serialized_same, deserialized_same, deserialize_optional_same}

-- The methods of the connection.
abbrev pub connection_value_operations :
    {S : Type 0} → KvConnection S → ValueOperations S Bytes Bytes
connection_value_operations connection = record {
  set = connection.set;
  get = connection.get;
  incr = connection.incr;
  decr = connection.decr;
  append = connection.append;
  get_and_set = connection.getset;
}

module _ {S : Type 0} (connection : KvConnection S) where
  abbrev tpl : RedisTemplate S Bytes Bytes
  tpl = string_redis_template connection

  set_same : Values.set tpl ≡ connection.set
  unfolding Values.set serialize_key serialize_value string_redis_template string_serializer
  set_same = fun_ext (λ key. fun_ext (λ value. serialized_same _ refl ∙ serialized_same _ refl))

  get_same : Values.get tpl ≡ connection.get
  unfolding Values.get serialize_key serialize_value string_redis_template string_serializer
  get_same =
      fun_ext (λ key. serialized_same _ refl ∙ deserialized_same _ _ deserialize_optional_same)

  incr_same : Values.incr tpl ≡ connection.incr
  unfolding Values.incr serialize_key serialize_value string_redis_template string_serializer
  incr_same = fun_ext (λ key. fun_ext (λ delta. serialized_same _ refl))

  decr_same : Values.decr tpl ≡ connection.decr
  unfolding Values.decr serialize_key serialize_value string_redis_template string_serializer
  decr_same = fun_ext (λ key. fun_ext (λ delta. serialized_same _ refl))

  append_same : Values.append tpl ≡ connection.append
  unfolding Values.append serialize_key serialize_value string_redis_template string_serializer
  append_same = fun_ext (λ key. fun_ext (λ value. serialized_same _ refl ∙ serialized_same _ refl))

  get_and_set_same : Values.get_and_set tpl ≡ connection.getset
  unfolding Values.get_and_set serialize_key serialize_value string_redis_template string_serializer
  get_and_set_same = fun_ext (λ key. fun_ext (λ value.
      serialized_same _ refl
      ∙ serialized_same _ refl
      ∙ deserialized_same _ _ deserialize_optional_same))

  pub ops_for_value_same : ops_for_value tpl ≡ connection_value_operations connection
  unfolding ops_for_value default_value_operations
  ops_for_value_same = λ i. record {
    set = set_same i;
    get = get_same i;
    incr = incr_same i;
    decr = decr_same i;
    append = append_same i;
    get_and_set = get_and_set_same i;
  }
