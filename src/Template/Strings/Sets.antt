-- ===== src/Template/Strings/Sets.antt =====
-- The set view of `string_redis_template` and the methods of its connection.
use redisdal.Prelude.{◌≡◌, refl, fun_ext, ◌∙◌}
use redisdal.Text.{Bytes}
use redisdal.Serializer.{string_serializer}
use redisdal.KvConnection.{KvConnection}
use redisdal.Operations.{SetOperations}
use redisdal.Template.{string_redis_template, RedisTemplate, serialize_key, serialize_value}
use redisdal.Template.Views.Sets
use redisdal.Template.Facade.{default_set_operations, ops_for_set}
use redisdal.Template.Strings.{
  serialized_same, deserialized_same, deserialize_each_same, deserialize_optional_same,
  serialize_each_same,
}

-- The methods of the connection.
abbrev pub connection_set_operations : {S : Type 0} → KvConnection S → SetOperations S Bytes Bytes
connection_set_operations connection = record {
  sadd = connection.sadd;
  srem = connection.srem;
  spop = connection.spop;
  smembers = connection.smembers;
  scard = connection.scard;
  sismember = connection.sismember;
  sinter = connection.sinter;
}

module _ {S : Type 0} (connection : KvConnection S) where
  abbrev tpl : RedisTemplate S Bytes Bytes
  tpl = string_redis_template connection

  sadd_same : Sets.sadd tpl ≡ connection.sadd
  unfolding Sets.sadd serialize_key serialize_value string_redis_template string_serializer
  sadd_same = fun_ext (λ key.
      fun_ext (λ members. serialized_same _ (serialize_each_same members) ∙ serialized_same _ refl))

  srem_same : Sets.srem tpl ≡ connection.srem
  unfolding Sets.srem serialize_key serialize_value string_redis_template string_serializer
  srem_same = fun_ext (λ key.
      fun_ext (λ members. serialized_same _ (serialize_each_same members) ∙ serialized_same _ refl))

  spop_same : Sets.spop tpl ≡ connection.spop
  unfolding Sets.spop serialize_key serialize_value string_redis_template string_serializer
  spop_same =
      fun_ext (λ key. serialized_same _ refl ∙ deserialized_same _ _ deserialize_optional_same)

  smembers_same : Sets.smembers tpl ≡ connection.smembers
  unfolding Sets.smembers serialize_key serialize_value string_redis_template string_serializer
  smembers_same =
      fun_ext (λ key. serialized_same _ refl ∙ deserialized_same _ _ deserialize_each_same)

  scard_same : Sets.scard tpl ≡ connection.scard
  unfolding Sets.scard serialize_key serialize_value string_redis_template string_serializer
  scard_same = fun_ext (λ key. serialized_same _ refl)

  sismember_same : Sets.sismember tpl ≡ connection.sismember
  unfolding Sets.sismember serialize_key serialize_value string_redis_template string_serializer
  sismember_same =
      fun_ext (λ key. fun_ext (λ member. serialized_same _ refl ∙ serialized_same _ refl))

  sinter_same : Sets.sinter tpl ≡ connection.sinter
  unfolding Sets.sinter serialize_key serialize_value string_redis_template string_serializer
  sinter_same = fun_ext (λ keys.
      serialized_same _ (serialize_each_same keys) ∙ deserialized_same _ _ deserialize_each_same)

  pub ops_for_set_same : ops_for_set tpl ≡ connection_set_operations connection
  unfolding ops_for_set default_set_operations
  ops_for_set_same = λ i. record {
    sadd = sadd_same i;
    srem = srem_same i;
    spop = spop_same i;
    smembers = smembers_same i;
    scard = scard_same i;
    sismember = sismember_same i;
    sinter = sinter_same i;
  }
