-- ===== src/Collect/Caller.antt =====
-- The loops that fill a container of the caller.
use redisdal.Prelude.{Option, none, some, List, [], ◌∷◌}
use redisdal.Text.{Bytes}
use redisdal.Reply.Decode.{StringMap}
use redisdal.Exec.{Exec, pure, lift, ◌>>=◌}
use redisdal.Local.{WithLocal, get_local, set_local}
use redisdal.Serializer.{Serializer, deserialize_optional}
use redisdal.Containers.{Eq, insert_element, lookup, emplace_pair, assign_found}

module _ {S K : Type 0} ⦃eq : Eq K⦄ (key_serializer : Serializer K) where
  -- The loop of `keys`.
  unfoldable pub insert_keys : List Bytes → Exec (WithLocal S (List K)) (Unit {0})
  insert_keys [] = pure tt
  insert_keys (s_key ∷ s_keys) = do
    key ← lift (key_serializer.deserialize s_key)
    keys ← get_local
    done ← set_local (insert_element key keys)
    insert_keys s_keys

module _ {S K V : Type 0} ⦃eq : Eq K⦄ (key_serializer : Serializer K)
    (value_serializer : Serializer V) where
  -- The loop of `hscan`.
  unfoldable pub emplace_fields : StringMap → Exec (WithLocal S (List (K × V))) (Unit {0})
  emplace_fields [] = pure tt
  emplace_fields ((k, v) ∷ raw) = do
    key ← lift (key_serializer.deserialize k)
    value ← lift (value_serializer.deserialize v)
    hash_map ← get_local
    done ← set_local (emplace_pair key value hash_map)
    emplace_fields raw

  -- `if (it != hash_map.end())` and its body, with `it` the position of the field.
  abbrev pub update_found :
      K → Option Bytes → Option (Option V) → Exec (WithLocal S (List (K × Option V))) (Unit {0})
  update_found field value none = pure tt
  update_found field value (some old) = do
    v ← lift (deserialize_optional value_serializer value)
    hash_map ← get_local
    set_local (assign_found field v hash_map)

  -- The second loop of `hget`.
  unfoldable pub update_fields :
      List (Bytes × Option Bytes) → Exec (WithLocal S (List (K × Option V))) (Unit {0})
  update_fields [] = pure tt
  update_fields ((f, value) ∷ filled) = do
    field ← lift (key_serializer.deserialize f)
    hash_map ← get_local
    done ← update_found field value (lookup field hash_map)
    update_fields filled
