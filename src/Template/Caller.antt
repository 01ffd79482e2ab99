-- ===== src/Template/Caller.antt =====
-- What typed methods leave in a container of their caller, whether they return or throw.
pub mod Distinct
pub mod Collected
pub mod Scanned
use redisdal.Prelude.{
  Bool, true, false, Option, none, some, List, [], ◌∷◌, map, ◌≡◌, refl, sym, ◌∙◌, inl, inr,
  Bool-cases, is_empty, if◌then◌else◌,
}
use redisdal.Text.{Bytes}
use redisdal.Errors.{Result, ok, err}
use redisdal.Exec.{Exec, pure, lift, ◌>>=◌}
use redisdal.Local.{WithLocal, on_state, get_local, set_local}
use redisdal.Local.Maintains.{
  Maintains, Anything, Maintains-pure, Maintains-lift, Maintains-on_state, Maintains-get_local,
  Maintains-set_local, Maintains->>=,
}
use redisdal.Serializer.{deserialize_optional}
use redisdal.Containers.{Eq, lookup, assign_found}
use redisdal.Collect.{serialize_fields}
use redisdal.Collect.Caller.{update_found, update_fields}
use redisdal.Template.{RedisTemplate, serialize_key}
use redisdal.Template.Views.Hashes

abbrev pub fields_of {ℓ κ} : {K : Type ℓ} {V : Type κ} → List (K × V) → List K
fields_of m = map (λ pair. pair.0) m

module _ {K V : Type 0} ⦃eq : Eq K⦄ where
  pub fields_of-assign_found :
      (k : K) (v : V) (m : List (K × V)) → fields_of (assign_found k v m) ≡ fields_of m
  unfolding assign_found
  fields_of-assign_found k v [] = refl
  fields_of-assign_found k v ((j, w) ∷ m) = elim (Bool-cases (eq.same j k)) [
    | inl same ↦ rw (same) refl
    | inr other ↦ rw (other, fields_of-assign_found k v m) refl
  ]

module _ {S K V : Type 0} ⦃eq : Eq K⦄ (tpl : RedisTemplate S K V) (fields : List K) where
  open tpl use {connection, key_serializer, value_serializer}

  -- The map has the fields `fields`, in this order.
  abbrev Same : {W : Type 0} → List (K × W) → Type 0
  Same m = fields_of m ≡ fields

  update_found-Same :
      (field : K) (value : Option Bytes) (found : Option (Option V))
      → Maintains {S = S} Same Anything
          (update_found key_serializer value_serializer field value found)
  update_found-Same field value none = Maintains-pure tt tt
  update_found-Same field value (some old) = Maintains->>= _ (Maintains-lift _) (λ v _.
      Maintains->>= _ Maintains-get_local
        (λ m same. Maintains-set_local _ (fields_of-assign_found field v m ∙ same)))

  update_fields-Same :
      (filled : List (Bytes × Option Bytes))
      → Maintains {S = S} Same Anything (update_fields key_serializer value_serializer filled)
  unfolding update_fields
  update_fields-Same [] = Maintains-pure tt tt
  update_fields-Same ((f, value) ∷ filled) = Maintains->>= _ (Maintains-lift _) (λ field _.
      Maintains->>= _ Maintains-get_local (λ m _.
        Maintains->>= _ (update_found-Same field value (lookup field m))
          (λ _ _. update_fields-Same filled)))

  hget_filled-Same :
      (key : K) (m : List (K × Option V)) (b : Bool)
      → Maintains {S = S} Same Anything (
          if b then pure tt else do
            serialized_map ← lift (serialize_fields key_serializer m [])
            k ← on_state (serialize_key tpl key)
            filled ← on_state (connection.hget_map k serialized_map)
            update_fields key_serializer value_serializer filled)
  hget_filled-Same key m true = Maintains-pure tt tt
  hget_filled-Same key m false = Maintains->>= _ (Maintains-lift _) (λ _ _.
      Maintains->>= _ (Maintains-on_state {Q = Anything} _ (λ _ _ _. tt)) (λ _ _.
        Maintains->>= _ (Maintains-on_state {Q = Anything} _ (λ _ _ _. tt))
          (λ filled _. update_fields-Same filled)))

  -- The `hget` of a typed hash view that fills a map of its caller keeps the fields of the map and
  -- their order, over any connection and with any serializers, whether it returns or throws: it only
  -- changes the values.
  pub hget_map_keeps_fields : (key : K) → Maintains Same Anything (Hashes.hget_map tpl key)
  unfolding Hashes.hget_map
  hget_map_keeps_fields key =
      Maintains->>= _ Maintains-get_local (λ m _. hget_filled-Same key m (is_empty m))
