-- ===== src/Template/Safe.antt =====
-- Undefined behaviour in typed methods, over an executor that answers with well-formed replies: the
-- rules for containers of the caller.
pub mod Keys
pub mod Values
pub mod Hashes
pub mod Lists
pub mod Sets
pub mod SortedSets
pub mod Streams
pub mod EveryMethod
use redisdal.Prelude.{Bool, Option, none, some, List, [], ◌∷◌}
use redisdal.Text.{Bytes}
use redisdal.Errors.{Result}
use redisdal.Exec.{Exec, Executor, pure, lift, ◌>>=◌}
use redisdal.Local.{WithLocal, on_state, get_local, set_local, observed}
use redisdal.Reply.Decode.{StringMap}
use redisdal.Reply.Ensures.{Ensures, ensures_ok, Any}
use redisdal.Containers.{Eq, lookup}
use redisdal.Serializer.{Serializer}
use redisdal.Serializer.Defined.{Proper, deserialize_optional-Defined}
use redisdal.Collect.Caller.{insert_keys, emplace_fields, update_found, update_fields}
use redisdal.Client.Safe.{Safe, Safe-bind, Safe-lift, Safe-pure}

-- The executor, with a container beside its state.
abbrev pub beside : {S M : Type 0} → Executor S → Executor (WithLocal S M)
beside connection = record { cmd_execv = λ argv. on_state (connection.cmd_execv argv) }

module _ {S M : Type 0} (connection : Executor S) where
  pub Safe-on_state :
      {A : Type 0} {P : A → Type 0} (m : Exec S A)
      → Safe connection P m
      → Safe (beside {M = M} connection) P (on_state m)
  unfolding on_state
  Safe-on_state m h = record { at = λ w. h.at w.state }

  pub Safe-get_local : Safe (beside {M = M} connection) Any get_local
  unfolding get_local
  Safe-get_local = record { at = λ w. ensures_ok _ tt }

  pub Safe-set_local : (m : M) → Safe (beside connection) Any (set_local m)
  unfolding set_local
  Safe-set_local m = record { at = λ w. ensures_ok _ tt }

  pub Safe-observed :
      {A : Type 0} {P : A → Type 0} (m : M) (f : Exec (WithLocal S M) A)
      → Safe (beside connection) P f
      → Safe connection P (observed m f)
  unfolding observed
  Safe-observed m f h = record { at = λ s. h.at (record { state = s; local = m }) }

module _ {S K : Type 0} ⦃eq : Eq K⦄ (connection : Executor S) (key_serializer : Serializer K)
    (proper_key : Proper key_serializer) where
  pub insert_keys-Safe :
      (s_keys : List Bytes) → Safe (beside connection) Any (insert_keys key_serializer s_keys)
  unfolding insert_keys
  insert_keys-Safe [] = Safe-pure _ tt tt
  insert_keys-Safe (s_key ∷ s_keys) =
      Safe-bind _ _ _ (Safe-lift _ _ (proper_key.deserialized s_key)) (λ key _.
        Safe-bind _ _ _ (Safe-get_local connection) (λ keys _.
          Safe-bind _ _ _ (Safe-set_local connection _) (λ _ _. insert_keys-Safe s_keys)))

  module _ {V : Type 0} (value_serializer : Serializer V)
      (proper_value : Proper value_serializer) where
    pub emplace_fields-Safe :
        (raw : StringMap)
        → Safe (beside connection) Any (emplace_fields key_serializer value_serializer raw)
    unfolding emplace_fields
    emplace_fields-Safe [] = Safe-pure _ tt tt
    emplace_fields-Safe ((k, v) ∷ raw) =
        Safe-bind _ _ _ (Safe-lift _ _ (proper_key.deserialized k)) (λ key _.
          Safe-bind _ _ _ (Safe-lift _ _ (proper_value.deserialized v)) (λ value _.
            Safe-bind _ _ _ (Safe-get_local connection) (λ m _.
              Safe-bind _ _ _ (Safe-set_local connection _) (λ _ _. emplace_fields-Safe raw))))

    update_found-Safe :
        (field : K) (value : Option Bytes) (found : Option (Option V))
        → Safe
            (beside connection)
            Any
            (update_found key_serializer value_serializer field value found)
    update_found-Safe field value none = Safe-pure _ tt tt
    update_found-Safe field value (some old) =
        Safe-bind _ _ _
          (Safe-lift _ _ (deserialize_optional-Defined value_serializer proper_value value))
          (λ v _. Safe-bind _ _ _ (Safe-get_local connection) (λ m _. Safe-set_local connection _))

    pub update_fields-Safe :
        (filled : List (Bytes × Option Bytes))
        → Safe (beside connection) Any (update_fields key_serializer value_serializer filled)
    unfolding update_fields
    update_fields-Safe [] = Safe-pure _ tt tt
    update_fields-Safe ((f, value) ∷ filled) =
        Safe-bind _ _ _ (Safe-lift _ _ (proper_key.deserialized f)) (λ field _.
          Safe-bind _ _ _ (Safe-get_local connection) (λ m _.
            Safe-bind _ _ _ (update_found-Safe field value (lookup field m))
              (λ _ _. update_fields-Safe filled)))
