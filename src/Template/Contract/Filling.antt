-- ===== src/Template/Contract/Filling.antt =====
-- The commands that typed methods send when they fill a container of their caller.
use redisdal.Prelude.{Option, none, some, List, [], ◌∷◌, ◌≡◌, refl}
use redisdal.Text.{Bytes}
use redisdal.Errors.{Result, ok, err}
use redisdal.Reply.Decode.{StringMap}
use redisdal.Exec.{Exec, Executor, pure, lift, continue, ◌>>=◌}
use redisdal.Local.{WithLocal, on_state, get_local, set_local, observed}
use redisdal.Serializer.{Serializer}
use redisdal.Containers.{Eq}
use redisdal.Collect.Caller.{insert_keys, emplace_fields, update_found, update_fields}
use redisdal.Client.Contract.{OneCommand, sends_nothing}
use redisdal.Template.Contract.{OneCommand-then, OneCommand-same}

-- The outcome and the new content depend on the old content alone; the state behind the connection
-- stays.
pub record IsQuiet {S M A : Type 0} (m : Exec (WithLocal S M) A) : Type 0 where
  pub result : M → Result A
  pub content : M → M
  pub quiet :
      (w : WithLocal S M)
      → m w ≡ (result w.local, record { state = w.state; local = content w.local })

module _ {M : Type 0} where
  abbrev then_result : {A B : Type 0} → Result A → (A → M → Result B) → M → Result B
  then_result (ok a) f m = f a m
  then_result (err e) f m = err e

  abbrev then_content : {A : Type 0} → Result A → (A → M → M) → M → M
  then_content (ok a) f m = f a m
  then_content (err e) f m = m

module _ {S M : Type 0} where
  pub pure-IsQuiet : {A : Type 0} (a : A) → IsQuiet {S = S} {M = M} (pure a)
  unfolding pure
  pure-IsQuiet a = record { result = λ m. ok a; content = λ m. m; quiet = λ w. refl }

  pub lift-IsQuiet : {A : Type 0} (r : Result A) → IsQuiet {S = S} {M = M} (lift r)
  unfolding lift
  lift-IsQuiet r = record { result = λ m. r; content = λ m. m; quiet = λ w. refl }

  pub get_local-IsQuiet : IsQuiet {S = S} {M = M} get_local
  unfolding get_local
  get_local-IsQuiet = record { result = ok; content = λ m. m; quiet = λ w. refl }

  pub set_local-IsQuiet : (m : M) → IsQuiet {S = S} (set_local m)
  unfolding set_local
  set_local-IsQuiet m = record { result = λ _. ok tt; content = λ _. m; quiet = λ w. refl }

  continue-IsQuiet :
      {A B : Type 0} (f : A → Exec (WithLocal S M) B) (k : (a : A) → IsQuiet (f a)) (r : Result A)
      (w : WithLocal S M)
      → continue r f w ≡ (
        then_result r (λ a. (k a).result) w.local,
        record { state = w.state; local = then_content r (λ a. (k a).content) w.local },
      )
  continue-IsQuiet f k (ok a) w = (k a).quiet w
  continue-IsQuiet f k (err e) w = refl

  pub bind-IsQuiet :
      {A B : Type 0} (m : Exec (WithLocal S M) A) (f : A → Exec (WithLocal S M) B)
      → IsQuiet m
      → ((a : A) → IsQuiet (f a))
      → IsQuiet (m >>= f)
  unfolding ◌>>=◌
  bind-IsQuiet m f h k = record {
    result = λ l. then_result (h.result l) (λ a. (k a).result) (h.content l);
    content = λ l. then_content (h.result l) (λ a. (k a).content) (h.content l);
    quiet = λ w. rw (h.quiet w) (continue-IsQuiet f k (h.result w.local) _);
  }

ruleset quiet_rules =
    (pure-IsQuiet, lift-IsQuiet, get_local-IsQuiet, set_local-IsQuiet, bind-IsQuiet)

module _ {S K : Type 0} ⦃eq : Eq K⦄ (key_serializer : Serializer K) where
  pub insert_keys-IsQuiet :
      (s_keys : List Bytes) → IsQuiet {S = S} (insert_keys key_serializer s_keys)
  unfolding insert_keys
  insert_keys-IsQuiet [] = search quiet_rules
  insert_keys-IsQuiet (s_key ∷ s_keys) = let rest = insert_keys-IsQuiet s_keys in search quiet_rules

module _ {S K V : Type 0} ⦃eq : Eq K⦄ (key_serializer : Serializer K)
    (value_serializer : Serializer V) where
  pub emplace_fields-IsQuiet :
      (raw : StringMap) → IsQuiet {S = S} (emplace_fields key_serializer value_serializer raw)
  unfolding emplace_fields
  emplace_fields-IsQuiet [] = search quiet_rules
  emplace_fields-IsQuiet ((k, v) ∷ raw) =
      let rest = emplace_fields-IsQuiet raw in search quiet_rules

  update_found-IsQuiet :
      (field : K) (value : Option Bytes) (found : Option (Option V))
      → IsQuiet {S = S} (update_found key_serializer value_serializer field value found)
  update_found-IsQuiet field value none = search quiet_rules
  update_found-IsQuiet field value (some old) = search quiet_rules

  pub update_fields-IsQuiet :
      (filled : List (Bytes × Option Bytes))
      → IsQuiet {S = S} (update_fields key_serializer value_serializer filled)
  unfolding update_fields
  update_fields-IsQuiet [] = search quiet_rules
  update_fields-IsQuiet ((f, value) ∷ filled) =
      let rest = update_fields-IsQuiet filled in
      let found = update_found-IsQuiet in search quiet_rules

module _ {S M A B : Type 0} (m : M) (f : A → Exec (WithLocal S M) B) where
  continue-observed :
      (r : Result A × S)
      → (let (b, w) = continue r.0 f (record { state = r.1; local = m }) in (b, w.state))
        ≡ continue r.0 (λ a. observed m (f a)) r.1
  unfolding observed
  continue-observed (ok a, s) = refl
  continue-observed (err e, s) = refl

module _ {S M : Type 0} {connection : Executor S} (m : M) where
  pub OneCommand-observed-lift :
      {X A : Type 0} (r : Result X) (f : X → Exec (WithLocal S M) A)
      → ((x : X) → OneCommand connection (observed m (f x)))
      → OneCommand connection (observed m (on_state (lift r) >>= f))
  unfolding observed on_state lift ◌>>=◌
  OneCommand-observed-lift (ok x) f h = h x
  OneCommand-observed-lift (err e) f h = sends_nothing (err e) (λ s. refl)

  pub OneCommand-observed-result :
      {X A : Type 0} (r : Result X) (f : X → Exec (WithLocal S M) A)
      → ((x : X) → OneCommand connection (observed m (f x)))
      → OneCommand connection (observed m (lift r >>= f))
  unfolding observed lift ◌>>=◌
  OneCommand-observed-result (ok x) f h = h x
  OneCommand-observed-result (err e) f h = sends_nothing (err e) (λ s. refl)

  pub OneCommand-observed :
      {A B : Type 0} (call : Exec S A) (f : A → Exec (WithLocal S M) B)
      → ((a : A) → IsQuiet (f a))
      → OneCommand connection call
      → OneCommand connection (observed m (on_state call >>= f))
  unfolding observed on_state ◌>>=◌
  OneCommand-observed call f k h =
      OneCommand-same (λ s. continue-observed m f (call s))
        (OneCommand-then (λ a. (k a).result m) call (λ a. observed m (f a))
          (λ a s. rw ((k a).quiet (record { state = s; local = m })) refl) h)
