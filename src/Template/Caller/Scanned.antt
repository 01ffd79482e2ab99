-- ===== src/Template/Caller/Scanned.antt =====
-- What `scan` of the facade returns.
use redisdal.Prelude.{ℕ, true, ◌||◌, List, [], ◌∷◌, ◌≡◌, refl, sym, ◌∙◌, inl, inr, Bool-cases}
use redisdal.Text.{Bytes}
use redisdal.Errors.{ok_injective, Result, ok, err, ◌>>=◌}
use redisdal.Exec
use redisdal.Exec.{Exec, pure, lift}
use redisdal.Local.{WithLocal, on_state, get_local, set_local}
use redisdal.Collect.Caller.{insert_keys}
use redisdal.Client.Requests.{ScanResult}
use redisdal.Serializer.{Serializer, deserialize_each}
use redisdal.Containers.{Eq, has_element, insert_element}
use redisdal.Collect.{collect_keys}
use redisdal.Template.{RedisTemplate, scan, keys}
use redisdal.Template.RoundTrip.{returned_then, lifted_then}
use redisdal.Template.Caller.Distinct.{
  IsDistinct, or-false, or_assoc, has_element-append, insert_element-IsDistinct,
}

module _ {K : Type 0} ⦃eq : Eq K⦄ where
  -- `insert` of each element in turn.
  unfoldable insert_elements : List K → List K → List K
  insert_elements [] set = set
  insert_elements (k ∷ ks) set = insert_elements ks (insert_element k set)

  has_element-present :
      (x k : K) (set : List K)
      → has_element k set ≡ true
      → has_element x set ≡ (has_element x set || eq.same k x)
  has_element-present x k set present = elim (Bool-cases (eq.same k x)) [
    | inl same ↦
        let equal : k ≡ x = (eq.same_iff k x).0 same in
        let found : has_element x set ≡ true = rw (sym equal) present in rw (found) refl
    | inr other ↦ rw (other) (sym (or-false (has_element x set)))
  ]

  has_element-insert_element :
      (x k : K) (set : List K)
      → has_element x (insert_element k set) ≡ (has_element x set || eq.same k x)
  unfolding insert_element
  has_element-insert_element x k set = elim (Bool-cases (has_element k set)) [
    | inl present ↦ rw (present) (has_element-present x k set present)
    | inr new ↦ rw (new) (has_element-append x k set)
  ]

  has_element-insert_elements :
      (x : K) (ks set : List K)
      → has_element x (insert_elements ks set) ≡ (has_element x set || has_element x ks)
  unfolding insert_elements has_element
  has_element-insert_elements x [] set = sym (or-false (has_element x set))
  has_element-insert_elements x (k ∷ ks) set =
      has_element-insert_elements x ks (insert_element k set)
      ∙ rw (has_element-insert_element x k set)
          (sym (or_assoc (has_element x set) (eq.same k x) (has_element x ks)))

  insert_elements-IsDistinct :
      (ks set : List K) → IsDistinct set → IsDistinct (insert_elements ks set)
  unfolding insert_elements
  insert_elements-IsDistinct [] set h = h
  insert_elements-IsDistinct (k ∷ ks) set h =
      insert_elements-IsDistinct ks _ (insert_element-IsDistinct k set h)

  -- One round of the loop of `scan`, before the rest of it.
  scanned_step :
      (set : List K) (r : Result K) (d : Result (List K)) (loop : List K → Result (List K))
      → ((set : List K) → loop set ≡ (do all ← d; ok (insert_elements all set)))
      → (do key ← r; loop (insert_element key set))
        ≡ (do all ← (do key ← r; rest ← d; ok (key ∷ rest)); ok (insert_elements all set))
  unfolding insert_elements
  scanned_step set (err e) d loop h = refl
  scanned_step set (ok key) (err e) loop h = h _
  scanned_step set (ok key) (ok all) loop h = h _

  collect_keys_lem :
      (key_serializer : Serializer K) (raw : List Bytes) (set : List K)
      → collect_keys key_serializer raw set
        ≡ (do all ← deserialize_each key_serializer raw; ok (insert_elements all set))
  unfolding collect_keys deserialize_each insert_elements
  collect_keys_lem key_serializer [] set = refl
  collect_keys_lem key_serializer (s_key ∷ raw) set =
      scanned_step set (key_serializer.deserialize s_key) (deserialize_each key_serializer raw)
        (collect_keys key_serializer raw) (collect_keys_lem key_serializer raw)

module _ {S K : Type 0} ⦃eq : Eq K⦄ (key_serializer : Serializer K) where
  -- One round of the loop that fills the set of the caller, before the rest of it.
  inserted_step :
      (w : WithLocal S (List K)) (r : Result K) (d : Result (List K)) (all : List K)
      (loop : Exec (WithLocal S (List K)) (Unit {0}))
      → (do key ← r; rest ← d; ok (key ∷ rest)) ≡ ok all
      → ((w : WithLocal S (List K)) (rest : List K)
          → d ≡ ok rest
          → loop w ≡ (ok tt, record w { local = insert_elements rest w.local }))
      → Exec.◌>>=◌
          (lift r)
          (λ key.
            Exec.◌>>=◌ get_local
              (λ keys. Exec.◌>>=◌ (set_local (insert_element key keys)) (λ done. loop)))
          w
        ≡ (ok tt, record w { local = insert_elements all w.local })
  unfolding Exec.◌>>=◌ lift get_local set_local insert_elements
  inserted_step w (err e) d all loop decoded h = let thrown : err e ≡ ok all = decoded in cc
  inserted_step w (ok key) (err e) all loop decoded h = let thrown : err e ≡ ok all = decoded in cc
  inserted_step w (ok key) (ok rest) all loop decoded h =
      let same : key ∷ rest ≡ all = ok_injective decoded in rw (← same) (h _ rest refl)

  insert_keys_lem :
      (raw : List Bytes) (all : List K) (w : WithLocal S (List K))
      → deserialize_each key_serializer raw ≡ ok all
      → insert_keys key_serializer raw w ≡ (ok tt, record w { local = insert_elements all w.local })
  unfolding insert_keys deserialize_each insert_elements pure
  insert_keys_lem [] [] w decoded = refl
  insert_keys_lem [] (key ∷ all) w decoded = cc
  insert_keys_lem (s_key ∷ raw) all w decoded =
      inserted_step w (key_serializer.deserialize s_key) (deserialize_each key_serializer raw) all
        (insert_keys key_serializer raw) decoded (λ w' rest e. insert_keys_lem raw rest w' e)

module _ {S K V : Type 0} ⦃eq : Eq K⦄ (tpl : RedisTemplate S K V) where
  open tpl use {connection, key_serializer}

  -- `scan` of a facade, when the connection returns a page whose keys all deserialize: it returns the
  -- cursor of the page with a set without repetition that has exactly the deserialized keys; the state
  -- is the one that the connection left.
  pub scan_lem :
      (cursor : ℕ) (pattern : Bytes) (count : ℕ) (page : ScanResult Bytes) (all : List K) (s s' : S)
      → connection.scan cursor pattern count s ≡ (ok page, s')
      → deserialize_each key_serializer page.keys ≡ ok all
      → (keys : List K) × (scan tpl cursor pattern count s
          ≡ (ok (record { cursor = page.cursor; keys = keys }), s'))
        × ((key : K) → has_element key keys ≡ has_element key all)
        × IsDistinct keys
  unfolding scan pure has_element
  scan_lem cursor pattern count page all s s' sent decoded = (
    insert_elements all [],
    returned_then _ _ sent
        ∙ lifted_then _ s' (collect_keys_lem key_serializer page.keys [] ∙ rw (decoded) refl),
    (λ key. has_element-insert_elements key all []),
    insert_elements-IsDistinct all [] tt,
  )

  -- `keys` of a facade into a set of the caller, when the connection returns keys that all
  -- deserialize: afterwards the set has exactly the keys that it had before and the deserialized ones.
  pub keys_lem :
      (pattern : Bytes) (raw : List Bytes) (all : List K) (w : WithLocal S (List K)) (s' : S)
      → connection.keys pattern [] w.state ≡ (ok raw, s')
      → deserialize_each key_serializer raw ≡ ok all
      → (set : List K) × (keys tpl pattern w ≡ (ok tt, record { state = s'; local = set }))
        × ((key : K) → has_element key set ≡ (has_element key w.local || has_element key all))
  unfolding keys on_state Exec.◌>>=◌
  keys_lem pattern raw all w s' sent decoded = (
    insert_elements all w.local,
    rw
        (
          sent,
          insert_keys_lem key_serializer raw all (record { state = s'; local = w.local }) decoded,
        )
        refl,
    (λ key. has_element-insert_elements key all w.local),
  )
