-- ===== src/Template/Caller/Collected.antt =====
-- What `hgetall` of the typed hash view and `scan` of the facade return.
use redisdal.Prelude.{
  ℕ, Bool, true, false, Option, none, some, List, [], ◌∷◌, ◌++◌, ◌≡◌, refl, sym, ◌∙◌, inl, inr,
  Bool-cases, Option-cases, if◌then◌else◌,
}
use redisdal.Text.{Bytes}
use redisdal.Errors.{ok_injective, Result, ok, err, ◌>>=◌}
use redisdal.Reply.Decode.{StringMap}
use redisdal.Exec
use redisdal.Exec.{Exec, lift}
use redisdal.Local.{WithLocal, on_state, get_local, set_local}
use redisdal.Collect.Caller.{emplace_fields}
use redisdal.Serializer.{Serializer, deserialize_pairs}
use redisdal.Containers.{Eq, lookup, emplace_pair, emplace_pairs}
use redisdal.Collect.{collect_pairs}
use redisdal.Template.{RedisTemplate, serialize_key}
use redisdal.Template.Views.Hashes
use redisdal.Template.RoundTrip.{returned_then, lifted_then}
use redisdal.Template.Caller.{fields_of}
use redisdal.Template.Caller.Distinct.{IsDistinct, emplace_pair-IsDistinct}

abbrev or_else : {A : Type 0} → Option A → Option A → Option A
or_else none o = o
or_else (some a) o = some a

or_else-none : {A : Type 0} (o : Option A) → o ≡ or_else o none
or_else-none none = refl
or_else-none (some a) = refl

or_else_if :
    {A : Type 0} (o p : Option A) (a : A) (b : Bool)
    → or_else (or_else o (if b then some a else none)) p ≡ or_else o (if b then some a else p)
or_else_if none p a true = refl
or_else_if none p a false = refl
or_else_if (some x) p a b = refl

module _ {K V : Type 0} ⦃eq : Eq K⦄ where
  lookup-append :
      (k j : K) (v : V) (m : List (K × V))
      → lookup k (m ++ ((j, v) ∷ [])) ≡ or_else (lookup k m) (if eq.same j k then some v else none)
  unfolding lookup
  lookup-append k j v [] = refl
  lookup-append k j v ((i, w) ∷ m) = elim (Bool-cases (eq.same i k)) [
    | inl same ↦ rw (same) refl
    | inr other ↦ rw (other) (lookup-append k j v m)
  ]

  -- A field is not put again where it is present.
  or_else-present :
      (k j : K) (v w : V) (m : List (K × V))
      → lookup j m ≡ some w
      → lookup k m ≡ or_else (lookup k m) (if eq.same j k then some v else none)
  or_else-present k j v w m present = elim (Bool-cases (eq.same j k)) [
    | inl same ↦
        let equal : j ≡ k = (eq.same_iff j k).0 same in
        let found : lookup k m ≡ some w = rw (sym equal) present in rw (found) refl
    | inr other ↦ rw (other) (or_else-none (lookup k m))
  ]

  lookup-emplace_pair :
      (k j : K) (v : V) (m : List (K × V))
      → lookup k (emplace_pair j v m) ≡ or_else (lookup k m) (if eq.same j k then some v else none)
  unfolding emplace_pair
  lookup-emplace_pair k j v m = elim (Option-cases (lookup j m)) [
    | inl new ↦ rw (new) (lookup-append k j v m)
    | inr (w, present) ↦ rw (present) (or_else-present k j v w m present)
  ]

  lookup-emplace_pairs :
      (k : K) (pairs m : List (K × V))
      → lookup k (emplace_pairs pairs m) ≡ or_else (lookup k m) (lookup k pairs)
  unfolding emplace_pairs lookup
  lookup-emplace_pairs k [] m = or_else-none (lookup k m)
  lookup-emplace_pairs k ((j, v) ∷ pairs) m =
      lookup-emplace_pairs k pairs (emplace_pair j v m)
      ∙ rw (lookup-emplace_pair k j v m) (or_else_if (lookup k m) (lookup k pairs) v (eq.same j k))

  emplace_pairs-IsDistinct :
      (pairs m : List (K × V))
      → IsDistinct (fields_of m)
      → IsDistinct (fields_of (emplace_pairs pairs m))
  unfolding emplace_pairs
  emplace_pairs-IsDistinct [] m h = h
  emplace_pairs-IsDistinct ((j, v) ∷ pairs) m h =
      emplace_pairs-IsDistinct pairs _ (emplace_pair-IsDistinct j v m h)

  -- One round of the loop of `hgetall`, before the rest of it.
  collected_step :
      (m : List (K × V)) (r : Result K) (q : Result V) (d : Result (List (K × V)))
      (loop : List (K × V) → Result (List (K × V)))
      → ((m : List (K × V)) → loop m ≡ (do all ← d; ok (emplace_pairs all m)))
      → (do key ← r; value ← q; loop (emplace_pair key value m)) ≡ (do
        all ← (do key ← r; value ← q; rest ← d; ok ((key, value) ∷ rest))
        ok (emplace_pairs all m))
  unfolding emplace_pairs
  collected_step m (err e) q d loop h = refl
  collected_step m (ok key) (err e) d loop h = refl
  collected_step m (ok key) (ok value) (err e) loop h = h _
  collected_step m (ok key) (ok value) (ok all) loop h = h _

  module _ (key_serializer : Serializer K) (value_serializer : Serializer V) where
    -- The pairs are deserialized, and put into the map.
    collect_pairs_lem :
        (raw : StringMap) (m : List (K × V))
        → collect_pairs key_serializer value_serializer raw m ≡ (do
          all ← deserialize_pairs key_serializer value_serializer raw
          ok (emplace_pairs all m))
    unfolding collect_pairs deserialize_pairs emplace_pairs
    collect_pairs_lem [] m = refl
    collect_pairs_lem ((k, v) ∷ raw) m =
        collected_step m (key_serializer.deserialize k) (value_serializer.deserialize v)
          (deserialize_pairs key_serializer value_serializer raw)
          (collect_pairs key_serializer value_serializer raw) (collect_pairs_lem raw)

module _ {S K V : Type 0} ⦃eq : Eq K⦄ (key_serializer : Serializer K)
    (value_serializer : Serializer V) where
  -- One round of the loop that fills the map of the caller, before the rest of it.
  filled_step :
      (w : WithLocal S (List (K × V))) (r : Result K) (q : Result V) (d : Result (List (K × V)))
      (all : List (K × V)) (loop : Exec (WithLocal S (List (K × V))) (Unit {0}))
      → (do key ← r; value ← q; rest ← d; ok ((key, value) ∷ rest)) ≡ ok all
      → ((w : WithLocal S (List (K × V))) (rest : List (K × V))
          → d ≡ ok rest
          → loop w ≡ (ok tt, record w { local = emplace_pairs rest w.local }))
      → Exec.◌>>=◌
          (lift r)
          (λ key. Exec.◌>>=◌ (lift q) (λ value.
            Exec.◌>>=◌ get_local (λ hash_map.
              Exec.◌>>=◌ (set_local (emplace_pair key value hash_map)) (λ done. loop))))
          w
        ≡ (ok tt, record w { local = emplace_pairs all w.local })
  unfolding Exec.◌>>=◌ lift get_local set_local emplace_pairs
  filled_step w (err e) q d all loop decoded h = let thrown : err e ≡ ok all = decoded in cc
  filled_step w (ok key) (err e) d all loop decoded h = let thrown : err e ≡ ok all = decoded in cc
  filled_step w (ok key) (ok value) (err e) all loop decoded h =
      let thrown : err e ≡ ok all = decoded in cc
  filled_step w (ok key) (ok value) (ok rest) all loop decoded h =
      let same : (key, value) ∷ rest ≡ all = ok_injective decoded in rw (← same) (h _ rest refl)

  emplace_fields_lem :
      (raw : StringMap) (all : List (K × V)) (w : WithLocal S (List (K × V)))
      → deserialize_pairs key_serializer value_serializer raw ≡ ok all
      → emplace_fields key_serializer value_serializer raw w
        ≡ (ok tt, record w { local = emplace_pairs all w.local })
  unfolding emplace_fields deserialize_pairs emplace_pairs Exec.pure
  emplace_fields_lem [] [] w decoded = refl
  emplace_fields_lem [] (pair ∷ all) w decoded = cc
  emplace_fields_lem ((k, v) ∷ raw) all w decoded =
      filled_step w (key_serializer.deserialize k) (value_serializer.deserialize v)
        (deserialize_pairs key_serializer value_serializer raw) all
        (emplace_fields key_serializer value_serializer raw) decoded
        (λ w' rest e. emplace_fields_lem raw rest w' e)

module _ {S K V : Type 0} ⦃eq : Eq K⦄ (tpl : RedisTemplate S K V) where
  open tpl use {connection, key_serializer, value_serializer}

  -- `hgetall` of a typed hash view, when the key serializes, the connection returns the fields and
  -- values `raw` and all of these deserialize: it returns a map without a repeated field in which
  -- each field has the value of its first occurrence in the deserialized pairs, and no other field is
  -- present; the state is the one that the connection left.
  pub hgetall_lem :
      (key : K) (k : Bytes) (raw : StringMap) (all : List (K × V)) (s s' : S)
      → key_serializer.serialize key ≡ ok k
      → connection.hgetall k s ≡ (ok raw, s')
      → deserialize_pairs key_serializer value_serializer raw ≡ ok all
      → (m : List (K × V)) × (Hashes.hgetall tpl key s ≡ (ok m, s'))
        × ((field : K) → lookup field m ≡ lookup field all)
        × IsDistinct (fields_of m)
  unfolding Hashes.hgetall serialize_key lift lookup
  hgetall_lem key k raw all s s' k_ok sent decoded = (
    emplace_pairs all [],
    lifted_then _ s k_ok
        ∙ returned_then _ _ sent
        ∙ rw (collect_pairs_lem key_serializer value_serializer raw [], decoded) refl,
    (λ field. lookup-emplace_pairs field all []),
    emplace_pairs-IsDistinct all [] tt,
  )

  -- `hscan` of a typed hash view into a map of the caller, when key and pattern serialize, the
  -- connection returns a page with the fields and values `raw`, and all of these deserialize: it returns
  -- the cursor of the page, and leaves in the map, whatever it held before, exactly the fields of the
  -- page, each with the value of its first occurrence in the deserialized pairs.
  pub hscan_lem :
      (key : K) (cursor : ℕ) (pattern : K) (count : ℕ) (k p : Bytes) (next : ℕ) (raw : StringMap)
      (all : List (K × V)) (w : WithLocal S (List (K × V))) (s' : S)
      → key_serializer.serialize key ≡ ok k
      → key_serializer.serialize pattern ≡ ok p
      → connection.hscan k cursor p count [] w.state ≡ (ok (next, raw), s')
      → deserialize_pairs key_serializer value_serializer raw ≡ ok all
      → (m : List (K × V)) × (Hashes.hscan tpl key cursor pattern count w
          ≡ (ok next, record { state = s'; local = m }))
        × ((field : K) → lookup field m ≡ lookup field all)
  unfolding Hashes.hscan serialize_key lift lookup on_state set_local Exec.◌>>=◌ Exec.pure
  hscan_lem key cursor pattern count k p next raw all w s' k_ok p_ok sent decoded = (
    emplace_pairs all [],
    rw
        (
          k_ok,
          p_ok,
          sent,
          emplace_fields_lem key_serializer value_serializer raw all
              (record { state = s'; local = [] }) decoded,
        )
        refl,
    (λ field. lookup-emplace_pairs field all []),
  )
