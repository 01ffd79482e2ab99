-- ===== src/Template/RoundTrip.antt =====
-- Typed values that go through the facade, `redis_client` and the command layer to a server, and
-- back.
pub mod Lists
pub mod Values
pub mod Streams
use redisdal.Prelude.{List, [], ◌∷◌, ◌++◌, ◌≡◌, refl, ◌∙◌}
use redisdal.Text.{Bytes}
use redisdal.Errors.{Result, ok, err, ◌>>=◌}
use redisdal.Reply.{CmdReply, make_array}
use redisdal.Reply.Decode.{or_throw}
use redisdal.Exec
use redisdal.Exec.{Exec, Executor, lift}
use redisdal.Serializer.{Serializer, serialize_each, deserialize_each}
use redisdal.Client.Requests.{received}
use redisdal.Client.Contract.{received_lem}

module _ {S A : Type 0} where
  -- A call that returned, and what follows it.
  pub returned_then :
      {B : Type 0} (m : Exec S A) {a : A} {s s' : S} (f : A → Exec S B)
      → m s ≡ (ok a, s')
      → Exec.◌>>=◌ m f s ≡ f a s'
  unfolding Exec.◌>>=◌
  returned_then m f e = rw (e) refl

  pub lifted_then :
      {B : Type 0} {r : Result A} {a : A} (f : A → Exec S B) (s : S)
      → r ≡ ok a
      → Exec.◌>>=◌ (lift r) f s ≡ f a s
  unfolding Exec.◌>>=◌ lift
  lifted_then f s e = rw (e) refl

  pub received_ok :
      (connection : Executor S) (m : Exec S CmdReply) (decode : CmdReply → Result A)
      {reply : CmdReply} {a : A} {s s' : S}
      → m s ≡ (ok reply, s')
      → or_throw reply ≡ ok reply
      → decode reply ≡ ok a
      → received m decode s ≡ (ok a, s')
  received_ok connection m decode {s = s} e fine decoded =
      received_lem connection m decode s ∙ rw (e, fine, decoded) refl

-- An array is no error reply.
pub array_fine : (items : List CmdReply) → or_throw (make_array items) ≡ ok (make_array items)
unfolding or_throw make_array
array_fine items = refl

module _ {T : Type 0} where
  -- Two results one after the other.
  abbrev pub appended : Result (List T) → Result (List T) → Result (List T)
  appended a b = do values ← a; values' ← b; ok (values ++ values')

  pub appended_cons :
      (v : Result T) (a b : Result (List T))
      → (do value ← v; rest ← appended a b; ok (value ∷ rest))
        ≡ appended (do value ← v; rest ← a; ok (value ∷ rest)) b
  appended_cons (err e) a b = refl
  appended_cons (ok value) (err e) b = refl
  appended_cons (ok value) (ok values) (err e) = refl
  appended_cons (ok value) (ok values) (ok values') = refl

  pub appended-nil : (b : Result (List T)) → b ≡ appended (ok []) b
  appended-nil (err e) = refl
  appended-nil (ok values) = refl

module _ {T : Type 0} (serializer : Serializer T) where
  pub deserialize_each-++ :
      (raw raw' : List Bytes)
      → deserialize_each serializer (raw ++ raw')
        ≡ appended (deserialize_each serializer raw) (deserialize_each serializer raw')
  unfolding deserialize_each
  deserialize_each-++ [] raw' = appended-nil (deserialize_each serializer raw')
  deserialize_each-++ (s ∷ raw) raw' =
      rw (deserialize_each-++ raw raw') (appended_cons (serializer.deserialize s) _ _)
