-- ===== src/Template/Contract.antt =====
-- The commands that typed methods send through the client below them.
pub mod Keys
pub mod Values
pub mod Hashes
pub mod Lists
pub mod Sets
pub mod SortedSets
pub mod Streams
pub mod Filling
pub mod EveryMethod
use redisdal.Prelude.{Bool, true, false, ◌≡◌, refl, ◌∙◌, inl, inr, if◌then◌else◌}
use redisdal.Text.{Bytes}
use redisdal.Errors
use redisdal.Errors.{Result, ok, err}
use redisdal.Serialization.{DoubleChars}
use redisdal.Reply.{CmdReply}
use redisdal.Exec.{Exec, Executor, lift, continue, ◌>>=◌}
use redisdal.KvConnection.FromClient.{client_connection}
use redisdal.Serializer.{Serializer}
use redisdal.Template.{RedisTemplate}
use redisdal.Client.Contract.{OneCommand, sends_nothing, sends, Throws, Relays}

-- A facade over `redis_client`.
abbrev pub client_template :
    {S K V : Type 0} → Executor S → DoubleChars → Serializer K → Serializer V → RedisTemplate S K V
client_template connection chars key_serializer value_serializer = record {
  connection = client_connection connection chars;
  key_serializer = key_serializer;
  value_serializer = value_serializer;
}

module _ {A B : Type 0} (g : A → Result B) where
  -- An exception goes on past what follows.
  Throws-bind :
      (message : Bytes) (r : Result A) → Throws message r → Throws message (Errors.◌>>=◌ r g)
  Throws-bind message r (inl e) = inl (rw (e) refl)
  Throws-bind message r (inr (sha1, said, e)) = inr (sha1, said, rw (e) refl)

  Relays-bind :
      (answer : Result CmdReply) (r : Result A) → Relays answer r → Relays answer (Errors.◌>>=◌ r g)
  Relays-bind (err e) r h = rw (h) refl
  Relays-bind (ok reply) r h = λ message e. Throws-bind message r (h message e)

module _ {S : Type 0} where
  continue_quiet :
      {A B : Type 0} (g : A → Result B) (f : A → Exec S B)
      → ((a : A) (s : S) → f a s ≡ (g a, s))
      → (p : Result A × S) → continue p.0 f p.1 ≡ (Errors.◌>>=◌ p.0 g, p.1)
  continue_quiet g f h (ok a, s) = h a s
  continue_quiet g f h (err e, s) = refl

module _ {S : Type 0} {connection : Executor S} where
  pub OneCommand-lift :
      {X A : Type 0} (r : Result X) (f : X → Exec S A)
      → ((x : X) → OneCommand connection (f x))
      → OneCommand connection (lift r >>= f)
  unfolding ◌>>=◌ lift
  OneCommand-lift (ok x) f h = h x
  OneCommand-lift (err e) f h = sends_nothing (err e) (λ s. refl)

  -- What follows is a computation without the connection.
  pub OneCommand-then :
      {A B : Type 0} (g : A → Result B) (m : Exec S A) (f : A → Exec S B)
      → ((a : A) (s : S) → f a s ≡ (g a, s))
      → OneCommand connection m
      → OneCommand connection (m >>= f)
  unfolding ◌>>=◌
  OneCommand-then g m f h (sends_nothing r e) =
      sends_nothing (Errors.◌>>=◌ r g) (λ s. continue_quiet g f h (m s) ∙ rw (e s) refl)
  OneCommand-then g m f h (sends argv interpret e k) =
      sends argv (λ answer. Errors.◌>>=◌ (interpret answer) g)
        (λ s. continue_quiet g f h (m s) ∙ rw (e s) refl)
        (λ answer. Relays-bind g answer (interpret answer) (k answer))

  pub OneCommand-decode :
      {A B : Type 0} (g : A → Result B) (m : Exec S A)
      → OneCommand connection m
      → OneCommand connection (m >>= λ a. lift (g a))
  unfolding lift
  OneCommand-decode g m h = OneCommand-then g m _ (λ a s. refl) h

  -- The same for actions with the same outcomes.
  pub OneCommand-same :
      {A : Type 0} {m n : Exec S A}
      → ((s : S) → n s ≡ m s)
      → OneCommand connection m
      → OneCommand connection n
  OneCommand-same same (sends_nothing r e) = sends_nothing r (λ s. same s ∙ e s)
  OneCommand-same same (sends argv interpret e k) = sends argv interpret (λ s. same s ∙ e s) k
