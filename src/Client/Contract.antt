-- ===== src/Client/Contract.antt =====
-- What every method of `redis_client` does with its executor: at most one command, never a retry,
-- and no error lost.
pub mod Keys
pub mod Strings
pub mod Hashes
pub mod Lists
pub mod Sets
pub mod SortedSets
pub mod Streams
pub mod Scripts
pub mod EveryMethod
use redisdal.Prelude.{Bool, true, false, List, ◌≡◌, refl, ◌∙◌, ◌⊎◌, inl, inr, arith, if◌then◌else◌}
use redisdal.Text.{Bytes, text, contains}
use redisdal.Errors
use redisdal.Errors.{Error, redis_error, no_script_error, Result, ok, err}
use redisdal.Reply.{CmdReply, make_error}
use redisdal.Reply.Decode.{or_throw, throw_if_error}
use redisdal.Exec.{Exec, Executor, pure, raise, lift, continue, ◌>>=◌}
use redisdal.Client.Requests.{received}

-- The exception for an error reply with this message: `redis_error`, or for a missing script
-- `no_script_error`.
abbrev pub Throws {ℓ} : {A : Type ℓ} → Bytes → Result A → Type ℓ
Throws message result =
    (result ≡ err (redis_error message))
    ⊎ ((sha1 : Bytes) × (contains message (text "NOSCRIPT") ≡ true)
        × (result ≡ err (no_script_error (text "EVALSHA") sha1)))

-- How the result of a method follows the answer to its command: an exception of the executor goes
-- on as it is, and an error reply is thrown.
abbrev pub Relays {ℓ} : {A : Type ℓ} → Result CmdReply → Result A → Type ℓ
Relays (err e) result = result ≡ err e
Relays (ok reply) result = (message : Bytes) → reply ≡ make_error message → Throws message result

module _ {S : Type 0} (connection : Executor S) where
  open connection use {cmd_execv}

  -- Whatever the state, `m` sends nothing, or it sends one command, the same in every state, and its
  -- result depends on the answer alone.
  pub data OneCommand {A : Type 0} (m : Exec S A) : Type 0 where
    sends_nothing : (r : Result A) → ((s : S) → m s ≡ (r, s)) → OneCommand m
    sends :
        (argv : List Bytes) (interpret : Result CmdReply → Result A)
        → ((s : S) → m s ≡ (interpret (cmd_execv argv s).0, (cmd_execv argv s).1))
        → ((answer : Result CmdReply) → Relays answer (interpret answer))
        → OneCommand m

  -- A command of the command layer that answers with the reply as it is.
  pub data Asks (m : Exec S CmdReply) : Type 0 where
    asks_nothing : (r : Result CmdReply) → ((s : S) → m s ≡ (r, s)) → Asks m
    asks : (argv : List Bytes) → ((s : S) → m s ≡ cmd_execv argv s) → Asks m

  pub Asks-cmd_execv : (argv : List Bytes) → Asks (cmd_execv argv)
  Asks-cmd_execv argv = asks argv (λ s. refl)

  pub Asks-pure : (reply : CmdReply) → Asks (pure reply)
  unfolding pure
  Asks-pure reply = asks_nothing (ok reply) (λ s. refl)

  pub Asks-if : (b : Bool) (m n : Exec S CmdReply) → Asks m → Asks n → Asks (if b then m else n)
  Asks-if true m n h k = h
  Asks-if false m n h k = k

  pub Asks-lift {ℓ} :
      {X : Type ℓ} (r : Result X) (f : X → Exec S CmdReply)
      → ((x : X) → Asks (f x))
      → Asks (lift r >>= f)
  unfolding ◌>>=◌
  Asks-lift (ok x) f h = h x
  Asks-lift (err e) f h = asks_nothing (err e) (λ s. refl)

  -- `or_throw` and a decoder behind it.
  abbrev pub decoded : {A : Type 0} → (CmdReply → Result A) → Result CmdReply → Result A
  decoded decode (ok reply) = Errors.◌>>=◌ (or_throw reply) decode
  decoded decode (err e) = err e

  pub decoded-Relays :
      {A : Type 0} (decode : CmdReply → Result A) (answer : Result CmdReply)
      → Relays answer (decoded decode answer)
  unfolding or_throw make_error
  decoded-Relays decode (err e) = refl
  decoded-Relays decode (ok reply) = λ message e. inl (rw (e, or_throw))

  continue-decoded :
      {A : Type 0} (decode : CmdReply → Result A) (p : Result CmdReply × S)
      → continue p.0 (λ reply. lift (Errors.◌>>=◌ (or_throw reply) decode)) p.1
        ≡ (decoded decode p.0, p.1)
  unfolding lift
  continue-decoded decode (ok reply, s) = refl
  continue-decoded decode (err e, s) = refl

  pub received_lem :
      {A : Type 0} (m : Exec S CmdReply) (decode : CmdReply → Result A) (s : S)
      → received m decode s ≡ (decoded decode (m s).0, (m s).1)
  unfolding received
  received_lem m decode s = continue-decoded decode (m s)

  pub OneCommand-received :
      {A : Type 0} (m : Exec S CmdReply) (decode : CmdReply → Result A)
      → Asks m
      → OneCommand (received m decode)
  OneCommand-received m decode (asks_nothing r e) =
      sends_nothing (decoded decode r) (λ s. received_lem m decode s ∙ rw (e s))
  OneCommand-received m decode (asks argv e) =
      sends argv (decoded decode) (λ s. received_lem m decode s ∙ rw (e s)) (decoded-Relays decode)

  pub OneCommand-pure : {A : Type 0} (a : A) → OneCommand (pure a)
  unfolding pure
  OneCommand-pure a = sends_nothing (ok a) (λ s. refl)

  pub OneCommand-if :
      {A : Type 0} (b : Bool) (m n : Exec S A)
      → OneCommand m
      → OneCommand n
      → OneCommand (if b then m else n)
  OneCommand-if true m n h k = h
  OneCommand-if false m n h k = k

pub ruleset contract_rules = (
  OneCommand-received, OneCommand-if, OneCommand-pure, Asks-cmd_execv, Asks-pure, Asks-if,
  Asks-lift,
)
