-- ===== src/Exec.antt =====
-- Methods that change the state of a connection and may throw, and the executor interface of
-- include/redisdal/redis_executor.hpp. What happened before an exception has happened, so the
-- state comes back beside the error too.
use redisdal.Prelude.{List}
use redisdal.Text.{Bytes}
use redisdal.Errors.{Error, Result, ok, err}
use redisdal.Reply.{CmdReply}

abbrev pub Exec {ℓ} : Type 0 → Type ℓ → Type ℓ
Exec S A = (state : S) → Result A × S

module _ {ℓ} {S : Type 0} {A : Type ℓ} where
  -- A computation without the connection.
  unfoldable pub lift : Result A → Exec S A
  lift result state = (result, state)

  unfoldable pub raise : Error → Exec S A
  raise exception state = (err exception, state)

  unfoldable pub pure : A → Exec S A
  pure value state = (ok value, state)

module _ {ℓ κ} {S : Type 0} {A : Type ℓ} {B : Type κ} where
  abbrev pub continue : Result A → (A → Exec S B) → Exec S B
  continue (err exception) rest state = (err exception, state)
  continue (ok value) rest state = rest value state

  infixl 5 ◌>>=◌
  unfoldable pub ◌>>=◌ : Exec S A → (A → Exec S B) → Exec S B
  unfolding lift raise pure
  ◌>>=◌ call rest state = let (result, state') = call state in continue result rest state'

-- `redis_executor`: the primitive by which every command is sent. `S` is the state behind it, the
-- connection with what is at its other end. (`cmd_exec`, the formatted variant, is called by no
-- command of the library; `SyncConnection` has it.)
pub record Executor (S : Type 0) : Type 0 where
  pub cmd_execv : List Bytes → Exec S CmdReply
