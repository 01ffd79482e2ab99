-- ===== src/Local.antt =====
-- A container of the caller, or a member of an object, beside the state behind a connection. Like
-- that state, it is kept as it is when an exception leaves a method.
pub mod Maintains
use redisdal.Errors.{ok}
use redisdal.Exec.{Exec}

pub record WithLocal (S M : Type 0) : Type 0 where
  pub state : S
  pub local : M

module _ {S M : Type 0} where
  -- A call of the connection.
  unfoldable pub on_state : {A : Type 0} → Exec S A → Exec (WithLocal S M) A
  on_state call w = let (r, s) = call w.state in (r, record w { state = s })

  unfoldable pub get_local : Exec (WithLocal S M) M
  get_local w = (ok w.local, w)

  unfoldable pub set_local : M → Exec (WithLocal S M) (Unit {0})
  set_local m w = (ok tt, record w { local = m })

-- A method that fills a container, seen without the container: its result, and what it leaves
-- behind the connection.
unfoldable pub observed : {S M A : Type 0} → M → Exec (WithLocal S M) A → Exec S A
observed m call s = let (r, w) = call (record { state = s; local = m }) in (r, w.state)
