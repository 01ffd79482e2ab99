-- ===== src/Local/Maintains.antt =====
-- Predicates on a container that calls keep, with what holds of the results, and one rule for each
-- way to build such calls.
use redisdal.Prelude.{◌≡◌, refl}
use redisdal.Errors.{Error, Result, ok, err}
use redisdal.Exec.{Exec, pure, raise, lift, continue, ◌>>=◌}
use redisdal.Local.{WithLocal, on_state, get_local, set_local}

-- What holds of the outcome of a call.
pub data Outcome {S M A : Type 0} (P : M → Type 0) (Q : A → Type 0)
    : Result A × WithLocal S M → Type 0 where
  returned : (a : A) (w : WithLocal S M) → Q a → P w.local → Outcome P Q (ok a, w)
  thrown : (e : Error) (w : WithLocal S M) → P w.local → Outcome P Q (err e, w)

-- From a container with `P`, the call leaves one with `P`, and its result satisfies `Q`.
pub record Maintains {S M A : Type 0} (P : M → Type 0) (Q : A → Type 0) (m : Exec (WithLocal S M) A)
    : Type 0 where
  pub at : (w : WithLocal S M) → P w.local → Outcome P Q (m w)

-- No more of the result.
abbrev pub Anything : {A : Type 0} → A → Type 0
Anything a = Unit

module _ {S M : Type 0} {P : M → Type 0} where
  pub Maintains-pure : {A : Type 0} {Q : A → Type 0} (a : A) → Q a → Maintains {S = S} P Q (pure a)
  unfolding pure
  Maintains-pure a q = record { at = λ w p. returned a w q p }

  pub Maintains-raise : {A : Type 0} {Q : A → Type 0} (e : Error) → Maintains {S = S} P Q (raise e)
  unfolding raise
  Maintains-raise e = record { at = λ w p. thrown e w p }

  pub Maintains-lift : {A : Type 0} (r : Result A) → Maintains {S = S} P Anything (lift r)
  unfolding lift
  Maintains-lift (ok a) = record { at = λ w p. returned a w tt p }
  Maintains-lift (err e) = record { at = λ w p. thrown e w p }

  pub Maintains-on_state :
      {A : Type 0} {Q : A → Type 0} (call : Exec S A)
      → ((a : A) (s : S) → (call s).0 ≡ ok a → Q a)
      → Maintains P Q (on_state call)
  unfolding on_state
  Maintains-on_state {A} {Q} call h = record {
    at = λ w p. outcome (call w.state) w p (λ a e. h a w.state e);
  }
    where
      outcome :
          (r : Result A × S) (w : WithLocal S M)
          → P w.local
          → ((a : A) → r.0 ≡ ok a → Q a)
          → Outcome P Q (r.0, record w { state = r.1 })
      outcome (ok a, s) w p h = returned a (record w { state = s }) (h a refl) p
      outcome (err e, s) w p h = thrown e (record w { state = s }) p

  pub Maintains-get_local : Maintains {S = S} P P get_local
  unfolding get_local
  Maintains-get_local = record { at = λ w p. returned w.local w p p }

  pub Maintains-set_local : (m : M) → P m → Maintains {S = S} P Anything (set_local m)
  unfolding set_local
  Maintains-set_local m p = record { at = λ w _. returned tt (record w { local = m }) tt p }

  pub Maintains->>= :
      {A B : Type 0} {Q : A → Type 0} {R : B → Type 0} {m : Exec (WithLocal S M) A}
      (f : A → Exec (WithLocal S M) B)
      → Maintains P Q m
      → ((a : A) → Q a → Maintains P R (f a))
      → Maintains P R (m >>= f)
  unfolding ◌>>=◌
  Maintains->>= {A} {B} {Q} {R} {m} f h k = record { at = λ w p. continued (m w) (h.at w p) }
    where
      continued : (r : Result A × WithLocal S M) → Outcome P Q r → Outcome P R (continue r.0 f r.1)
      continued _ (returned a w q p) = (k a q).at w p
      continued _ (thrown e w p) = thrown e w p
