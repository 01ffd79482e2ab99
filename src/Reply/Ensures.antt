-- ===== src/Reply/Ensures.antt =====
-- Postconditions of code that may throw, with one rule for each way to build such code. Undefined
-- behaviour satisfies none.
use redisdal.Prelude.{Bool, true, false, ◌≡◌, refl, if◌then◌else◌}
use redisdal.Errors.{Error, undefined_behaviour, Result, ok, err, ◌>>=◌, IsDefined}

abbrev pub IsException : Error → Type 0
IsException undefined_behaviour = ⊥
IsException _ = Unit

pub data Ensures {ℓ} {A : Type ℓ} (P : A → Type 0) : Result A → Type ℓ where
  ensures_ok : (a : A) → P a → Ensures P (ok a)
  ensures_err : (e : Error) → IsException e → Ensures P (err e)

-- No postcondition but that nothing is undefined.
abbrev pub Any {ℓ} : {A : Type ℓ} → A → Type 0
Any a = Unit

module _ {ℓ} {A : Type ℓ} where
  pub Ensures-IsDefined : {P : A → Type 0} {r : Result A} → Ensures P r → IsDefined r
  Ensures-IsDefined (ensures_ok a h) = λ e. cc
  Ensures-IsDefined (ensures_err undefined_behaviour h) = absurd h
  Ensures-IsDefined (ensures_err _ h) = λ e. cc

  pub Ensures-if :
      {P : A → Type 0} (b : Bool) (r q : Result A)
      → (b ≡ true → Ensures P r)
      → (b ≡ false → Ensures P q)
      → Ensures P (if b then r else q)
  Ensures-if true r q h k = h refl
  Ensures-if false r q h k = k refl

  pub Ensures-Any : {P : A → Type 0} {r : Result A} → Ensures P r → Ensures Any r
  Ensures-Any (ensures_ok a h) = ensures_ok a tt
  Ensures-Any (ensures_err e h) = ensures_err e h

module _ {ℓ κ} {A : Type ℓ} {B : Type κ} where
  pub Ensures-bind :
      {P : A → Type 0} {Q : B → Type 0} {r : Result A} (f : A → Result B)
      → Ensures P r
      → ((a : A) → P a → Ensures Q (f a))
      → Ensures Q (r >>= f)
  Ensures-bind f (ensures_ok a h) k = k a h
  Ensures-bind f (ensures_err e h) k = ensures_err e h

pub ruleset ensures_rules = (Ensures-if, Ensures-bind, ensures_ok, ensures_err)
