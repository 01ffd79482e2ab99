-- ===== src/Errors.antt =====
-- include/redisdal/exception.hpp, and the standard exceptions that the library throws. Code that
-- may throw returns a `Result`.
use redisdal.Prelude.{ℕ, ◌++◌, ◌≡◌, ◌≢◌, refl, ap, []}
use redisdal.Text.{Bytes, text}
use redisdal.Text.Decimal.{decimal}

-- One constructor for each exception class. `undefined_behaviour` stands for what C++ leaves
-- undefined: reading an empty optional through `*`, or an element past the end of a vector.
pub data Error : Type 0 where
  invalid_argument out_of_range runtime_error logic_error length_error : Bytes → Error
  bad_optional_access : Error
  too_many_script_keys_error : (cmd : Bytes) (provided limit : ℕ) → Error
  unexpected_reply_type_error : (cmd expected actual : Bytes) → Error
  no_script_error : (cmd sha1 : Bytes) → Error
  redis_error : (message : Bytes) → Error
  undefined_behaviour : Error

-- `what()` of the exceptions that exception.hpp declares; the others give their own text.
unfoldable pub what : Error → Bytes
what (invalid_argument m) = m
what (out_of_range m) = m
what (runtime_error m) = m
what (logic_error m) = m
what (length_error m) = m
what bad_optional_access = text "bad optional access"
what (too_many_script_keys_error cmd provided limit) =
    cmd
    ++ (text ": too many script keys: provided="
        ++ (decimal provided ++ (text " limit=" ++ decimal limit)))
what (unexpected_reply_type_error cmd expected actual) =
    cmd ++ (text ": unexpected reply type: expected=" ++ (expected ++ (text " actual=" ++ actual)))
what (no_script_error cmd sha1) = cmd ++ (text ": script not loaded: " ++ sha1)
what (redis_error message) = text "Redis error: " ++ message
what undefined_behaviour = []

-- The value that is returned, or the exception that leaves the function.
pub data Result {ℓ} (A : Type ℓ) : Type ℓ where
  err : (exception : Error) → Result A
  ok : (value : A) → Result A

value_or {ℓ} : {A : Type ℓ} → A → Result A → A
value_or a (ok b) = b
value_or a (err e) = a

pub ok_injective {ℓ} : {A : Type ℓ} {a b : A} → ok a ≡ ok b → a ≡ b
unfolding value_or
ok_injective {a = a} e = ap (value_or a) e

module _ {ℓ κ} {A : Type ℓ} {B : Type κ} where
  infixl 5 ◌>>=◌
  -- What follows a call; an exception skips it.
  abbrev pub ◌>>=◌ : (call : Result A) (rest : A → Result B) → Result B
  err exception >>= rest = err exception
  ok value >>= rest = rest value

  -- A sequence that returned went through the value of its first part.
  pub bind-eq-ok :
      (call : Result A) (rest : A → Result B) {last : B}
      → (call >>= rest) ≡ ok last
      → (value : A) × (call ≡ ok value) × (rest value ≡ ok last)
  bind-eq-ok (err exception) rest returned = cc
  bind-eq-ok (ok value) rest returned = (value, refl, returned)

infixl 5 ◌>>◌
-- The same for a call without a value.
abbrev pub ◌>>◌ {κ} : {B : Type κ} (call : Result (Unit {0})) (rest : Result B) → Result B
call >> rest = call >>= λ nothing. rest

-- The result carries no undefined behaviour.
abbrev pub IsDefined {ℓ} : {A : Type ℓ} → Result A → Type ℓ
IsDefined r = r ≢ err undefined_behaviour
