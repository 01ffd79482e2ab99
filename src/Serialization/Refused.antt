-- ===== src/Serialization/Refused.antt =====
-- Numbers that an integral type does not have, through `from_string`.
use redisdal.Prelude.{ℕ, suc, Bool, true, false, [], ◌∷◌, ◌≡◌, refl, inl, inr, Bool-cases}
use redisdal.Prelude.Int.{ℤ, pos, negsuc, ltb_ℤ}
use redisdal.Text.{Bytes, text}
use redisdal.Text.Decimal.{decimal, to_string, begins_with_digit}
use redisdal.Errors.{Error, invalid_argument, err, ◌>>=◌}
use redisdal.Serialization.{
  IntegralType, signed, unsigned, lowest, highest, parsed_type, result_out_of_range, too_large,
  in_range, negate_if, from_digits, complete, narrow, from_string,
}
use redisdal.Serialization.RoundTrip.{
  InRange, begins-decimal, read-decimal, numeric_input-digit, from_chars-digit, from_digits-decimal,
  ltb_ℤ-≤ℤ, negate_suc, complete_ok,
}

-- What `from_string` throws for a number that the type does not have: a minus sign is no digit to an
-- unsigned type.
abbrev pub refusal : IntegralType → ℤ → Error
refusal (unsigned bits) (negsuc n) = invalid_argument (text "Invalid numeric input")
refusal t v = too_large

in_range-outside : (t : IntegralType) (v : ℤ) → ¬ InRange t v → in_range t v ≡ false
in_range-outside t v out = elim (Bool-cases (ltb_ℤ v (lowest t))) [
  | inl below ↦ rw (below) refl
  | inr low ↦ elim (Bool-cases (ltb_ℤ (highest t) v)) [
    | inl above ↦ rw (low, above) refl
    | inr high ↦ absurd (out (ltb_ℤ-≤ℤ v (lowest t) low, ltb_ℤ-≤ℤ (highest t) v high))
  ]
]

narrow-outside : (t : IntegralType) (v : ℤ) → ¬ InRange t v → narrow t v ≡ err too_large
unfolding narrow
narrow-outside t v out = elim (Bool-cases (ltb_ℤ v (lowest t))) [
  | inl below ↦ rw (below) refl
  | inr low ↦ elim (Bool-cases (ltb_ℤ (highest t) v)) [
    | inl above ↦ rw (low, above) refl
    | inr high ↦ absurd (out (ltb_ℤ-≤ℤ v (lowest t) low, ltb_ℤ-≤ℤ (highest t) v high))
  ]
]

complete_out_of_range :
    complete (record { ec = result_out_of_range; rest = []; value = pos 0 }) ≡ err too_large
unfolding complete
complete_out_of_range = refl

-- A digit string that is read to its end: either test finds that the type does not have the number.
digits_refused :
    (t : IntegralType) (minus : Bool) (whole : Bytes) (n : ℕ)
    → ¬ InRange t (negate_if minus n)
    → (complete (from_digits (parsed_type t) minus whole (decimal n)) >>= narrow t) ≡ err too_large
unfolding from_digits
digits_refused t minus whole n out =
    elim (Bool-cases (in_range (parsed_type t) (negate_if minus n))) [
      | inl parsed ↦
          rw
            (
              from_digits-decimal (parsed_type t) minus whole n parsed,
              complete_ok (negate_if minus n),
            )
            (narrow-outside t (negate_if minus n) out)
      | inr large ↦ rw (read-decimal n, begins-decimal n, large, complete_out_of_range) refl
    ]

-- A number that an integral type does not have, printed in decimal, is refused:
-- with `out_of_range`, whether the parsed 64-bit type has it or not, or with `invalid_argument` if
-- it is negative and the type unsigned.
pub from_string_refuses :
    (t : IntegralType) (v : ℤ) → ¬ InRange t v → from_string t (to_string v) ≡ err (refusal t v)
unfolding from_string to_string begins_with_digit
from_string_refuses (signed bits) (pos n) out =
    rw
      (
        numeric_input-digit (decimal n) (begins-decimal n),
        from_chars-digit (signed 64) (decimal n) (begins-decimal n),
      )
      (digits_refused (signed bits) false (decimal n) n out)
from_string_refuses (unsigned bits) (pos n) out =
    rw
      (
        numeric_input-digit (decimal n) (begins-decimal n),
        from_chars-digit (unsigned 64) (decimal n) (begins-decimal n),
      )
      (digits_refused (unsigned bits) false (decimal n) n out)
from_string_refuses (signed bits) (negsuc n) out =
    digits_refused (signed bits) true (b'-' ∷ decimal (suc n)) (suc n) (rw (negate_suc n) out)
from_string_refuses (unsigned bits) (negsuc n) out = refl
