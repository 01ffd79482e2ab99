-- ===== src/Serialization/RoundTrip.antt =====
-- Values through `to_string` and `from_string`.
use native.Mathlib.Nat.{mod-eq_of_lt, pow-le-pow_right}
use redisdal.Prelude.{
  ℕ, zero, suc, ◌+◌, ltb, ◌%◌, ◌-◌, ◌^◌, ◌<◌, ◌≤◌, Bool, true, false, [], ◌∷◌, ◌≡◌, refl, inl, inr,
  ap, append-nil, arith, ◌==◌, Bool-cases,
}
use redisdal.Prelude.Int.{ℤ, pos, negsuc, pos_part, ◌≤ℤ◌, ltb_ℤ}
use redisdal.Text.{Bytes, text, same_text}
use redisdal.Text.Decimal.{
  decimal, to_string, is_digit, begins_with_digit, read_digits, read_digits-decimal, decimal-begins,
}
use redisdal.Errors.{ok}
use redisdal.Serialization.{
  IntegralType, signed, unsigned, lowest, highest, parsed_type, static_cast, low_bits, no_error,
  in_range, negate_if, from_digits, from_chars, numeric_input, complete, narrow, from_string,
  to_string_bool, from_string_bool, tolower,
}

-- The values of the type.
abbrev pub InRange : IntegralType → ℤ → Type 0
InRange t v = (lowest t ≤ℤ v) × (v ≤ℤ highest t)

-- The widths of C++'s integral types.
abbrev pub IsWidth : IntegralType → Type 0
IsWidth (signed bits) = (1 ≤ bits) × (bits ≤ 64)
IsWidth (unsigned bits) = bits ≤ 64

digit_not_minus : (c : ℕ) → is_digit c ≡ true → (c == b'-') ≡ false
digit_not_minus c h = ground arith

pub numeric_input-digit : (s : Bytes) → begins_with_digit s ≡ true → numeric_input s ≡ ok s
unfolding numeric_input begins_with_digit
numeric_input-digit [] h = cc
numeric_input-digit (c ∷ cs) h = ground arith

pub from_chars-digit :
    (t : IntegralType) (s : Bytes)
    → begins_with_digit s ≡ true
    → from_chars t s ≡ from_digits t false s s
unfolding from_chars from_digits begins_with_digit
from_chars-digit (signed bits) (c ∷ cs) h = rw (digit_not_minus c h)
from_chars-digit (unsigned bits) (c ∷ cs) h = refl
from_chars-digit t [] h = cc

pub read-decimal : (n : ℕ) → read_digits 0 (decimal n) ≡ (n, [])
unfolding read_digits
read-decimal n = rw (append-nil (decimal n)) at (read_digits-decimal n [])

pub begins-decimal : (n : ℕ) → begins_with_digit (decimal n) ≡ true
begins-decimal n = rw (append-nil (decimal n)) at (decimal-begins n [])

-- A number in range of the type that is parsed.
pub from_digits-decimal :
    (t : IntegralType) (minus : Bool) (whole : Bytes) (n : ℕ)
    → in_range t (negate_if minus n) ≡ true
    → from_digits t minus whole (decimal n)
      ≡ record { ec = no_error; rest = []; value = negate_if minus n }
unfolding from_digits
from_digits-decimal t minus whole n h = rw (read-decimal n, begins-decimal n, h)

ltb_ℤ-false : (a b : ℤ) → b ≤ℤ a → ltb_ℤ a b ≡ false
ltb_ℤ-false a b h = ground arith

pub ltb_ℤ-≤ℤ : (a b : ℤ) → ltb_ℤ a b ≡ false → b ≤ℤ a
ltb_ℤ-≤ℤ a b h = ground arith

in_range-InRange : (t : IntegralType) (v : ℤ) → InRange t v → in_range t v ≡ true
in_range-InRange t v (low, high) = rw (ltb_ℤ-false v (lowest t) low, ltb_ℤ-false (highest t) v high)

power_bound : (a b : ℕ) → a ≤ b → 2 ^ a ≤ 2 ^ b
power_bound a b h = pow-le-pow_right (omega arith) h

-- The range of a type of at most 64 bits lies in the range of the type that is parsed.
InRange-parsed : (t : IntegralType) (v : ℤ) → IsWidth t → InRange t v → InRange (parsed_type t) v
InRange-parsed (signed bits) (pos n) (_, w) r =
    let bound = power_bound (bits - 1) 63 (omega arith) in omega arith
InRange-parsed (signed bits) (negsuc n) (_, w) r =
    let bound = power_bound (bits - 1) 63 (omega arith) in omega arith
InRange-parsed (unsigned bits) (pos n) w r = let bound = power_bound bits 64 w in omega arith
InRange-parsed (unsigned bits) (negsuc n) w (low, high) = omega arith

power_double : (bits : ℕ) → 1 ≤ bits → 2 ^ bits ≡ 2 ^ (bits - 1) + 2 ^ (bits - 1)
power_double zero h = absurd (omega arith)
power_double (suc bits) h = let e : suc bits - 1 ≡ bits = omega arith in rw (e) (omega arith)

-- The conversion of a value that the type has.
static_cast-InRange : (t : IntegralType) (v : ℤ) → IsWidth t → InRange t v → static_cast t v ≡ v
unfolding static_cast low_bits
static_cast-InRange (unsigned bits) (negsuc n) w r = absurd (omega arith)
static_cast-InRange (unsigned bits) (pos n) w r =
    let b = power_bound 0 bits (omega arith) in ap pos (mod-eq_of_lt (omega arith))
static_cast-InRange (signed bits) (pos n) (w, _) r =
    let d = power_double bits w in
    let b = power_bound 0 (bits - 1) (omega arith) in
    let e : n % 2 ^ bits ≡ n = mod-eq_of_lt (omega arith) in
    let small : ltb n (2 ^ (bits - 1)) ≡ true = ground arith in rw (e, small) refl
static_cast-InRange (signed bits) (negsuc n) (w, _) r =
    let d = power_double bits w in
    let b = power_bound 0 (bits - 1) (omega arith) in
    let e : n % 2 ^ bits ≡ n = mod-eq_of_lt (omega arith) in
    let large : ltb (2 ^ bits - 1 - n) (2 ^ (bits - 1)) ≡ false = ground arith in
    let back : 2 ^ bits - 1 - (2 ^ bits - 1 - n) ≡ n = omega arith in rw (e, large, back) refl

narrow-InRange : (t : IntegralType) (v : ℤ) → IsWidth t → InRange t v → narrow t v ≡ ok v
unfolding narrow
narrow-InRange t v w (low, high) =
    rw
      (
        ltb_ℤ-false v (lowest t) low,
        ltb_ℤ-false (highest t) v high,
        static_cast-InRange t v w (low, high),
      )
      refl

pub negate_suc : (n : ℕ) → negate_if true (suc n) ≡ negsuc n
negate_suc n = rw (suc_not_zero n) (ap negsuc (omega arith))
  where
    suc_not_zero : (n : ℕ) → (suc n == 0) ≡ false
    suc_not_zero n = ground arith

pub complete_ok : (v : ℤ) → complete (record { ec = no_error; rest = []; value = v }) ≡ ok v
unfolding complete
complete_ok v = refl

no_negative : (n : ℕ) → pos 0 ≤ℤ negsuc n → ⊥
no_negative n h = omega arith

-- Every value of an integral type of at most 64 bits, printed in decimal, is read back.
pub from_string-to_string :
    (t : IntegralType) (v : ℤ) → IsWidth t → InRange t v → from_string t (to_string v) ≡ ok v
unfolding from_string to_string
from_string-to_string t (pos n) w r = rw (
  numeric_input-digit (decimal n) (begins-decimal n),
  from_chars-digit (parsed_type t) (decimal n) (begins-decimal n),
  from_digits-decimal (parsed_type t) false (decimal n) n
      (in_range-InRange (parsed_type t) (pos n) (InRange-parsed t (pos n) w r)),
  complete_ok (pos n),
  narrow-InRange t (pos n) w r,
)
from_string-to_string (signed bits) (negsuc n) w r = rw (
  from_digits-decimal (signed 64) true (b'-' ∷ decimal (suc n)) (suc n) (
      rw (negate_suc n)
        (in_range-InRange (signed 64) (negsuc n) (InRange-parsed (signed bits) (negsuc n) w r))),
  negate_suc n,
  complete_ok (negsuc n),
  narrow-InRange (signed bits) (negsuc n) w r,
)
from_string-to_string (unsigned bits) (negsuc n) w (low, high) = absurd (no_negative n low)

-- A Boolean is printed as a word that is read back.
pub from_string_bool-to_string_bool : (t : Bool) → from_string_bool (to_string_bool t) ≡ ok t
unfolding from_string_bool to_string_bool tolower same_text text
from_string_bool-to_string_bool false = refl
from_string_bool-to_string_bool true = refl

in_range-unsigned : (bits : ℕ) (v : ℤ) → in_range (unsigned bits) v ≡ true → pos_part v < 2 ^ bits
in_range-unsigned bits (negsuc n) h = power_bound 0 bits (omega arith)
in_range-unsigned bits (pos n) h = elim (Bool-cases (ltb_ℤ (highest (unsigned bits)) (pos n))) [
  | inl above ↦ absurd (outside (rw (natural, above) at h))
  | inr high ↦
      let e = ltb_ℤ-≤ℤ (highest (unsigned bits)) (pos n) high in
      let b = power_bound 0 bits (omega arith) in omega arith
]
  where
    natural : ltb_ℤ (pos n) (pos 0) ≡ false
    natural = ltb_ℤ-false (pos n) (pos 0) (omega arith)

    outside : ¬ (false ≡ true)
    outside e = cc

from_digits-bounded :
    (bits : ℕ) (minus : Bool) (whole digits : Bytes)
    → pos_part (from_digits (unsigned bits) minus whole digits).value < 2 ^ bits
unfolding from_digits
from_digits-bounded bits minus whole digits =
    let b = power_bound 0 bits (omega arith) in
    let v = negate_if minus (read_digits 0 digits).0 in
    elim (Bool-cases (begins_with_digit digits)) [
      | inl digit ↦ elim (Bool-cases (in_range (unsigned bits) v)) [
        | inl inside ↦ rw (digit, inside) (in_range-unsigned bits v inside)
        | inr outside ↦ rw (digit, outside) b
      ]
      | inr other ↦ rw (other) b
    ]

-- What `std::from_chars` stores for an unsigned type fits into the type.
pub from_chars-bounded :
    (bits : ℕ) (s : Bytes) → pos_part (from_chars (unsigned bits) s).value < 2 ^ bits
unfolding from_chars
from_chars-bounded bits [] = let b = power_bound 0 bits (omega arith) in b
from_chars-bounded bits (c ∷ cs) = from_digits-bounded bits false (c ∷ cs) (c ∷ cs)

-- A printed number in range is read to its end.
pub from_chars-decimal :
    (bits n : ℕ)
    → n < 2 ^ bits
    → from_chars (unsigned bits) (decimal n) ≡ record { ec = no_error; rest = []; value = pos n }
from_chars-decimal bits n h = rw (
  from_chars-digit (unsigned bits) (decimal n) (begins-decimal n),
  from_digits-decimal (unsigned bits) false (decimal n) n
      (in_range-InRange (unsigned bits) (pos n) (omega arith, omega arith)),
)
