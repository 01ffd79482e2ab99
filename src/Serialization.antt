-- ===== src/Serialization.antt =====
-- include/redisdal/serialization.hpp: `string_serializable<T>` for integers, `bool`, `double` and
-- `std::string`.
pub mod RoundTrip
pub mod Refused
use redisdal.Prelude.{
  ℕ, ◌+◌, ◌-◌, ◌^◌, ◌%◌, Bool, true, false, ◌&&◌, ◌||◌, List, [], ◌∷◌, map, leb, ltb, ◌==◌, Option,
  none, some, if◌then◌else◌,
}
use redisdal.Prelude.Int.{ℤ, pos, negsuc, ltb_ℤ}
use redisdal.Text.{Bytes, text, same_text}
use redisdal.Text.Decimal.{begins_with_digit, read_digits}
use redisdal.Errors.{Error, invalid_argument, out_of_range, runtime_error, Result, ok, err, ◌>>=◌}
use redisdal.Reply.{Double}

-- An integral type of at most 64 bits, by its signedness and width.
pub data IntegralType : Type 0 where
  signed unsigned : (bits : ℕ) → IntegralType

-- `std::numeric_limits<T>::lowest()` and `max()`.
abbrev pub lowest : IntegralType → ℤ
lowest (signed bits) = negsuc (2 ^ (bits - 1) - 1)
lowest (unsigned bits) = pos 0

abbrev pub highest : IntegralType → ℤ
highest (signed bits) = pos (2 ^ (bits - 1) - 1)
highest (unsigned bits) = pos (2 ^ bits - 1)

-- `parsed_type`: `long long` or `unsigned long long`.
abbrev pub parsed_type : IntegralType → IntegralType
parsed_type (signed bits) = signed 64
parsed_type (unsigned bits) = unsigned 64

-- `std::from_chars_result`, with the characters from `ptr` to the end in place of `ptr`, and the
-- value that was stored.
pub data Errc : Type 0 where
  no_error invalid result_out_of_range : Errc

pub record FromChars {ℓ} (A : Type ℓ) : Type ℓ where
  pub ec : Errc
  pub rest : Bytes
  pub value : A

abbrev pub in_range : IntegralType → ℤ → Bool
in_range t v = if ltb_ℤ v (lowest t) then false else if ltb_ℤ (highest t) v then false else true

-- `-v` where there was a minus sign.
abbrev pub negate_if : Bool → ℕ → ℤ
negate_if false n = pos n
negate_if true n = if n == 0 then pos 0 else negsuc (n - 1)

-- `std::from_chars` for a digit string behind an optional sign; out of range stores nothing.
pub from_digits : IntegralType → Bool → Bytes → Bytes → FromChars ℤ
from_digits t minus whole digits =
    let (n, rest) = read_digits 0 digits in
    let v = negate_if minus n in
    if begins_with_digit digits
    then if in_range t v
      then record { ec = no_error; rest = rest; value = v }
      else record { ec = result_out_of_range; rest = rest; value = pos 0 }
    else record { ec = invalid; rest = whole; value = pos 0 }

-- A minus sign is read for signed types only.
unfoldable pub from_chars : IntegralType → Bytes → FromChars ℤ
unfolding from_digits
from_chars t [] = record { ec = invalid; rest = []; value = pos 0 }
from_chars (signed bits) (c ∷ cs) =
    if c == b'-'
    then from_digits (signed bits) true (c ∷ cs) cs
    else from_digits (signed bits) false (c ∷ cs) (c ∷ cs)
from_chars (unsigned bits) (c ∷ cs) = from_digits (unsigned bits) false (c ∷ cs) (c ∷ cs)

-- `first == last || *first == '-' || *first == '+'`, at the character after a plus sign.
abbrev pub bad_sign : Bytes → Bool
bad_sign [] = true
bad_sign (c ∷ cs) = c == b'-' || c == b'+'

-- `from_string` up to the call of `from_chars`: what is handed to it.
unfoldable pub numeric_input : Bytes → Result Bytes
numeric_input [] = err (invalid_argument (text "Empty numeric input"))
numeric_input (c ∷ cs) =
    if c == b'+'
    then if bad_sign cs then err (invalid_argument (text "Invalid numeric sign")) else ok cs
    else ok (c ∷ cs)

abbrev pub is_invalid : Errc → Bool
is_invalid invalid = true
is_invalid _ = false

abbrev pub is_out_of_range : Errc → Bool
is_out_of_range result_out_of_range = true
is_out_of_range _ = false

abbrev pub is_nonempty {ℓ} : {A : Type ℓ} → List A → Bool
is_nonempty [] = false
is_nonempty (x ∷ xs) = true

abbrev pub too_large : Error
too_large = out_of_range (text "Numeric input is out of range for the target type")

-- The two tests behind the call of `from_chars`.
unfoldable pub complete {ℓ} : {A : Type ℓ} → FromChars A → Result A
complete r =
    if is_invalid r.ec || is_nonempty r.rest
    then err (invalid_argument (text "Invalid numeric input"))
    else if is_out_of_range r.ec
    then err too_large
    else ok r.value

-- The bits of a value at a width, as a number.
unfoldable pub low_bits : ℕ → ℤ → ℕ
low_bits bits (pos n) = n % 2 ^ bits
low_bits bits (negsuc n) = 2 ^ bits - 1 - n % 2 ^ bits

-- The value of the bits in two's complement.
abbrev pub signed_value : ℕ → ℕ → ℤ
signed_value bits u = if ltb u (2 ^ (bits - 1)) then pos u else negsuc (2 ^ bits - 1 - u)

-- `static_cast<T>(value)`: the value modulo two to the width of `T`.
unfoldable pub static_cast : IntegralType → ℤ → ℤ
unfolding low_bits
static_cast (signed bits) v = signed_value bits (low_bits bits v)
static_cast (unsigned bits) v = pos (low_bits bits v)

-- The test against the limits of `T`, for integral types, and the conversion to `T`.
unfoldable pub narrow : IntegralType → ℤ → Result ℤ
unfolding static_cast
narrow t v =
    if ltb_ℤ v (lowest t) || ltb_ℤ (highest t) v then err too_large else ok (static_cast t v)

-- `string_serializable<T>::from_string` for an integral `T` that is not `bool`.
unfoldable pub from_string : IntegralType → Bytes → Result ℤ
unfolding numeric_input from_chars complete narrow
from_string t s = do
  input ← numeric_input s
  value ← complete (from_chars (parsed_type t) input)
  narrow t value

-- `std::tolower` in the "C" locale.
unfoldable pub tolower : ℕ → ℕ
tolower c = if leb b'A' c && leb c b'Z' then c + 32 else c

unfoldable pub to_string_bool : Bool → Bytes
to_string_bool t = if t then text "true" else text "false"

unfoldable pub from_string_bool : Bytes → Result Bool
unfolding tolower
from_string_bool s =
    let lower_s = map tolower s in
    if same_text lower_s (text "true") || same_text lower_s (text "1")
    then ok true
    else if same_text lower_s (text "false") || same_text lower_s (text "0")
    then ok false
    else err (
        invalid_argument
          (text "Invalid string format for boolean type. Expected 'true', 'false', '1', or '0'."))

-- `std::to_chars` and `std::from_chars` of the standard library at `double`.
pub record DoubleChars : Type 0 where
  -- `none` where `to_chars` reports an error
  pub to_chars : Double → Option Bytes
  pub from_chars : Bytes → FromChars Double

abbrev pub serialized : Option Bytes → Result Bytes
serialized none = err (runtime_error (text "Failed to serialize floating point value"))
serialized (some bytes) = ok bytes

module _ (chars : DoubleChars) where
  unfoldable pub to_string_double : Double → Result Bytes
  to_string_double t = serialized (chars.to_chars t)

  unfoldable pub from_string_double : Bytes → Result Double
  unfolding numeric_input complete
  from_string_double s = do input ← numeric_input s; complete (chars.from_chars input)
