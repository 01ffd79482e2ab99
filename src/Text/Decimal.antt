-- ===== src/Text/Decimal.antt =====
-- `std::to_string` of integers, and the digit loop of `std::from_chars` and `std::stoul` in base 10.
use mathlib.Core.Logic.{dite, dif_pos, dif_neg}
use mathlib.Core.WellFounded.{Acc}
use redisdal.Prelude.{
  ℕ, suc, ◌+◌, ◌-◌, ◌*◌, ◌/◌, ◌%◌, ◌<◌, Bool, true, false, ◌&&◌, List, [], ◌∷◌, ◌++◌, ◌≡◌, refl,
  ◌≤◌, All, ◌∙◌, ap, append_assoc, arith, leb, if◌then◌else◌, dec_lt,
}
use redisdal.Prelude.Int.{ℤ, pos, negsuc}
use native.Mathlib.Bridge.{le_prop}
use redisdal.Prelude.Order.{lt_wf}

decimal_acc : (n : ℕ) → Acc ◌<◌ n → List ℕ
decimal_acc n (Acc.intro _ smaller) =
    dite (dec_lt n 10) (λ _. (b'0' + n) ∷ [])
      (λ h. decimal_acc (n / 10) (smaller (n / 10) (omega arith)) ++ ((b'0' + n % 10) ∷ []))

-- `std::to_string` of an unsigned integer.
unfoldable pub decimal : ℕ → List ℕ
unfolding decimal_acc lt_wf dec_lt
decimal n = decimal_acc n (lt_wf.apply n)

-- `std::to_string` of a signed integer.
unfoldable pub to_string : ℤ → List ℕ
to_string (pos n) = decimal n
to_string (negsuc n) = b'-' ∷ decimal (suc n)

abbrev pub is_digit : ℕ → Bool
is_digit c = leb b'0' c && leb c b'9'

-- The value of the longest run of digits, behind `value`, and what follows the run.
unfoldable pub read_digits : ℕ → List ℕ → ℕ × List ℕ
read_digits value [] = (value, [])
read_digits value (c ∷ cs) =
    let rest = read_digits (value * 10 + (c - b'0')) cs in
    if is_digit c then rest else (value, c ∷ cs)

-- Whether there is a digit to read.
unfoldable pub begins_with_digit : List ℕ → Bool
begins_with_digit [] = false
begins_with_digit (c ∷ cs) = is_digit c

read_digits-digit :
    (v d k : ℕ) (cs : List ℕ)
    → d < 10
    → v * 10 + d ≡ k
    → read_digits v ((b'0' + d) ∷ cs) ≡ read_digits k cs
unfolding read_digits
read_digits-digit v d k cs h e =
    rw (digit_test d h) (ap (λ (j : ℕ). read_digits j cs) (omega arith))
  where
    digit_test : (d : ℕ) → d < 10 → is_digit (b'0' + d) ≡ true
    digit_test d h = ground arith

read_digits-decimal_acc :
    (n : ℕ) (w : Acc ◌<◌ n) (cs : List ℕ) → read_digits 0 (decimal_acc n w ++ cs) ≡ read_digits n cs
unfolding decimal_acc
read_digits-decimal_acc n (Acc.intro _ smaller) cs = elim (dec_lt n 10) [
  | yes small ↦ rw (dif_pos _ le_prop small) (read_digits-digit 0 n n cs small (omega arith))
  | no large ↦
      rw (dif_neg _ large, append_assoc)
        (read_digits-decimal_acc (n / 10) (smaller (n / 10) (omega arith)) ((b'0' + n % 10) ∷ cs)
          ∙ read_digits-digit (n / 10) (n % 10) n cs (omega arith) (omega arith))
]

-- Reading the digits of a number that was printed gives the number.
pub read_digits-decimal : (n : ℕ) (cs : List ℕ) → read_digits 0 (decimal n ++ cs) ≡ read_digits n cs
unfolding decimal
read_digits-decimal n = read_digits-decimal_acc n (lt_wf.apply n)

decimal_acc-begins :
    (n : ℕ) (w : Acc ◌<◌ n) (cs : List ℕ) → begins_with_digit (decimal_acc n w ++ cs) ≡ true
unfolding decimal_acc
decimal_acc-begins n (Acc.intro _ smaller) cs = elim (dec_lt n 10) [
  | yes small ↦ rw (dif_pos _ le_prop small) (unfold begins_with_digit in ground arith)
  | no large ↦
      rw (dif_neg _ large, append_assoc)
        (decimal_acc-begins (n / 10) (smaller (n / 10) (omega arith)) ((b'0' + n % 10) ∷ cs))
]

-- A printed number is not empty, and begins with a digit.
pub decimal-begins : (n : ℕ) (cs : List ℕ) → begins_with_digit (decimal n ++ cs) ≡ true
unfolding decimal
decimal-begins n = decimal_acc-begins n (lt_wf.apply n)

pub read_digits_stop :
    (n c : ℕ) (cs : List ℕ) → is_digit c ≡ false → read_digits n (c ∷ cs) ≡ (n, c ∷ cs)
unfolding read_digits
read_digits_stop n c cs h = rw h

decimal_runs : decimal 6379 ≡ b'6' ∷ b'3' ∷ b'7' ∷ b'9' ∷ []
unfolding decimal
decimal_runs = refl

-- The digits of a number.
abbrev pub IsDigit : ℕ → Type 0
IsDigit c = (b'0' ≤ c) × (c ≤ b'9')

All-++ : (xs ys : List ℕ) → All IsDigit xs → All IsDigit ys → All IsDigit (xs ++ ys)
All-++ [] ys h k = k
All-++ (x ∷ xs) ys (p, h) k = (p, All-++ xs ys h k)

decimal_acc-IsDigit : (n : ℕ) (w : Acc ◌<◌ n) → All IsDigit (decimal_acc n w)
unfolding decimal_acc
decimal_acc-IsDigit n (Acc.intro _ smaller) = elim (dec_lt n 10) [
  | yes small ↦ rw (dif_pos _ le_prop small) ((omega arith, omega arith), tt)
  | no large ↦ rw (dif_neg _ large) (
      All-++ _ _ (decimal_acc-IsDigit (n / 10) (smaller (n / 10) (omega arith)))
        ((omega arith, omega arith), tt))
]

-- A number is printed in digits only.
pub decimal-IsDigit : (n : ℕ) → All IsDigit (decimal n)
unfolding decimal
decimal-IsDigit n = decimal_acc-IsDigit n (lt_wf.apply n)
