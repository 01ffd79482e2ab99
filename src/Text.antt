-- ===== src/Text.antt =====
-- `std::string` as the list of its bytes: literals, comparison and search.
pub mod Decimal
pub mod Contains
use Prim.Native.Char.{code}
use Prim.Native.String
use redisdal.Prelude.{
  ℕ, String, Bool, true, false, ◌&&◌, ◌||◌, List, [], ◌∷◌, ◌++◌, ◌≡◌, refl, ◌↔◌, arith, ◌==◌,
  Option, none, some, if◌then◌else◌,
}

abbrev pub Bytes : Type 0
Bytes = List ℕ

-- The bytes of a literal, which is ASCII wherever the source has one. Kept shut: two literals are
-- told apart by `same_text` in tests.
unfoldable pub text : String → Bytes
text String.[] = []
text (String.◌∷◌ c s) = code c ∷ text s

-- `==` of two strings.
unfoldable pub same_text : Bytes → Bytes → Bool
same_text [] [] = true
same_text (x ∷ xs) (y ∷ ys) = x == y && same_text xs ys
same_text _ _ = false

pub same_text_iff : (a b : Bytes) → (same_text a b ≡ true) ↔ (a ≡ b)
unfolding same_text
same_text_iff (x ∷ a) (y ∷ b) = ground (arith, same_text_iff a b)
same_text_iff _ _ = ground arith

pub same_text_refl : (a : Bytes) → same_text a a ≡ true
same_text_refl a = (same_text_iff a a).1 refl

-- Whether `t` begins with `p`.
unfoldable pub starts_with : Bytes → Bytes → Bool
starts_with t [] = true
starts_with [] (c ∷ p) = false
starts_with (b ∷ t) (c ∷ p) = b == c && starts_with t p

-- `t.find(p) != npos`
unfoldable pub contains : Bytes → Bytes → Bool
unfolding starts_with
contains [] p = starts_with [] p
contains (b ∷ t) p = starts_with (b ∷ t) p || contains t p
