-- ===== src/Text/Contains.antt =====
-- What the search `t.find(p) != npos` finds.
use redisdal.Prelude.{
  Bool, true, false, ◌&&◌, [], ◌∷◌, ◌++◌, ◌≡◌, ◌≢◌, refl, inl, inr, arith, Bool-cases, ◌==◌,
}
use redisdal.Text.{Bytes, starts_with, contains}

starts_with-split : (t p : Bytes) → starts_with t p ≡ true → (after : Bytes) × (t ≡ p ++ after)
unfolding starts_with
starts_with-split t [] h = (t, refl)
starts_with-split [] (c ∷ p) h = cc
starts_with-split (b ∷ t) (c ∷ p) h =
    let (same, rest) = both (b == c) (starts_with t p) h in
    let (after, split) = starts_with-split t p rest in
    let e : b ≡ c = ground arith in (after, rw (e, split) refl)
  where
    both : (a b : Bool) → (a && b) ≡ true → (a ≡ true) × (b ≡ true)
    both true true h = (refl, refl)
    both true false h = cc
    both false b h = cc

contains-split :
    (t p : Bytes) → contains t p ≡ true → (before after : Bytes) × (t ≡ before ++ (p ++ after))
unfolding contains
contains-split [] p h = let (after, split) = starts_with-split [] p h in ([], after, split)
contains-split (b ∷ t) p h = elim (Bool-cases (starts_with (b ∷ t) p)) [
  | inl here ↦ let (after, split) = starts_with-split (b ∷ t) p here in ([], after, split)
  | inr further ↦
      let (before, after, split) = contains-split t p (rw (further) at h) in
      (b ∷ before, after, rw (split) refl)
]

-- A text that occurs nowhere is not found.
pub contains-absent :
    (t p : Bytes) → ((before after : Bytes) → t ≢ before ++ (p ++ after)) → contains t p ≡ false
contains-absent t p absent = elim (Bool-cases (contains t p)) [
  | inl found ↦
      let (before, after, split) = contains-split t p found in absurd (absent before after split)
  | inr missing ↦ missing
]
