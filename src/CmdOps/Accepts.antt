-- ===== src/CmdOps/Accepts.antt =====
-- When the argument builders of src/redis_cmd_ops.cpp succeed: a rule for each way to compose them.
use redisdal.Prelude.{
  Bool, true, false, Option, none, some, List, [], ◌∷◌, is_empty, ◌≡◌, ◌≢◌, refl, arith,
  if◌then◌else◌,
}
use redisdal.Prelude.Int.{ℤ, pos, ◌≤ℤ◌, ltb_ℤ}
use redisdal.Errors.{Error, Result, ok, err, ◌>>=◌}

-- Acceptance of the parts of a read.
abbrev pub IsPositive : Option ℤ → Type 0
IsPositive none = Unit
IsPositive (some count) = pos 1 ≤ℤ count

abbrev pub IsNatural : Option ℤ → Type 0
IsNatural none = Unit
IsNatural (some n) = pos 0 ≤ℤ n

-- `a` where `P` holds, and an exception otherwise.
pub data YieldsIf {A : Type 0} (P : Type 0) (a : A) : Result A → Type 0 where
  yields : P → YieldsIf P a (ok a)
  refused : (e : Error) → ¬ P → YieldsIf P a (err e)

module _ {A B : Type 0} {P Q : Type 0} {a : A} {b : B} where
  pub YieldsIf->>= :
      {r : Result A} (f : A → Result B)
      → YieldsIf P a r
      → YieldsIf Q b (f a)
      → YieldsIf (P × Q) b (r >>= f)
  YieldsIf->>= f (yields p) h = YieldsIf-and p h
    where
      YieldsIf-and : {r : Result B} → P → YieldsIf Q b r → YieldsIf (P × Q) b r
      YieldsIf-and p (yields q) = yields (p, q)
      YieldsIf-and p (refused e not_q) = refused e (λ both. not_q both.1)
  YieldsIf->>= f (refused e not_p) h = refused e (λ both. not_p both.0)

module _ {A : Type 0} {P Q : Type 0} {a : A} where
  -- A guard that throws where its test holds, before the rest.
  pub YieldsIf-guard :
      (test : Bool) (e : Error) {r : Result A}
      → (test ≡ true → ¬ P)
      → (test ≡ false → P)
      → YieldsIf Q a r
      → YieldsIf (P × Q) a (if test then err e else r)
  YieldsIf-guard true e not_p p h = refused e (λ both. not_p refl both.0)
  YieldsIf-guard false e not_p p (yields q) = yields (p refl, q)
  YieldsIf-guard false e not_p p (refused x not_q) = refused x (λ both. not_q both.1)

pub YieldsIf-unit :
    {A : Type 0} {P : Type 0} {a : A} {r : Result A} → YieldsIf (P × Unit) a r → YieldsIf P a r
YieldsIf-unit (yields p) = yields p.0
YieldsIf-unit (refused e not_p) = refused e (λ p. not_p (p, tt))

module _ {A : Type 0} where
  pub empty : (xs : List A) → is_empty xs ≡ true → ¬ (xs ≢ [])
  empty [] e h = h refl
  empty (x ∷ xs) e h = cc

  pub full : (xs : List A) → is_empty xs ≡ false → xs ≢ []
  full [] e = cc
  full (x ∷ xs) e = λ h. cc

pub ltb_ℤ-pos : (n : ℤ) → ltb_ℤ (pos 0) n ≡ true → pos 1 ≤ℤ n
ltb_ℤ-pos n h = ground arith

pub ltb_ℤ-not_pos : (n : ℤ) → ltb_ℤ (pos 0) n ≡ false → ¬ (pos 1 ≤ℤ n)
ltb_ℤ-not_pos n h = ground arith

pub ltb_ℤ-negative : (n : ℤ) → ltb_ℤ n (pos 0) ≡ true → ¬ (pos 0 ≤ℤ n)
ltb_ℤ-negative n h = ground arith

pub ltb_ℤ-natural : (n : ℤ) → ltb_ℤ n (pos 0) ≡ false → pos 0 ≤ℤ n
ltb_ℤ-natural n h = ground arith
