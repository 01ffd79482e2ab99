-- ===== src/Template/Caller/Distinct.antt =====
-- Repeated keys in the unordered containers of typed methods.
use redisdal.Prelude.{
  Option-cases, Bool, true, false, ◌||◌, none, some, List, [], ◌∷◌, ◌++◌, ◌≡◌, refl, sym, inl, inr,
  Bool-cases,
}
use redisdal.Containers.{Eq, has_element, insert_element, lookup, emplace_pair}
use redisdal.Template.Caller.{fields_of}

pub or-false : (b : Bool) → (b || false) ≡ b
or-false true = refl
or-false false = refl

pub or_assoc : (a b c : Bool) → (a || (b || c)) ≡ ((a || b) || c)
or_assoc true b c = refl
or_assoc false b c = refl

neither : (a b : Bool) → (a || b) ≡ false → (a ≡ false) × (b ≡ false)
neither true b e = cc
neither false b e = (refl, e)

module _ {K : Type 0} ⦃eq : Eq K⦄ where
  -- No key stands twice in the list.
  abbrev pub IsDistinct : List K → Type 0
  IsDistinct [] = Unit
  IsDistinct (x ∷ xs) = (has_element x xs ≡ false) × IsDistinct xs

  same_sym : (a b : K) → eq.same a b ≡ false → eq.same b a ≡ false
  same_sym a b other = elim (Bool-cases (eq.same b a)) [
    | inl same ↦
        let equal : b ≡ a = (eq.same_iff b a).0 same in
        let here : eq.same a b ≡ true = (eq.same_iff a b).1 (sym equal) in cc
    | inr different ↦ different
  ]

  pub has_element-append :
      (x k : K) (xs : List K) → has_element x (xs ++ (k ∷ [])) ≡ (has_element x xs || eq.same k x)
  unfolding has_element
  has_element-append x k [] = or-false (eq.same k x)
  has_element-append x k (y ∷ xs) =
      rw (has_element-append x k xs) (or_assoc (eq.same y x) (has_element x xs) (eq.same k x))

  pub append-IsDistinct :
      (k : K) (xs : List K) → has_element k xs ≡ false → IsDistinct xs → IsDistinct (xs ++ (k ∷ []))
  unfolding has_element
  append-IsDistinct k [] new h = (refl, tt)
  append-IsDistinct k (x ∷ xs) new (fresh, h) =
      let (other, later) = neither _ _ new in
      (rw (has_element-append x k xs, fresh) (same_sym x k other), append-IsDistinct k xs later h)

  pub insert_element-IsDistinct :
      (k : K) (set : List K) → IsDistinct set → IsDistinct (insert_element k set)
  unfolding insert_element
  insert_element-IsDistinct k set h = elim (Bool-cases (has_element k set)) [
    | inl present ↦ rw (present) h
    | inr new ↦ rw (new) (append-IsDistinct k set new h)
  ]

module _ {K V : Type 0} ⦃eq : Eq K⦄ where
  fields_of-append :
      (k : K) (v : V) (m : List (K × V)) → fields_of (m ++ ((k, v) ∷ [])) ≡ fields_of m ++ (k ∷ [])
  fields_of-append k v [] = refl
  fields_of-append k v (p ∷ m) = rw (fields_of-append k v m) refl

  -- A field is present when a lookup finds it.
  lookup-present :
      (k : K) (m : List (K × V)) → lookup k m ≡ none → has_element k (fields_of m) ≡ false
  unfolding lookup has_element
  lookup-present k [] e = refl
  lookup-present k ((j, v) ∷ m) e = elim (Bool-cases (eq.same j k)) [
    | inl same ↦ let found : some v ≡ none = rw (same) at e in cc
    | inr other ↦
        let later : lookup k m ≡ none = rw (other) at e in rw (other) (lookup-present k m later)
  ]

  pub emplace_pair-IsDistinct :
      (k : K) (v : V) (m : List (K × V))
      → IsDistinct (fields_of m)
      → IsDistinct (fields_of (emplace_pair k v m))
  unfolding emplace_pair
  emplace_pair-IsDistinct k v m h = elim (Option-cases (lookup k m)) [
    | inl new ↦
        rw (new, fields_of-append k v m)
          (append-IsDistinct k (fields_of m) (lookup-present k m new) h)
    | inr (old, present) ↦ rw (present) h
  ]
