-- ===== src/Containers.antt =====
-- `std::unordered_map` and `std::unordered_set` of the standard library at the key type of the
-- typed facade: lists in the order of iteration, new elements last.
use redisdal.Prelude.{
  Bool, true, false, ◌||◌, Option, none, some, List, [], ◌∷◌, ◌++◌, ◌≡◌, ◌↔◌, if◌then◌else◌,
}
use redisdal.Text.{Bytes, same_text, same_text_iff}

-- `std::equal_to` of a key type.
pub record Eq (K : Type 0) : Type 0 where
  pub same : K → K → Bool
  pub same_iff : (a b : K) → (same a b ≡ true) ↔ (a ≡ b)

instance unfoldable pub bytes_eq : Eq Bytes
bytes_eq = record { same = same_text; same_iff = same_text_iff }

abbrev is_present {ℓ} : {V : Type ℓ} → Option V → Bool
is_present none = false
is_present (some v) = true

module _ {K : Type 0} ⦃eq : Eq K⦄ where
  unfoldable pub has_element : K → List K → Bool
  has_element k [] = false
  has_element k (x ∷ xs) = eq.same x k || has_element k xs

  -- `insert` of a set.
  unfoldable pub insert_element : K → List K → List K
  unfolding has_element
  insert_element k set = if has_element k set then set else set ++ (k ∷ [])

  module _ {V : Type 0} where
    unfoldable pub lookup : K → List (K × V) → Option V
    lookup k [] = none
    lookup k ((j, v) ∷ m) = if eq.same j k then some v else lookup k m

    -- `emplace` of a map, which keeps a value that is there.
    unfoldable pub emplace_pair : K → V → List (K × V) → List (K × V)
    unfolding lookup
    emplace_pair k v m = if is_present (lookup k m) then m else m ++ ((k, v) ∷ [])

    unfoldable pub emplace_pairs : List (K × V) → List (K × V) → List (K × V)
    unfolding emplace_pair
    emplace_pairs [] m = m
    emplace_pairs ((k, v) ∷ pairs) m = emplace_pairs pairs (emplace_pair k v m)

    -- `if (it != map.end()) { it->second = v; }`, with `it` the position of `k`.
    unfoldable pub assign_found : K → V → List (K × V) → List (K × V)
    assign_found k v [] = []
    assign_found k v ((j, w) ∷ m) =
        let rest = assign_found k v m in if eq.same j k then (j, v) ∷ m else (j, w) ∷ rest
