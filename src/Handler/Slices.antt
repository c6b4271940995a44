-- ===== src/Handler/Slices.antt =====
-- splitIntoMultipleSlices of meshsync/handlers.go, and handleInformerStoreRequest, which publishes
-- the objects of the stores in slices of five.
pub mod Batches
use meshsync.Common.{
  ℕ, zero, suc, ◌+◌, ◌*◌, ◌%◌, ◌≤◌, ◌<◌, ◌≡◌, refl, Bool, true, false, Option, none, some, List, [],
  ◌∷◌, ◌++◌, arith, nat_eq, leb, if◌then◌else◌, length, All,
}

module _ {ℓ} {A : Type ℓ} where
  -- if len(temp) != 0 { result = append(result, temp) }
  unfoldable pub with_rest : List (List A) → List A → List (List A)
  with_rest result [] = result
  with_rest result (x ∷ temp) = result ++ (x ∷ temp) ∷ []

  abbrev pub is_last : List A → Bool
  is_last [] = true
  is_last (x ∷ s) = false

  -- The loop from the element at index `idx` on, which is followed by `s`.
  unfoldable pub split_from : ℕ → ℕ → List A → List (List A) → List A → List (List A)
  unfolding with_rest
  split_from max_itms_per_slice idx [] result temp = result
  split_from max_itms_per_slice idx (val ∷ s) result temp =
      let full = nat_eq ((idx + 1) % max_itms_per_slice) 0 in
      let result' = if full then result ++ (temp ++ val ∷ []) ∷ [] else result in
      let temp' = if full then [] else temp ++ val ∷ [] in
      split_from max_itms_per_slice (idx + 1) s
        (if is_last s then with_rest result' temp' else result') temp'

  unfoldable pub split_into_multiple_slices : List A → ℕ → List (List A)
  unfolding split_from
  split_into_multiple_slices s max_itms_per_slice = split_from max_itms_per_slice 0 s [] []

split_example :
    split_into_multiple_slices {A = ℕ} (1 ∷ 2 ∷ 3 ∷ 4 ∷ 5 ∷ 6 ∷ 7 ∷ 5 ∷ 4 ∷ 4 ∷ []) 3
    ≡ (1 ∷ 2 ∷ 3 ∷ []) ∷ (4 ∷ 5 ∷ 6 ∷ []) ∷ (7 ∷ 5 ∷ 4 ∷ []) ∷ (4 ∷ []) ∷ []
unfolding split_into_multiple_slices
split_example = refl
