-- ===== src/Handler/Slices/Batches.antt =====
-- The slices that splitIntoMultipleSlices (meshsync/handlers.go) makes.
use meshsync.Common.{
  ℕ, suc, ◌+◌, ◌%◌, ◌≤◌, ◌<◌, ◌≡◌, refl, ap, sym, ◌∙◌, ◌⊎◌, inl, inr, Bool, true, false, List, [],
  ◌∷◌, ◌++◌, arith, nat_eq, if◌then◌else◌, length, length-append, All, All-append,
}
use native.Mathlib.Nat.{suc-mod, mod-eq_of_lt, mod_self, mod-lt, zero-mod}
use mathlib.Core.List.{append-nil, append_assoc}
use meshsync.Handler.Slices.{with_rest, split_from, split_into_multiple_slices}

-- The index of the next element goes on, or starts again at 0 after a full slice.
mod_next :
    (n i : ℕ)
    → 0 < n
    → (((i + 1) % n ≡ 0) × (i % n + 1 ≡ n)) ⊎ (((i + 1) % n ≡ i % n + 1) × (i % n + 1 < n))
mod_next n i h = elim (le_cases (suc (i % n)) n) [
  | inl less ↦ inr (next ∙ (mod-eq_of_lt less ∙ omega arith), omega (arith, less))
  | inr full ↦
      let same : suc (i % n) ≡ n = omega (arith, mod-lt i h) in
      inl (next ∙ (ap (λ k. k % n) same ∙ mod_self n), omega (arith, same))
]
  where
    le_cases : (a b : ℕ) → (a < b) ⊎ (b ≤ a)
    le_cases a b = ground arith

    plus_one : i + 1 ≡ suc i
    plus_one = omega arith

    next : (i + 1) % n ≡ suc (i % n) % n
    next = ap (λ k. k % n) plus_one ∙ suc-mod i n

module _ {ℓ} {A : Type ℓ} where
  abbrev pub flatten : List (List A) → List A
  flatten [] = []
  flatten (x ∷ xs) = x ++ flatten xs

  flatten-append : (xs : List (List A)) (y : List A) → flatten (xs ++ y ∷ []) ≡ flatten xs ++ y
  flatten-append [] y = append-nil y
  flatten-append (x ∷ xs) y =
      ap (λ l. x ++ l) (flatten-append xs y) ∙ sym (append_assoc x (flatten xs) y)

  flatten-with_rest :
      (result : List (List A)) (temp : List A)
      → flatten (with_rest result temp) ≡ flatten result ++ temp
  unfolding with_rest
  flatten-with_rest result [] = sym (append-nil (flatten result))
  flatten-with_rest result (x ∷ temp) = flatten-append result (x ∷ temp)

  flatten-next :
      (full : Bool) (result : List (List A)) (temp rest : List A)
      → flatten (if full then result ++ temp ∷ [] else result)
          ++ ((if full then [] else temp) ++ rest)
        ≡ flatten result ++ (temp ++ rest)
  flatten-next true result temp rest =
      ap (λ l. l ++ rest) (flatten-append result temp) ∙ append_assoc (flatten result) temp rest
  flatten-next false result temp rest = refl

  flatten-split_from :
      (n idx : ℕ) (val : A) (s : List A) (result : List (List A)) (temp : List A)
      → flatten (split_from n idx (val ∷ s) result temp) ≡ flatten result ++ (temp ++ val ∷ s)
  unfolding split_from
  flatten-split_from n idx val [] result temp =
      let full = nat_eq ((idx + 1) % n) 0 in
      let result' = if full then result ++ (temp ++ val ∷ []) ∷ [] else result in
      let temp' = if full then [] else temp ++ val ∷ [] in
      flatten-with_rest result' temp'
      ∙ (ap (λ l. flatten result' ++ l) (sym (append-nil temp'))
          ∙ (flatten-next full result (temp ++ val ∷ []) []
              ∙ ap (λ l. flatten result ++ l) (append-nil (temp ++ val ∷ []))))
  flatten-split_from n idx val (w ∷ s) result temp =
      let full = nat_eq ((idx + 1) % n) 0 in
      let result' = if full then result ++ (temp ++ val ∷ []) ∷ [] else result in
      let temp' = if full then [] else temp ++ val ∷ [] in
      flatten-split_from n (idx + 1) w s result' temp'
      ∙ (flatten-next full result (temp ++ val ∷ []) (w ∷ s)
          ∙ ap (λ l. flatten result ++ l) (append_assoc temp (val ∷ []) (w ∷ s)))

  abbrev pub Fits : ℕ → List A → Type 0
  Fits n batch = (0 < length batch) × (length batch ≤ n)

  with_rest-Fits :
      (n : ℕ) (result : List (List A)) (temp : List A)
      → All (Fits n) result
      → length temp ≤ n
      → All (Fits n) (with_rest result temp)
  unfolding with_rest
  with_rest-Fits n result [] h k = h
  with_rest-Fits n result (x ∷ temp) h k =
      All-append (Fits n) result ((x ∷ temp) ∷ []) h ((omega arith, k), tt)

  step-Fits :
      (n idx : ℕ) (val : A) (result : List (List A)) (temp : List A)
      → 0 < n
      → All (Fits n) result
      → length temp ≡ idx % n
      → let full = nat_eq ((idx + 1) % n) 0 in
        (All (Fits n) (if full then result ++ (temp ++ val ∷ []) ∷ [] else result))
        × (length (if full then [] else temp ++ val ∷ []) ≡ (idx + 1) % n)
  step-Fits n idx val result temp pos h k = elim (mod_next n idx pos) [
    | inl (wraps, full) ↦ rw wraps (
      All-append (Fits n) result ((temp ++ val ∷ []) ∷ []) h (
        (
          omega (arith, length-append temp (val ∷ [])),
          omega (arith, length-append temp (val ∷ [])),
        ),
        tt,
      ),
      refl,
    )
    | inr (steps, less) ↦
        (ground (arith, steps, h), ground (arith, steps, length-append temp (val ∷ [])))
  ]

  split_from-Fits :
      (n idx : ℕ) (s : List A) (result : List (List A)) (temp : List A)
      → 0 < n
      → All (Fits n) result
      → length temp ≡ idx % n
      → All (Fits n) (split_from n idx s result temp)
  unfolding split_from
  split_from-Fits n idx [] result temp pos h k = h
  split_from-Fits n idx (val ∷ []) result temp pos h k =
      let (fit, size) = step-Fits n idx val result temp pos h k in
      with_rest-Fits n
        (if nat_eq ((idx + 1) % n) 0 then result ++ (temp ++ val ∷ []) ∷ [] else result)
        (if nat_eq ((idx + 1) % n) 0 then [] else temp ++ val ∷ []) fit
        (omega (arith, size, mod-lt (idx + 1) pos))
  split_from-Fits n idx (val ∷ w ∷ s) result temp pos h k =
      let (fit, size) = step-Fits n idx val result temp pos h k in
      split_from-Fits n (idx + 1) (w ∷ s)
        (if nat_eq ((idx + 1) % n) 0 then result ++ (temp ++ val ∷ []) ∷ [] else result)
        (if nat_eq ((idx + 1) % n) 0 then [] else temp ++ val ∷ []) pos fit size

  -- The slices, one after another, are the input, and if the limit is not 0, each slice has at
  -- least one element and at most as many as the limit.
  pub slices_partition :
      (s : List A) (n : ℕ)
      → 0 < n
      → (flatten (split_into_multiple_slices s n) ≡ s)
        × (All (Fits n) (split_into_multiple_slices s n))
  unfolding split_into_multiple_slices
  slices_partition [] n pos = (refl, tt)
  slices_partition (val ∷ s) n pos = (
    flatten-split_from n 0 val s [] [],
    split_from-Fits n 0 (val ∷ s) [] [] pos tt (sym (zero-mod n)),
  )
