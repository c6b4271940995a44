-- ===== src/Snapshot.antt =====
-- GenerateUniqueFileNameForSnapshot of internal/file/file.go. The date is an argument, and `exists`
-- says of which names os.Stat does not report that there is no such file.
use meshsync.Common.{
  ◌≤◌, ◌⊎◌, inl, inr, sym, ap, ◌∙◌, ℕ, zero, suc, ◌+◌, ◌<◌, String, ◌≡◌, refl, Bool, true, false,
  Option, none, some, [], ◌∷◌, arith, ltb, if◌then◌else◌,
}
use mathlib.Core.Path.{subst}
use meshsync.Common.Text.{concat, decimal}
use meshsync.Errors.{message, Result, ok, err}

-- %02d
two_digits : ℕ → String
two_digits i = if ltb i 10 then concat ("0" ∷ decimal i ∷ []) else decimal i

unfoldable pub snapshot_name : String → String → ℕ → String
unfolding two_digits
snapshot_name current_date format i =
    concat ("meshery-cluster-snapshot-" ∷ current_date ∷ "-" ∷ two_digits i ∷ "." ∷ format ∷ [])

name_or_error : Option String → Result String
name_or_error none = err (message "no unique name available")
name_or_error (some name) = ok name

module _ (exists : String → Bool) (current_date format : String) where
  -- The loop from index `i` on, with `left` turns left.
  first_free : ℕ → ℕ → Option String
  first_free zero i = none
  first_free (suc left) i =
      let rest = first_free left (i + 1) in
      if exists (snapshot_name current_date format i)
      then rest
      else some (snapshot_name current_date format i)

  unfoldable pub generate_unique_file_name_for_snapshot : Result String
  unfolding first_free name_or_error
  generate_unique_file_name_for_snapshot = name_or_error (first_free 1024 0)

  abbrev pub taken : ℕ → Bool
  taken i = exists (snapshot_name current_date format i)

  passed : (left i : ℕ) → taken i ≡ true → first_free (suc left) i ≡ first_free left (i + 1)
  unfolding first_free
  passed left i there = ground (arith, there)

  stops_at :
      (left i : ℕ)
      → taken i ≡ false
      → first_free (suc left) i ≡ some (snapshot_name current_date format i)
  unfolding first_free
  stops_at left i free = ground (arith, free)

  first_free-found :
      (left i n : ℕ)
      → i ≤ n
      → n < i + left
      → ((j : ℕ) → i ≤ j → j < n → taken j ≡ true)
      → taken n ≡ false
      → first_free left i ≡ some (snapshot_name current_date format n)
  first_free-found zero i n low bound before free = absurd (omega (arith, low, bound))
  first_free-found (suc left) i n low bound before free = elim (same_or_less i n low) [
    | inl same ↦
        stops_at left i (subst (λ k. taken k ≡ false) (sym same) free)
        ∙ ap (λ k. some (snapshot_name current_date format k)) same
    | inr less ↦
        passed left i (before i (omega arith) less)
        ∙ first_free-found left (i + 1) n (omega (arith, less)) (omega (arith, bound))
            (λ j a b. before j (omega (arith, a)) b) free
  ]
    where
      same_or_less : (a b : ℕ) → a ≤ b → (a ≡ b) ⊎ (a < b)
      same_or_less a b h = ground arith

  first_free-full :
      (left i : ℕ) → ((j : ℕ) → i ≤ j → j < i + left → taken j ≡ true) → first_free left i ≡ none
  unfolding first_free
  first_free-full zero i before = refl
  first_free-full (suc left) i before =
      passed left i (before i (omega arith) (omega arith))
      ∙ first_free-full left (i + 1) (λ j a b. before j (omega (arith, a)) (omega (arith, b)))

  -- If the file of an index below 1024 does not exist and those of all smaller ones do, the name
  -- given is that of this index.
  pub snapshot_name_first_free :
      (n : ℕ)
      → n < 1024
      → ((j : ℕ) → j < n → taken j ≡ true)
      → taken n ≡ false
      → generate_unique_file_name_for_snapshot ≡ ok (snapshot_name current_date format n)
  unfolding generate_unique_file_name_for_snapshot
  snapshot_name_first_free n bound before free =
      ap name_or_error
        (first_free-found 1024 0 n (omega arith) (omega (arith, bound)) (λ j a b. before j b) free)

  -- If the files of all indices below 1024 exist, there is an error.
  pub snapshot_names_taken :
      ((j : ℕ) → j < 1024 → taken j ≡ true)
      → generate_unique_file_name_for_snapshot ≡ err (message "no unique name available")
  unfolding generate_unique_file_name_for_snapshot
  snapshot_names_taken before =
      ap name_or_error (first_free-full 1024 0 (λ j a b. before j (omega (arith, b))))
