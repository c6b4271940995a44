-- ===== src/Output/Composite.antt =====
-- internal/output/composite.go
use meshsync.Common.{◌≡◌, refl, ◌↔◌, List, [], ◌∷◌, Option, none, some}
use meshsync.Errors.{Error, join_errors, join_errors-none}
use meshsync.Output.{Write, Call, call}

append_error : Option Error → List Error → List Error
append_error none errs = errs
append_error (some e) errs = e ∷ errs

-- The loop over the pool: the errors in order, and what the writers left.
write_each : {S : Type 0} → List (Write S) → Call → S → List Error × S
unfolding append_error
write_each [] c s = ([], s)
write_each (writer ∷ pool) c s =
    let (e, s') = call writer c s in
    let (errs, s'') = write_each pool c s' in (append_error e errs, s'')

unfoldable pub write : {S : Type 0} → List (Write S) → Write S
unfolding write_each
write pool obj evtype config s =
    let (errs, s') = write_each pool (record { obj = obj; evtype = evtype; config = config }) s in
    (join_errors errs, s')

append_error-nil :
    (o : Option Error) (errs : List Error) → append_error o errs ≡ [] → (o ≡ none) × (errs ≡ [])
unfolding append_error
append_error-nil none errs h = (refl, h)
append_error-nil (some e) errs h = cc

join_errors_iff : (errs : List Error) → (join_errors errs ≡ none) ↔ (errs ≡ [])
join_errors_iff errs = (join_errors-none errs, λ h. rw h (unfold join_errors in refl))

module _ {S : Type 0} where
  -- Every writer gets the call, in the order of the pool, whether the ones before it failed or not.
  abbrev pub after_all : List (Write S) → Call → S → S
  after_all [] c s = s
  after_all (writer ∷ pool) c s = after_all pool c (call writer c s).1

  -- No writer fails when each is called on what the ones before it left.
  abbrev pub NoneFails : List (Write S) → Call → S → Type 0
  NoneFails [] c s = Unit {0}
  NoneFails (writer ∷ pool) c s =
      ((call writer c s).0 ≡ none) × NoneFails pool c (call writer c s).1

  write_each-state :
      (pool : List (Write S)) (c : Call) (s : S) → (write_each pool c s).1 ≡ after_all pool c s
  unfolding write_each
  write_each-state [] c s = refl
  write_each-state (w ∷ pool) c s = write_each-state pool c (call w c s).1

  write_each-NoneFails :
      (pool : List (Write S)) (c : Call) (s : S)
      → ((write_each pool c s).0 ≡ []) ↔ NoneFails pool c s
  unfolding write_each
  write_each-NoneFails [] c s = (λ h. tt, λ h. refl)
  write_each-NoneFails (w ∷ pool) c s =
      let (only, back) = write_each-NoneFails pool c (call w c s).1 in
      (
        λ h. let (e, rest) = append_error-nil _ _ h in (e, only rest),
        λ h. rw (h.0, append_error) (back h.1),
      )

  -- All writers of the pool are called, in order and each once, whatever fails, and the call
  -- succeeds exactly if none of them fails.
  pub composite_calls_all :
      (pool : List (Write S)) (c : Call) (s : S)
      → ((call (write pool) c s).1 ≡ after_all pool c s)
        × (((call (write pool) c s).0 ≡ none) ↔ NoneFails pool c s)
  unfolding write
  composite_calls_all pool c s =
      let (only, back) = write_each-NoneFails pool c s in
      let (to, from) = join_errors_iff (write_each pool c s).0 in
      (write_each-state pool c s, (λ h. only (to h), λ h. from (back h)))
