-- ===== src/Errors.antt =====
-- Go's `error` values. A function that returns `error` alone returns `Option Error`; one that
-- returns a value and an error returns a `Result`. `coded` is errors.New of meshkit with one of the
-- codes of internal/config/error.go, internal/pipeline/error.go and meshsync/error.go.
use meshsync.Common.{String, ◌⊎◌, inl, inr, ◌≡◌, refl, Option, none, some, List, [], ◌∷◌}

mutual
  pub data Error : Type 0 where
    message : String → Error
    coded : String → String → Error → Error
    joined : Errors → Error

  pub data Errors : Type 0 where
    nil : Errors
    cons : Error → Errors → Errors

pub data Result {ℓ} (A : Type ℓ) : Type ℓ where
  ok : A → Result A
  err : Error → Result A

-- What errors.Is and errors.Unwrap see of fmt.Errorf with %w: the text in front, and the cause.
abbrev pub wrapped : String → Error → Error
wrapped text cause = joined (cons (message text) (cons cause nil))

infixl 5 ◌>>=◌
abbrev pub ◌>>=◌ {ℓ κ} : {A : Type ℓ} {B : Type κ} → Result A → (A → Result B) → Result B
ok a >>= f = f a
err e >>= f = err e

abbrev pub map_err {ℓ} : {A : Type ℓ} → (Error → Error) → Result A → Result A
map_err f (ok a) = ok a
map_err f (err e) = err (f e)

-- A call that decodes into a variable, or fails with the decoder's error.
abbrev pub or_error {ℓ} : {A : Type ℓ} → Option A → Error → Result A
or_error none e = err e
or_error (some a) e = ok a

abbrev errors_of : List Error → Errors
errors_of [] = nil
errors_of (e ∷ es) = cons e (errors_of es)

-- `if len(errs) > 0 { return errors.Join(errs...) }; return nil`
unfoldable pub join_errors : List Error → Option Error
join_errors [] = none
join_errors (e ∷ es) = some (joined (errors_of (e ∷ es)))

pub join_errors-none : (es : List Error) → join_errors es ≡ none → es ≡ []
unfolding join_errors
join_errors-none [] h = refl
join_errors-none (e ∷ es) h = cc

-- To split on a computed result and keep the equation.
pub Result-cases {ℓ} :
    {A : Type ℓ} (r : Result A) → ((e : Error) × (r ≡ err e)) ⊎ ((a : A) × (r ≡ ok a))
Result-cases (err e) = inl (e, refl)
Result-cases (ok a) = inr (a, refl)
