-- ===== src/Startup/Run/Kept.antt =====
-- What a call of Run (pkg/lib/meshsync/meshsync.go) leaves as it is, wherever it ends.
use meshsync.Common.{Bool, true, false, Option, none, some, if◌then◌else◌}
use meshsync.Errors.{Error, Result, ok, err}
use meshsync.Startup.Run.Effects.{
  World, Outcome, returned, failed, panicked, waiting, Action, continue, ◌>>=◌, lift, fail_if, when,
}

module _ {H B : Type 0} (P : World H B → Type 0) where
  -- `P` holds after the action if it holds before it.
  pub record IsKept {A : Type 0} (m : Action H B A) : Type 0 where
    pub keeps : (w : World H B) → P w → P (m w).1

  pub idle : {A : Type 0} {m : Action H B A} → ((w : World H B) → P w → P (m w).1) → IsKept m
  idle keeps = record { keeps = keeps }

  continue-kept :
      {A A' : Type 0} (r : Outcome A × World H B) (f : A → Action H B A')
      → ((a : A) → IsKept (f a))
      → P r.1
      → P (continue r f).1
  continue-kept (returned a, w) f rest h = (rest a).keeps w h
  continue-kept (failed e, w) f rest h = h
  continue-kept (panicked, w) f rest h = h
  continue-kept (waiting, w) f rest h = h

  pub bind-IsKept :
      {A A' : Type 0} (m : Action H B A) (f : A → Action H B A')
      → IsKept m
      → ((a : A) → IsKept (f a))
      → IsKept (m >>= f)
  unfolding ◌>>=◌
  bind-IsKept m f first rest = record {
    keeps = λ w h. continue-kept (m w) f rest (first.keeps w h);
  }

  pub lift-IsKept : {A : Type 0} (r : Result A) → IsKept (lift r)
  unfolding lift
  lift-IsKept (ok a) = idle (λ w h. h)
  lift-IsKept (err e) = idle (λ w h. h)

  pub fail_if-IsKept : (e : Option Error) → IsKept (fail_if e)
  unfolding fail_if
  fail_if-IsKept none = idle (λ w h. h)
  fail_if-IsKept (some e) = idle (λ w h. h)

  pub when-IsKept : (b : Bool) (m : Action H B (Unit {0})) → IsKept m → IsKept (when b m)
  unfolding when
  when-IsKept true m kept = idle kept.keeps
  when-IsKept false m kept = idle (λ w h. h)

  pub if-IsKept :
      {A : Type 0} (b : Bool) (m n : Action H B A)
      → IsKept m
      → IsKept n
      → IsKept (if b then m else n)
  if-IsKept true m n kept other = kept
  if-IsKept false m n kept other = other
