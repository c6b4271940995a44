-- ===== src/Handler/Backoff.antt =====
-- The waits of the loop of WatchCRDs and jitter (meshsync/handlers.go). A duration is a number of
-- nanoseconds; those of the loop are at most four minutes, so that no sum leaves int64.
pub mod Bounds
use meshsync.Common.{
  ℕ, ◌+◌, ◌*◌, ◌/◌, ◌≤◌, ◌<◌, ◌≡◌, refl, Bool, true, false, ◌&&◌, Option, none, some, List, [], ◌∷◌,
  arith, ltb, leb, if◌then◌else◌,
}
use meshsync.Errors.{Error}

abbrev pub second : ℕ
second = 1000000000

abbrev pub watch_crds_base_delay : ℕ
watch_crds_base_delay = 2 * second

abbrev pub watch_crds_max_delay : ℕ
watch_crds_max_delay = 120 * second

-- `draw n` is a number from 0 up to and without n.
unfoldable pub jitter : (ℕ → ℕ) → ℕ → ℕ
jitter draw d = if leb d 0 then 0 else let half = d / 2 in half + draw (half + 1)

abbrev min : ℕ → ℕ → ℕ
min m n = if leb m n then m else n

-- What one iteration came to: its error, how long it lasted, and the rand.Int64N of the wait after
-- it.
pub record Iteration : Type 0 where
  pub error : Option Error
  pub lasted : ℕ
  pub draw : ℕ → ℕ

unfoldable pub healthy : Option Error → ℕ → Bool
healthy none lasted = leb watch_crds_base_delay lasted
healthy (some e) lasted = false

-- The wait after an iteration, and the next backoff.
unfoldable pub after_iteration : ℕ → Iteration → ℕ × ℕ
unfolding jitter healthy
after_iteration backoff iteration =
    if healthy iteration.error iteration.lasted
    then (watch_crds_base_delay, watch_crds_base_delay)
    else (jitter iteration.draw backoff, min (backoff * 2) watch_crds_max_delay)

-- The waits after a sequence of iterations during which no stop signal arrives.
unfoldable pub delays : ℕ → List Iteration → List ℕ
delays backoff [] = []
delays backoff (iteration ∷ iterations) =
    let (delay, next) = after_iteration backoff iteration in delay ∷ delays next iterations
