-- ===== src/Handler/Backoff/Bounds.antt =====
-- How long WatchCRDs (meshsync/handlers.go) waits between its iterations.
use meshsync.Common.{
  ℕ, suc, ◌+◌, ◌*◌, ◌/◌, ◌^◌, ◌≤◌, ◌<◌, ◌≡◌, sym, false, List, [], ◌∷◌, arith, All,
}
use mathlib.Core.Path.{subst}
use meshsync.Handler.Backoff.{
  Iteration, second, watch_crds_base_delay, watch_crds_max_delay, min, jitter, healthy,
  after_iteration, delays,
}

-- rand.Int64N(n) is in [0, n).
abbrev pub DrawsBelow : Iteration → Type 0
DrawsBelow i = (n : ℕ) → 0 < n → i.draw n < n

jitter-range :
    (draw : ℕ → ℕ) (d : ℕ)
    → ((n : ℕ) → 0 < n → draw n < n)
    → (d / 2 ≤ jitter draw d) × (jitter draw d ≤ d)
unfolding jitter
jitter-range draw d h = ground (arith, h (d / 2 + 1))

after-bounded :
    (backoff : ℕ) (i : Iteration)
    → DrawsBelow i
    → watch_crds_base_delay ≤ backoff
    → backoff ≤ watch_crds_max_delay
    → (second ≤ (after_iteration backoff i).0)
      × ((after_iteration backoff i).0 ≤ watch_crds_max_delay)
      × (watch_crds_base_delay ≤ (after_iteration backoff i).1)
      × ((after_iteration backoff i).1 ≤ watch_crds_max_delay)
unfolding after_iteration
after-bounded backoff i h low high = ground (arith, jitter-range i.draw backoff h)

delays-bounded :
    (backoff : ℕ) (is : List Iteration)
    → All DrawsBelow is
    → watch_crds_base_delay ≤ backoff
    → backoff ≤ watch_crds_max_delay
    → All (λ d. (second ≤ d) × (d ≤ watch_crds_max_delay)) (delays backoff is)
unfolding delays
delays-bounded backoff [] h low high = tt
delays-bounded backoff (i ∷ is) h low high =
    let b = after-bounded backoff i h.0 low high in
    ((b.0, b.1), delays-bounded (after_iteration backoff i).1 is h.1 b.2 b.3)

-- If each random number is below its bound, then however the iterations end, the loop waits at
-- least one second and at most two minutes after each.
pub delays_bounded :
    (is : List Iteration)
    → All DrawsBelow is
    → All (λ d. (second ≤ d) × (d ≤ watch_crds_max_delay)) (delays watch_crds_base_delay is)
delays_bounded is h = delays-bounded watch_crds_base_delay is h (omega arith) (omega arith)

abbrev pub Fails : Iteration → Type 0
Fails i = healthy i.error i.lasted ≡ false

-- The backoff after n failures in a row.
abbrev pub backoff_after : ℕ → ℕ
backoff_after n = min (watch_crds_base_delay * 2 ^ n) watch_crds_max_delay

-- Each wait is between half and all of the backoff of its place.
abbrev pub DoublesFrom : ℕ → List ℕ → Type 0
DoublesFrom n [] = Unit {0}
DoublesFrom n (d ∷ ds) = (backoff_after n / 2 ≤ d) × (d ≤ backoff_after n) × DoublesFrom (suc n) ds

power_step : (n : ℕ) → 2 ^ suc n ≡ 2 * 2 ^ n
power_step n = omega arith

next-backoff :
    (n : ℕ) (i : Iteration)
    → Fails i
    → after_iteration (backoff_after n) i ≡ (jitter i.draw (backoff_after n), backoff_after (suc n))
unfolding after_iteration
next-backoff n i h = ground (arith, power_step n)

delays-doubles :
    (n : ℕ) (is : List Iteration)
    → All DrawsBelow is
    → All Fails is
    → DoublesFrom n (delays (backoff_after n) is)
unfolding delays
delays-doubles n [] h f = tt
delays-doubles n (i ∷ is) h f =
    subst
      (λ (r : ℕ × ℕ).
        (backoff_after n / 2 ≤ r.0) × (r.0 ≤ backoff_after n) × DoublesFrom (suc n) (delays r.1 is))
      (sym (next-backoff n i f.0))
      (let (low, high) = jitter-range i.draw (backoff_after n) h.0 in
        (low, high, delays-doubles (suc n) is h.1 f.1))

-- If each random number is below its bound, then while no iteration stays up for two seconds
-- without an error, the wait after the n-th of them, counted from 0, is between half and all of two
-- seconds doubled n times, or of two minutes if that is less.
pub delays_double :
    (is : List Iteration)
    → All DrawsBelow is
    → All Fails is
    → DoublesFrom 0 (delays watch_crds_base_delay is)
delays_double is h f = delays-doubles 0 is h f
