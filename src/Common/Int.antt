-- ===== src/Common/Int.antt =====
-- Signed integers: int64, int32 and durations. `negsuc n` is -(n + 1).
use Prim.Native.Nat.{ℕ}
use mathlib.Core.Bool.{Bool, true, false}
use meshsync.Common.Tests.{nat_eq}

pub data ℤ : Type 0 where
  pos : ℕ → ℤ
  negsuc : ℕ → ℤ

-- z == n for a constant n that is not negative.
abbrev pub eq_ℕ : ℤ → ℕ → Bool
eq_ℕ (pos m) n = nat_eq m n
eq_ℕ (negsuc m) n = false

-- -1 < z
abbrev pub is_pos : ℤ → Bool
is_pos (pos n) = true
is_pos (negsuc n) = false
